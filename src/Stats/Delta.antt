-- ===== src/Stats/Delta.antt =====
-- pkg/stats/interface_counters.go: the counters of one interface, and the stat lines of a delta.
use hpxnode.Prelude.{Bool, true, false, not, ◌&&◌, ◌||◌, List, [], ◌∷◌, String, if◌then◌else◌, ◌++◌}
use hpxnode.Prelude.Int.{ℤ, pos, sub64, ltb_ℤ, eq_ℤ}

-- common.Stat
pub record Stat : Type 0 where
  pub name : String
  pub type : String
  pub link : String
  pub value : ℤ

-- The stat lines of one pair of deltas: none for a zero pair, and no line for a value below 1.
unfoldable pub build_delta_stats : String → String → ℤ → ℤ → List Stat
build_delta_stats name link rx tx =
    if eq_ℤ rx (pos 0) && eq_ℤ tx (pos 0)
    then []
    else ((if ltb_ℤ (pos 0) tx
          then record { name = name; type = "uplink"; link = link; value = tx } ∷ []
          else [])
        ++ (if ltb_ℤ (pos 0) rx
            then record { name = name; type = "downlink"; link = link; value = rx } ∷ []
            else []))

-- InterfaceCountersTracker
pub record Counters : Type 0 where
  pub base_rx : ℤ
  pub base_tx : ℤ
  pub base_set : Bool

abbrev pub new_counters : Counters
new_counters = record { base_rx = pos 0; base_tx = pos 0; base_set = false }

-- The first sample sets the baseline.
unfoldable pub set_base : Counters → ℤ → ℤ → Counters
set_base t rx tx =
    if not t.base_set then record { base_rx = rx; base_tx = tx; base_set = true } else t

-- A counter below the baseline was reset: both baselines start again.
unfoldable pub rebase : Counters → ℤ → ℤ → Counters
rebase t rx tx =
    if ltb_ℤ rx t.base_rx || ltb_ℤ tx t.base_tx then record t { base_rx = rx; base_tx = tx } else t

unfoldable pub delta : Counters → ℤ → ℤ → Bool → Counters × (ℤ × ℤ)
unfolding set_base rebase
delta t rx tx reset =
    let u = rebase (set_base t rx tx) rx tx in
    let d : ℤ × ℤ = (sub64 rx u.base_rx, sub64 tx u.base_tx) in
    (if reset then record u { base_rx = rx; base_tx = tx } else u, d)
