-- ===== src/Stats/Interface.antt =====
-- What the interface counters of pkg/stats/interface_counters.go report.
use hpxnode.Prelude.{
  ℕ, ◌+◌, ◌-◌, ◌<◌, ◌≤◌, ◌≡◌, ◌∙◌, Bool, true, List, [], ◌∷◌, arith, Bool-cases, inl, inr, ◌&&◌,
  leb, if◌then◌else◌,
}
use hpxnode.Prelude.Int.{pos, pos_part, sub64, sub64_parts, parts_disjoint, eq_of_parts}
use hpxnode.Stats.Delta.{Counters, delta}

-- A baseline that stands at two counters.
abbrev pub based : ℕ → ℕ → Counters
based rx tx = record { base_rx = pos rx; base_tx = pos tx; base_set = true }

sub64-pos : (a b : ℕ) → b ≤ a → a < 0x8000000000000000 → sub64 (pos a) (pos b) ≡ pos (a - b)
sub64-pos a b h k =
    eq_of_parts (sub64 (pos a) (pos b)) (pos (a - b))
      (omega (arith, sub64_parts (pos a) (pos b), parts_disjoint (sub64 (pos a) (pos b))))

-- Against a baseline, and for counters below 2^63, a poll reports how far both counters have moved
-- on, or nothing at all if either went back. A poll with reset, or one that found a counter gone
-- back, moves the baseline to the counters; another leaves it.
pub delta-based :
    (b c rx tx : ℕ) (reset : Bool)
    → rx < 0x8000000000000000
    → tx < 0x8000000000000000
    → delta (based b c) (pos rx) (pos tx) reset ≡ (
        if leb b rx && leb c tx
        then (if reset then based rx tx else based b c, (pos (rx - b), pos (tx - c)))
        else (based rx tx, (pos 0, pos 0)))
unfolding delta
delta-based b c rx tx reset h k =
    ground (arith, sub64-pos rx b, sub64-pos tx c, sub64-pos rx rx, sub64-pos tx tx)

-- One poll: the counters and the reset flag.
pub record Poll : Type 0 where
  pub rx : ℕ
  pub tx : ℕ
  pub reset : Bool

-- What the polls with reset report in all, and the tracker that they leave.
unfoldable pub poll_all : Counters → List Poll → Counters × ℕ × ℕ
poll_all t [] = (t, 0, 0)
poll_all t (p ∷ polls) =
    let (t', (d_rx, d_tx)) = delta t (pos p.rx) (pos p.tx) p.reset in
    let (u, sum_rx, sum_tx) = poll_all t' polls in
    (
      u,
      (if p.reset then pos_part d_rx else 0) + sum_rx,
      (if p.reset then pos_part d_tx else 0) + sum_tx,
    )

-- Counters that never go back, from a pair on.
abbrev pub Rises : ℕ → ℕ → List Poll → Type 0
Rises rx tx [] = Unit
Rises rx tx (p ∷ polls) =
    (rx ≤ p.rx)
    × (tx ≤ p.tx)
    × (p.rx < 0x8000000000000000)
    × (p.tx < 0x8000000000000000)
    × Rises p.rx p.tx polls

delta_on :
    (b c : ℕ) (p : Poll)
    → b ≤ p.rx
    → c ≤ p.tx
    → p.rx < 0x8000000000000000
    → p.tx < 0x8000000000000000
    → delta (based b c) (pos p.rx) (pos p.tx) p.reset
      ≡ (if p.reset then based p.rx p.tx else based b c, (pos (p.rx - b), pos (p.tx - c)))
delta_on b c p hb hc h k = ground (arith, delta-based b c p.rx p.tx p.reset h k)

poll_all_from :
    (b c rx tx : ℕ) (polls : List Poll)
    → b ≤ rx
    → c ≤ tx
    → Rises rx tx polls
    → (poll_all (based b c) polls).0
      ≡ based (b + (poll_all (based b c) polls).1) (c + (poll_all (based b c) polls).2)
unfolding poll_all
poll_all_from b c rx tx [] hb hc r = ground arith
poll_all_from b c rx tx (p ∷ polls) hb hc r = elim (Bool-cases p.reset) [
  | inl yes_reset ↦
      rw (delta_on b c p (omega arith) (omega arith) r.2 r.3, yes_reset)
        (poll_all_from p.rx p.tx p.rx p.tx polls (omega arith) (omega arith) r.4 ∙ ground arith)
  | inr no_reset ↦
      rw (delta_on b c p (omega arith) (omega arith) r.2 r.3, no_reset)
        (poll_all_from b c p.rx p.tx polls (omega arith) (omega arith) r.4 ∙ ground arith)
]

-- While the counters rise (below 2^63), the deltas that the polls with reset report add up to
-- exactly the distance that the baseline moved: a byte is reported once, however polls with and
-- without reset alternate.
pub poll_all-based :
    (b c : ℕ) (polls : List Poll)
    → Rises b c polls
    → (poll_all (based b c) polls).0
      ≡ based (b + (poll_all (based b c) polls).1) (c + (poll_all (based b c) polls).2)
poll_all-based b c polls r = poll_all_from b c b c polls (omega arith) (omega arith) r
