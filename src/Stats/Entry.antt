-- ===== src/Stats/Entry.antt =====
-- pkg/stats/tracker.go: the traffic counters of one peer key, and what a sample does to them. A
-- time is a number of nanoseconds since Go's zero time, so that the zero time is 0.
use hpxnode.Prelude.{ℕ, Bool, false, not, ◌&&◌, ◌||◌, String, if◌then◌else◌}
use hpxnode.Prelude.Int.{ℤ, pos, sub64, ltb_ℤ, eq_ℤ}

pub record Entry : Type 0 where
  pub email : String
  pub current_rx : ℤ
  pub current_tx : ℤ
  pub base_rx : ℤ
  pub base_tx : ℤ
  pub last_delta_rx : ℤ
  pub last_delta_tx : ℤ
  pub last_active_time : ℕ
  pub endpoint_ip : String
  pub is_deleted : Bool

pub record Sample : Type 0 where
  pub public_key : String
  pub email : String
  pub rx : ℤ
  pub tx : ℤ
  pub endpoint_ip : String

abbrev pub new_entry : String → Entry
new_entry email = record {
  email = email;
  current_rx = pos 0;
  current_tx = pos 0;
  base_rx = pos 0;
  base_tx = pos 0;
  last_delta_rx = pos 0;
  last_delta_tx = pos 0;
  last_active_time = 0;
  endpoint_ip = "";
  is_deleted = false;
}

unfoldable pub has_pending : Entry → Bool
has_pending e = not (eq_ℤ e.last_delta_rx (pos 0)) || not (eq_ℤ e.last_delta_tx (pos 0))

-- Restore the pending delta's baseline when a deleted entry is added again.
unfoldable pub restore_pending : Entry → Sample → Entry
unfolding has_pending
restore_pending e s =
    if has_pending e
    then record e {
      base_rx = sub64 s.rx e.last_delta_rx;
      base_tx = sub64 s.tx e.last_delta_tx;
      last_delta_rx = pos 0;
      last_delta_tx = pos 0;
    }
    else e

abbrev pub clamp_zero : ℤ → ℤ
clamp_zero a = if ltb_ℤ a (pos 0) then pos 0 else a

-- A kernel counter went back: the baselines move below the sample by the pending deltas.
unfoldable pub rebase_rollback : Bool → Entry → Sample → Entry
rebase_rollback readded e s =
    if not readded && (ltb_ℤ s.rx e.current_rx || ltb_ℤ s.tx e.current_tx)
    then record e {
      base_rx = sub64 s.rx (clamp_zero (sub64 e.current_rx e.base_rx));
      base_tx = sub64 s.tx (clamp_zero (sub64 e.current_tx e.base_tx));
    }
    else e

unfoldable pub mark_active : Entry → Sample → ℕ → Entry
mark_active e s active_at =
    if ltb_ℤ e.current_rx s.rx || ltb_ℤ e.current_tx s.tx
    then record e { last_active_time = active_at }
    else e

-- What a sample does to the entry of its key.
unfoldable pub update_entry : Entry → Sample → ℕ → Entry
unfolding restore_pending rebase_rollback mark_active
update_entry e s active_at =
    let e₁ = restore_pending (record e { email = s.email; is_deleted = false }) s in
    if eq_ℤ e₁.current_rx s.rx && eq_ℤ e₁.current_tx s.tx
    then record e₁ { endpoint_ip = s.endpoint_ip }
    else record (mark_active (rebase_rollback (has_pending e) e₁ s) s active_at) {
      current_rx = s.rx;
      current_tx = s.tx;
      endpoint_ip = s.endpoint_ip;
    }
