-- ===== src/Backend/WireGuard/Machine.antt =====
-- backend/wireguard/iplimit.go: the machine of one user, and that a decision is its step.
use hpxnode.Prelude.{
  ℕ, zero, suc, ◌+◌, ◌%◌, Bool, Option, none, some, string_eq, if◌then◌else◌, nat_eq, ltb, leb,
  arith, ◌≡◌, refl,
}
use hpxnode.Backend.WireGuard.IpLimit.{Action, kick, readmit, strikes_or_zero, user_action}
use hpxnode.Backend.WireGuard.Kicks.{action_for, kicked_after}

-- A user: the time at which it was removed, if it is out, and the passes in a row that found it over
-- its limit, if any.
pub record Standing : Type 0 where
  pub kicked : Option ℕ
  pub strikes : Option ℕ

-- A user over its limit is removed in the second such pass in a row, if the removal works.
abbrev pub over_limit : ℕ → Bool → Option ℕ → Standing
over_limit now removes none = record { kicked = none; strikes = some 1 }
over_limit now removes (some zero) = record { kicked = none; strikes = some 1 }
over_limit now removes (some (suc n)) =
    if removes
    then record { kicked = some now; strikes = none }
    else record { kicked = none; strikes = some (n + 2) }

-- A user that is out comes back 60 seconds after its removal, if the return works. For one that is in,
-- the limit 0 is none, and only more addresses than the limit are over it.
abbrev pub next_standing : ℕ → Bool → Bool → Option ℕ → ℕ → Standing → Standing
next_standing now removes readmits none count s = s
next_standing now removes readmits (some limit) count s = elim s.kicked [
  | some at ↦
      if ltb now (at + 60000000000)
      then s
      else (if readmits then record { kicked = none; strikes = none } else s)
  | none ↦
      if nat_eq limit 0
      then s
      else (if leb (count % 0x100000000) limit
          then record { kicked = none; strikes = none }
          else over_limit now removes s.strikes)
]

-- The strikes after an action, where the kernel works or does not.
abbrev pub strikes_after : Bool → Bool → Option Action → Option ℕ → Option ℕ
strikes_after removes readmits none strikes = strikes
strikes_after removes readmits (some (kick limit count)) strikes = if removes then none else strikes
strikes_after removes readmits (some readmit) strikes = if readmits then none else strikes

-- The strikes that the decisions leave for a user.
abbrev pub decided : Option ℕ → Option ℕ → ℕ → Option ℕ → Option ℕ
decided none kicked count strikes = strikes
decided (some limit) (some at) count strikes = strikes
decided (some limit) none count strikes =
    if nat_eq limit 0
    then strikes
    else (if ltb limit (count % 0x100000000) then some (strikes_or_zero strikes + 1) else none)

machine_kicked :
    (now : ℕ) (removes readmits : Bool) (limit count : ℕ) (k n : Option ℕ)
    → kicked_after now removes readmits (action_for now (some limit) k count n) k
      ≡ (next_standing now removes readmits
          (some limit)
          count
          (record { kicked = k; strikes = n })).kicked
unfolding user_action
machine_kicked now removes readmits limit count (some at) n = ground arith
machine_kicked now removes readmits limit count none none = ground arith
machine_kicked now removes readmits limit count none (some zero) = ground arith
machine_kicked now removes readmits limit count none (some (suc n)) = ground arith

machine_strikes :
    (now : ℕ) (removes readmits : Bool) (limit count : ℕ) (k n : Option ℕ)
    → strikes_after removes readmits
        (action_for now (some limit) k count n)
        (decided (some limit) k count n)
      ≡ (next_standing now removes readmits
          (some limit)
          count
          (record { kicked = k; strikes = n })).strikes
unfolding user_action
machine_strikes now removes readmits limit count (some at) n = ground arith
machine_strikes now removes readmits limit count none none = ground arith
machine_strikes now removes readmits limit count none (some zero) = ground arith
machine_strikes now removes readmits limit count none (some (suc n)) = ground arith

-- The decision and its execution are the step of the user's machine.
pub kicked_after-next :
    (now : ℕ) (removes readmits : Bool) (limit : Option ℕ) (count : ℕ) (s : Standing)
    → kicked_after now removes readmits (action_for now limit s.kicked count s.strikes) s.kicked
      ≡ (next_standing now removes readmits limit count s).kicked
unfolding user_action
kicked_after-next now removes readmits none count s = refl
kicked_after-next now removes readmits (some limit) count s =
    machine_kicked now removes readmits limit count s.kicked s.strikes

pub strikes_after-next :
    (now : ℕ) (removes readmits : Bool) (limit : Option ℕ) (count : ℕ) (s : Standing)
    → strikes_after removes readmits
        (action_for now limit s.kicked count s.strikes)
        (decided limit s.kicked count s.strikes)
      ≡ (next_standing now removes readmits limit count s).strikes
unfolding user_action
strikes_after-next now removes readmits none count s = refl
strikes_after-next now removes readmits (some limit) count s =
    machine_strikes now removes readmits limit count s.kicked s.strikes
