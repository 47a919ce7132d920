-- ===== src/Backend/DeviceLimit/Limits.antt =====
-- The device limit that a pass of backend/devicelimit.go enforces across the protocols.
use hpxnode.Prelude.{
  ℕ, ◌%◌, ◌≤◌, ◌<◌, ◌≡◌, refl, sym, ap, ◌∙◌, ◌⊎◌, inl, inr, List, [], ◌∷◌, Option, none, some,
  String, nat_eq, leb, length, arith, Bool-cases,
}
use hpxnode.Backend.DeviceLimit.{
  Limiter, KeepDevices, count, min_keep, total_devices, find_limit, enforce_known, enforce_user,
  enforce_global_device_limits, sort_by_rank,
}
use hpxnode.Backend.DeviceLimit.Kept.{kept, total_kept, IsDistinct, kept-le, total_kept_congr}
use hpxnode.Backend.DeviceLimit.Budget.{
  total_kept-hand_out, ByPriority, hand_out-ByPriority, ByPriority-congr, ByPriority-none,
  ByPriority-nil,
}
use hpxnode.Backend.DeviceLimit.Order.{total_devices-sort, total_kept-sort, sort_by_rank-IsDistinct}
use hpxnode.Backend.DeviceLimit.Enforce.{kept-enforce, kept-enforce_cases}
use native.Mathlib.Decide.{dec_lt}

total_kept-nil :
    (user : String) (order : List Limiter) → total_kept user [] order ≡ total_devices user order
unfolding total_kept total_devices kept
total_kept-nil user [] = refl
total_kept-nil user (l ∷ order) = omega (arith, total_kept-nil user order)

total_kept-le :
    (user : String) (calls : List KeepDevices) (order : List Limiter)
    → total_kept user calls order ≤ total_devices user order
unfolding total_kept total_devices
total_kept-le user calls [] = omega arith
total_kept-le user calls (l ∷ order) =
    omega (arith, kept-le l.id user calls (count user l), total_kept-le user calls order)

-- One user's turn over the backends in order.
total_kept-enforce_known :
    (user : String) (limit : ℕ) (order : List Limiter)
    → IsDistinct order
    → 0 < limit
    → total_devices user order < 0x100000000
    → total_kept user (enforce_known user order (some limit)) order
      ≡ min_keep (total_devices user order) limit
total_kept-enforce_known user limit order d positive few =
    ground (arith, total_kept-nil user order, total_kept-hand_out user limit order d)

-- After a pass over at least two backends, a user with a positive limit has the whole limit left
-- across the backends together, or all their devices if these are fewer. (The first backend in the
-- order of priority that knows the user gives the limit; the backends are different ones, and the
-- user has fewer than 2^32 devices.)
pub total_kept-enforce :
    (user : String) (limit : ℕ) (limiters : List Limiter)
    → IsDistinct limiters
    → 2 ≤ length limiters
    → find_limit user (sort_by_rank limiters) ≡ some limit
    → 0 < limit
    → total_devices user limiters < 0x100000000
    → total_kept user (enforce_global_device_limits limiters) limiters
      ≡ min_keep (total_devices user limiters) limit
unfolding enforce_user
total_kept-enforce user limit limiters d two known positive few =
    elim (dec_lt 0 (total_devices user limiters)) [
      | yes some_device ↦
          total_kept_congr user (enforce_global_device_limits limiters)
            (enforce_user (sort_by_rank limiters) user)
            (λ id n. kept-enforce id user n limiters two some_device) limiters
          ∙ (sym (total_kept-sort user (enforce_user (sort_by_rank limiters) user) limiters)
              ∙ rw known (
                  omega (
                    arith,
                    total_devices-sort user limiters,
                    ap (λ (t : ℕ). min_keep t limit) (total_devices-sort user limiters),
                    total_kept-enforce_known user limit (sort_by_rank limiters)
                        (sort_by_rank-IsDistinct limiters d) positive,
                  )))
      | no none_online ↦
          ground (arith, total_kept-le user (enforce_global_device_limits limiters) limiters)
    ]

enforce_known-ByPriority :
    (user : String) (order : List Limiter) (limit : Option ℕ)
    → IsDistinct order
    → ByPriority user (enforce_known user order limit) order
enforce_known-ByPriority user order none d = ByPriority-nil user order
enforce_known-ByPriority user order (some limit) d = elim (Bool-cases (nat_eq limit 0)) [
  | inl unlimited ↦ rw unlimited (ByPriority-nil user order)
  | inr limited ↦
      rw limited (elim (Bool-cases (leb (total_devices user order % 0x100000000) limit)) [
        | inl within ↦ rw within (ByPriority-nil user order)
        | inr over ↦ rw over (hand_out-ByPriority user limit order d)
      ])
]

pub enforce-sorted :
    (user : String) (limiters : List Limiter)
    → IsDistinct limiters
    → 2 ≤ length limiters
    → ByPriority user (enforce_global_device_limits limiters) (sort_by_rank limiters)
unfolding enforce_user
enforce-sorted user limiters d two = elim (dec_lt 0 (total_devices user limiters)) [
  | yes some_device ↦
      ByPriority-congr user (enforce_global_device_limits limiters)
        (enforce_user (sort_by_rank limiters) user)
        (λ id n. kept-enforce id user n limiters two some_device) (sort_by_rank limiters)
        (enforce_known-ByPriority user (sort_by_rank limiters)
          (find_limit user (sort_by_rank limiters)) (sort_by_rank-IsDistinct limiters d))
  | no none_online ↦
      ByPriority-none user (enforce_global_device_limits limiters) (sort_by_rank limiters)
        (omega (arith, total_devices-sort user limiters))
]

-- A pass disconnects no device of a user (with fewer than 2^32 devices) whom no backend knows,
-- whose limit is 0, or who has at most as many devices as the limit: the calls leave each
-- backend's devices as they were.
pub kept-within :
    (id : ℕ) (user : String) (n : ℕ) (limiters : List Limiter)
    → (find_limit user (sort_by_rank limiters) ≡ none)
      ⊎ ((limit : ℕ) × (find_limit user (sort_by_rank limiters) ≡ some limit)
          × ((limit ≡ 0) ⊎ (total_devices user limiters ≤ limit)))
    → total_devices user limiters < 0x100000000
    → kept id user (enforce_global_device_limits limiters) n ≡ n
unfolding enforce_user kept
kept-within id user n limiters within few = elim (kept-enforce_cases id user n limiters) [
  | inl e ↦ e
  | inr e ↦ e ∙ turn within
]
  where
    turn :
        (find_limit user (sort_by_rank limiters) ≡ none)
          ⊎ ((limit : ℕ) × (find_limit user (sort_by_rank limiters) ≡ some limit)
              × ((limit ≡ 0) ⊎ (total_devices user limiters ≤ limit)))
        → kept id user (enforce_user (sort_by_rank limiters) user) n ≡ n
    turn (inl unknown) = rw unknown
    turn (inr (limit, known, small)) = rw known (ground (arith, total_devices-sort user limiters))
