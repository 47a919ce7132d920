-- ===== src/Backend/DeviceLimit/Enforce.antt =====
-- What a whole pass of backend/devicelimit.go leaves of each user's devices.
use hpxnode.Prelude.{
  ℕ, ◌-◌, ◌≤◌, ◌<◌, ◌≡◌, refl, ap, subst, ◌∙◌, ◌⊎◌, inl, inr, false, List, [], ◌∷◌, Option, none,
  some, String, string_eq, ◌==◌, if◌then◌else◌, ltb, length, arith, Bool-cases, Option-cases,
}
use hpxnode.Prelude.Dict.{Dict, lookup, insert, keys, IsDict, lookup-insert, insert-IsDict}
use hpxnode.Backend.DeviceLimit.{
  Limiter, KeepDevices, count, min_keep, or_zero, total_devices, hand_out, find_limit,
  enforce_known, enforce_user, enforce_users, enforce_global_device_limits, add_users,
  collect_users, sort_by_rank,
}
use hpxnode.Backend.DeviceLimit.Kept.{kept, kept-append}
use hpxnode.Backend.DeviceLimit.Order.{total_devices-sort}
use native.Mathlib.Decide.{dec_lt}
use text.Mathlib.TextEquality.{eq_iff}

kept_call :
    (id : ℕ) (user : String) (c : KeepDevices) (calls : List KeepDevices) (n : ℕ)
    → (c.user == user) ≡ false
    → kept id user (c ∷ calls) n ≡ kept id user calls n
unfolding kept
kept_call id user c calls n h = ground arith

-- The calls for another user leave a user alone.
kept-hand_out_other :
    (id : ℕ) (user u : String) (remaining n : ℕ) (order : List Limiter)
    → (u == user) ≡ false
    → kept id user (hand_out u remaining order) n ≡ n
unfolding hand_out kept
kept-hand_out_other id user u remaining n [] h = refl
kept-hand_out_other id user u remaining n (m ∷ order) h = ground (
  arith,
  kept-hand_out_other id user u remaining n order h,
  kept-hand_out_other id user u (remaining - min_keep (count u m) remaining) n order h,
)

kept-enforce_other :
    (id : ℕ) (user u : String) (n : ℕ) (order : List Limiter) (limit : Option ℕ)
    → (u == user) ≡ false
    → kept id user (enforce_known u order limit) n ≡ n
unfolding kept
kept-enforce_other id user u n order none h = refl
kept-enforce_other id user u n order (some limit) h =
    ground (arith, kept-hand_out_other id user u limit n order h)

-- A user who is not among those of the pass is left alone.
kept-enforce_absent :
    (id : ℕ) (user : String) (n : ℕ) (order : List Limiter) (users : Dict String (Unit {0}))
    → lookup user users ≡ none
    → kept id user (enforce_users order (keys users)) n ≡ n
unfolding enforce_users enforce_user lookup kept
kept-enforce_absent id user n order [] h = refl
kept-enforce_absent id user n order ((u, t) ∷ users) h = elim (Bool-cases (u == user)) [
  | inl same ↦ absurd (cc (rw same at h))
  | inr other ↦
      rw
        (
          kept-append id user (enforce_user order u) (enforce_users order (keys users)) n,
          kept-enforce_other id user u n order (find_limit u order) other,
        )
        (kept-enforce_absent id user n order users (rw other at h))
]

-- A user of the pass is treated once.
kept-enforce_present :
    (id : ℕ) (user : String) (n : ℕ) (order : List Limiter) (users : Dict String (Unit {0}))
    → IsDict users
    → lookup user users ≡ some tt
    → kept id user (enforce_users order (keys users)) n ≡ kept id user (enforce_user order user) n
unfolding enforce_users enforce_user lookup
kept-enforce_present id user n order [] d h = absurd (cc)
kept-enforce_present id user n order ((u, t) ∷ users) d h = elim (Bool-cases (u == user)) [
  | inl same ↦
      let e : u ≡ user = (eq_iff u user).0 same in
      kept-append id user (enforce_user order u) (enforce_users order (keys users)) n
      ∙ (kept-enforce_absent id user _ order users (subst (λ v. lookup v users ≡ none) e d.0)
          ∙ ap (λ v. kept id user (enforce_user order v) n) e)
  | inr other ↦
      kept-append id user (enforce_user order u) (enforce_users order (keys users)) n
      ∙ (ap (kept id user (enforce_users order (keys users)))
            (unfold enforce_user in kept-enforce_other id user u n order (find_limit u order) other)
          ∙ kept-enforce_present id user n order users d.1 (rw other at h))
]

-- The pass treats each user who has a device somewhere.
add_users_keeps :
    (user : String) (c : Dict String ℕ) (users : Dict String (Unit {0}))
    → lookup user users ≡ some tt
    → lookup user (add_users c users) ≡ some tt
unfolding add_users
add_users_keeps user [] users h = h
add_users_keeps user ((u, n) ∷ c) users h =
    add_users_keeps user c (if ltb 0 n then insert u tt users else users)
      (ground (arith, lookup-insert u user tt users))

add_users_found :
    (user : String) (c : Dict String ℕ) (users : Dict String (Unit {0}))
    → 0 < or_zero (lookup user c)
    → lookup user (add_users c users) ≡ some tt
unfolding add_users lookup
add_users_found user [] users h = absurd (omega arith)
add_users_found user ((u, n) ∷ c) users h = elim (Bool-cases (u == user)) [
  | inl same ↦
      add_users_keeps user c (if ltb 0 n then insert u tt users else users)
        (ground (arith, lookup-insert u user tt users, (rw same at h)))
  | inr other ↦
      add_users_found user c (if ltb 0 n then insert u tt users else users) (rw other at h)
]

collect_users_keeps :
    (user : String) (order : List Limiter) (users : Dict String (Unit {0}))
    → lookup user users ≡ some tt
    → lookup user (collect_users order users) ≡ some tt
unfolding collect_users
collect_users_keeps user [] users h = h
collect_users_keeps user (l ∷ order) users h =
    collect_users_keeps user order (add_users l.online_device_counts users)
      (add_users_keeps user l.online_device_counts users h)

collect_users_found :
    (user : String) (order : List Limiter) (users : Dict String (Unit {0}))
    → 0 < total_devices user order
    → lookup user (collect_users order users) ≡ some tt
unfolding collect_users total_devices
collect_users_found user [] users h = absurd (omega arith)
collect_users_found user (l ∷ order) users h = elim (dec_lt 0 (count user l)) [
  | yes here ↦
      collect_users_keeps user order (add_users l.online_device_counts users)
        (add_users_found user l.online_device_counts users here)
  | no gone ↦ collect_users_found user order (add_users l.online_device_counts users) (omega arith)
]

add_users-IsDict :
    (c : Dict String ℕ) (users : Dict String (Unit {0})) → IsDict users → IsDict (add_users c users)
unfolding add_users
add_users-IsDict [] users d = d
add_users-IsDict ((u, n) ∷ c) users d =
    add_users-IsDict c (if ltb 0 n then insert u tt users else users)
      (ground (arith, insert-IsDict u tt users d))

collect_users-IsDict :
    (order : List Limiter) (users : Dict String (Unit {0}))
    → IsDict users
    → IsDict (collect_users order users)
unfolding collect_users
collect_users-IsDict [] users d = d
collect_users-IsDict (l ∷ order) users d =
    collect_users-IsDict order (add_users l.online_device_counts users)
      (add_users-IsDict l.online_device_counts users d)

-- The calls of a pass that concern a user are those that the user's own turn makes.
pub kept-enforce :
    (id : ℕ) (user : String) (n : ℕ) (limiters : List Limiter)
    → 2 ≤ length limiters
    → 0 < total_devices user limiters
    → kept id user (enforce_global_device_limits limiters) n
      ≡ kept id user (enforce_user (sort_by_rank limiters) user) n
unfolding enforce_global_device_limits
kept-enforce id user n limiters two some_device = rw (two_limiters) (
    kept-enforce_present id user n order (collect_users order []) (collect_users-IsDict order [] tt)
      (collect_users_found user order [] (omega (arith, total_devices-sort user limiters))))
  where
    order : List Limiter
    order = sort_by_rank limiters

    two_limiters : ltb (length limiters) 2 ≡ false
    two_limiters = ground arith

-- A user in no turn of the pass is left alone.
pub kept-enforce_cases :
    (id : ℕ) (user : String) (n : ℕ) (limiters : List Limiter)
    → (kept id user (enforce_global_device_limits limiters) n ≡ n)
      ⊎ (kept id user (enforce_global_device_limits limiters) n
          ≡ kept id user (enforce_user (sort_by_rank limiters) user) n)
unfolding enforce_global_device_limits
kept-enforce_cases id user n limiters = elim (Bool-cases (ltb (length limiters) 2)) [
  | inl few ↦ inl (rw few (unfold kept in refl))
  | inr two ↦ rw two (elim (Option-cases (lookup user (collect_users (sort_by_rank limiters) []))) [
    | inl out ↦ inl (
        kept-enforce_absent id user n (sort_by_rank limiters)
          (collect_users (sort_by_rank limiters) []) out)
    | inr (t, found) ↦ inr (
        kept-enforce_present id user n (sort_by_rank limiters)
          (collect_users (sort_by_rank limiters) [])
          (collect_users-IsDict (sort_by_rank limiters) [] tt) found)
  ])
]
