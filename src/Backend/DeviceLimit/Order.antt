-- ===== src/Backend/DeviceLimit/Order.antt =====
-- The order of priority of backend/devicelimit.go.
use hpxnode.Prelude.{
  ℕ, ◌+◌, ◌≤◌, ◌≡◌, refl, ap, ◌∙◌, inl, inr, Bool-cases, leb→le, false, List, [], ◌∷◌, String,
  if◌then◌else◌, nat_eq, leb, All, arith,
}
use hpxnode.Backend.DeviceLimit.{
  Limiter, KeepDevices, count, device_proto_rank, insert_by_rank, sort_by_rank, total_devices,
}
use hpxnode.Backend.DeviceLimit.Kept.{kept, total_kept, Apart, IsDistinct}
use mathlib.Core.List.{Perm}
use mathlib.Core.List.Perm

abbrev rank : Limiter → ℕ
rank l = device_proto_rank l.protocol

-- The ranks do not fall.
abbrev pub IsRanked : List Limiter → Type 0
IsRanked [] = Unit
IsRanked (l ∷ order) =
    All (λ m. device_proto_rank l.protocol ≤ device_proto_rank m.protocol) order × IsRanked order

module _ (P : Limiter → Type 0) (l : Limiter) where
  insert_by_rank-All : (order : List Limiter) → P l → All P order → All P (insert_by_rank l order)
  unfolding insert_by_rank
  insert_by_rank-All [] p ps = (p, tt)
  insert_by_rank-All (m ∷ order) p ps = elim (Bool-cases (leb (rank l) (rank m))) [
    | inl low ↦ rw low (p, ps)
    | inr high ↦ rw high (ps.0, insert_by_rank-All order p ps.1)
  ]

All-weaken :
    (a b : ℕ) (order : List Limiter)
    → a ≤ b
    → All (λ m. b ≤ rank m) order
    → All (λ m. a ≤ rank m) order
All-weaken a b [] h ps = tt
All-weaken a b (m ∷ order) h ps = (omega arith, All-weaken a b order h ps.1)

insert_by_rank-IsRanked :
    (l : Limiter) (order : List Limiter) → IsRanked order → IsRanked (insert_by_rank l order)
unfolding insert_by_rank
insert_by_rank-IsRanked l [] s = (tt, tt)
insert_by_rank-IsRanked l (m ∷ order) s = elim (Bool-cases (leb (rank l) (rank m))) [
  | inl low ↦ rw low (
    (
      leb→le (rank l) (rank m) low,
      All-weaken (rank l) (rank m) order (leb→le (rank l) (rank m) low) s.0,
    ),
    s,
  )
  | inr high ↦ rw high (
    insert_by_rank-All (λ k. rank m ≤ rank k) l order (ground arith) s.0,
    insert_by_rank-IsRanked l order s.1,
  )
]

sort_by_rank-IsRanked : (limiters : List Limiter) → IsRanked (sort_by_rank limiters)
unfolding sort_by_rank
sort_by_rank-IsRanked [] = tt
sort_by_rank-IsRanked (l ∷ limiters) =
    insert_by_rank-IsRanked l (sort_by_rank limiters) (sort_by_rank-IsRanked limiters)

insert_by_rank-perm :
    (l : Limiter) (order : List Limiter) → Perm (insert_by_rank l order) (l ∷ order)
unfolding insert_by_rank
insert_by_rank-perm l [] = Perm.refl (l ∷ [])
insert_by_rank-perm l (m ∷ order) = elim (Bool-cases (leb (rank l) (rank m))) [
  | inl low ↦ rw low (Perm.refl (l ∷ m ∷ order))
  | inr high ↦
      rw high (Perm.trans (Perm.cons m (insert_by_rank-perm l order)) (Perm.swap l m order))
]

sort_by_rank-perm : (limiters : List Limiter) → Perm (sort_by_rank limiters) limiters
unfolding sort_by_rank
sort_by_rank-perm [] = Perm.refl []
sort_by_rank-perm (l ∷ limiters) =
    Perm.trans (insert_by_rank-perm l (sort_by_rank limiters))
      (Perm.cons l (sort_by_rank-perm limiters))

-- The limiters with one rank.
abbrev pub of_rank : ℕ → List Limiter → List Limiter
of_rank r [] = []
of_rank r (l ∷ order) =
    let rest = of_rank r order in if nat_eq (device_proto_rank l.protocol) r then l ∷ rest else rest

insert_by_rank-of_rank :
    (r : ℕ) (l : Limiter) (order : List Limiter)
    → of_rank r (insert_by_rank l order) ≡ of_rank r (l ∷ order)
unfolding insert_by_rank
insert_by_rank-of_rank r l [] = refl
insert_by_rank-of_rank r l (m ∷ order) = ground (arith, insert_by_rank-of_rank r l order)

sort_by_rank-of_rank :
    (r : ℕ) (limiters : List Limiter) → of_rank r (sort_by_rank limiters) ≡ of_rank r limiters
unfolding sort_by_rank
sort_by_rank-of_rank r [] = refl
sort_by_rank-of_rank r (l ∷ limiters) =
    insert_by_rank-of_rank r l (sort_by_rank limiters)
    ∙ ap (λ rest. if nat_eq (rank l) r then l ∷ rest else rest) (sort_by_rank-of_rank r limiters)

-- The order of a pass holds the same limiters by rising rank, and those of one rank as they came.
pub sort_by_rank_lem :
    (limiters : List Limiter)
    → Perm (sort_by_rank limiters) limiters
      × IsRanked (sort_by_rank limiters)
      × ((r : ℕ) → of_rank r (sort_by_rank limiters) ≡ of_rank r limiters)
sort_by_rank_lem limiters = (
  sort_by_rank-perm limiters,
  sort_by_rank-IsRanked limiters,
  λ r. sort_by_rank-of_rank r limiters,
)

module _ (user : String) where
  total_devices-insert :
      (l : Limiter) (order : List Limiter)
      → total_devices user (insert_by_rank l order) ≡ count user l + total_devices user order
  unfolding insert_by_rank total_devices
  total_devices-insert l [] = refl
  total_devices-insert l (m ∷ order) = ground (arith, total_devices-insert l order)

  pub total_devices-sort :
      (limiters : List Limiter)
      → total_devices user (sort_by_rank limiters) ≡ total_devices user limiters
  unfolding sort_by_rank total_devices
  total_devices-sort [] = refl
  total_devices-sort (l ∷ limiters) =
      omega (arith, total_devices-insert l (sort_by_rank limiters), total_devices-sort limiters)

  module _ (calls : List KeepDevices) where
    total_kept-insert :
        (l : Limiter) (order : List Limiter)
        → total_kept user calls (insert_by_rank l order)
          ≡ kept l.id user calls (count user l) + total_kept user calls order
    unfolding insert_by_rank total_kept
    total_kept-insert l [] = refl
    total_kept-insert l (m ∷ order) = ground (arith, total_kept-insert l order)

    pub total_kept-sort :
        (limiters : List Limiter)
        → total_kept user calls (sort_by_rank limiters) ≡ total_kept user calls limiters
    unfolding sort_by_rank total_kept
    total_kept-sort [] = refl
    total_kept-sort (l ∷ limiters) =
        omega (arith, total_kept-insert l (sort_by_rank limiters), total_kept-sort limiters)

insert_by_rank-IsDistinct :
    (l : Limiter) (order : List Limiter)
    → Apart l.id order
    → IsDistinct order
    → IsDistinct (insert_by_rank l order)
unfolding insert_by_rank
insert_by_rank-IsDistinct l [] a d = (tt, tt)
insert_by_rank-IsDistinct l (m ∷ order) a d = elim (Bool-cases (leb (rank l) (rank m))) [
  | inl low ↦ rw low (a, d)
  | inr high ↦ rw high (
    insert_by_rank-All (λ k. nat_eq k.id m.id ≡ false) l order (ground arith) d.0,
    insert_by_rank-IsDistinct l order a.1 d.1,
  )
]

sort_by_rank-Apart :
    (id : ℕ) (limiters : List Limiter) → Apart id limiters → Apart id (sort_by_rank limiters)
unfolding sort_by_rank
sort_by_rank-Apart id [] a = tt
sort_by_rank-Apart id (l ∷ limiters) a =
    insert_by_rank-All (λ k. nat_eq k.id id ≡ false) l (sort_by_rank limiters) a.0
      (sort_by_rank-Apart id limiters a.1)

pub sort_by_rank-IsDistinct :
    (limiters : List Limiter) → IsDistinct limiters → IsDistinct (sort_by_rank limiters)
unfolding sort_by_rank
sort_by_rank-IsDistinct [] d = tt
sort_by_rank-IsDistinct (l ∷ limiters) d =
    insert_by_rank-IsDistinct l (sort_by_rank limiters) (sort_by_rank-Apart l.id limiters d.0)
      (sort_by_rank-IsDistinct limiters d.1)
