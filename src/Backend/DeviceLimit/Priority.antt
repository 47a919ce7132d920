-- ===== src/Backend/DeviceLimit/Priority.antt =====
-- backend/devicelimit.go: which protocol's devices stay connected.
use hpxnode.Prelude.{
  ℕ, ◌≤◌, ◌<◌, ◌≡◌, refl, sym, ap, ◌∙◌, ◌⊎◌, inl, inr, List, [], ◌∷◌, some, String, string_eq, ◌==◌,
  if◌then◌else◌, nat_eq, length, arith, Bool-cases, All,
}
use hpxnode.Prelude.Dict.{lookup}
use hpxnode.Backend.DeviceLimit.{
  Limiter, KeepDevices, count, min_keep, total_devices, find_limit, enforce_global_device_limits,
  device_proto_rank, sort_by_rank,
}
use hpxnode.Backend.DeviceLimit.Kept.{kept, total_kept, IsDistinct, kept-le}
use hpxnode.Backend.DeviceLimit.Budget.{ByPriority}
use hpxnode.Backend.DeviceLimit.Order.{IsRanked, sort_by_rank_lem}
use hpxnode.Backend.DeviceLimit.Limits.{enforce-sorted, total_kept-enforce}
use mathlib.Core.List.{Mem, mem-cons, not-mem-nil}
use mathlib.Core.List.Perm
use mathlib.Core.Logic.Or
use native.Mathlib.Bridge.{le_prop}
use native.Mathlib.Decide.{dec_lt}

-- The protocols by priority; the others share the last place.
abbrev pub place : String → ℕ
place p =
    if "xray" == p
    then 0
    else (if "wireguard" == p
        then 1
        else (if "openvpn" == p
            then 2
            else (if "ikev2" == p then 3 else (if "l2tp" == p then 4 else 5))))

abbrev rank_of : ℕ → ℕ
rank_of n = if nat_eq n 5 then 0x40000000 else n

rank-place : (p : String) → device_proto_rank p ≡ rank_of (place p)
unfolding device_proto_rank lookup
rank-place p = elim (Bool-cases ("xray" == p)) [
  | inl a ↦ rw a refl
  | inr a ↦ elim (Bool-cases ("wireguard" == p)) [
    | inl b ↦ rw (a, b) refl
    | inr b ↦ elim (Bool-cases ("openvpn" == p)) [
      | inl c ↦ rw (a, b, c) refl
      | inr c ↦ elim (Bool-cases ("ikev2" == p)) [
        | inl d ↦ rw (a, b, c, d) refl
        | inr d ↦ elim (Bool-cases ("l2tp" == p)) [
          | inl e ↦ rw (a, b, c, d, e) refl
          | inr e ↦ rw (a, b, c, d, e) refl
        ]
      ]
    ]
  ]
]

last_place : (p : String) → place p ≤ 5
last_place p = ground arith

rank_of_mono : (m n : ℕ) → n ≤ 5 → m < n → rank_of m < rank_of n
rank_of_mono m n small before = ground arith

place-rank : (p q : String) → place p < place q → device_proto_rank p < device_proto_rank q
place-rank p q before =
    rw (rank-place p, rank-place q) (rank_of_mono (place p) (place q) (last_place q) before)

module _ (user : String) (calls : List KeepDevices) where
  abbrev left : Limiter → ℕ
  left l = kept l.id user calls (count user l)

  left-total :
      (m : Limiter) (order : List Limiter) → Mem m order → left m ≤ total_kept user calls order
  unfolding total_kept
  left-total m [] h = absurd (not-mem-nil h)
  left-total m (x ∷ order) h =
      Or.elim le_prop (mem-cons.0 h) (λ e. rw e (omega arith))
        (λ later. omega (arith, left-total m order later))

  ranked-le :
      (r : ℕ) (m : Limiter) (order : List Limiter)
      → All (λ k. r ≤ device_proto_rank k.protocol) order
      → Mem m order
      → r ≤ device_proto_rank m.protocol
  ranked-le r m [] all h = absurd (not-mem-nil h)
  ranked-le r m (x ∷ order) all h =
      Or.elim le_prop (mem-cons.0 h) (λ e. rw e all.0) (ranked-le r m order all.1)

  same_rank :
      (l m : Limiter) → l ≡ m → device_proto_rank l.protocol < device_proto_rank m.protocol → ⊥
  same_rank l m e before =
      omega (arith, ap (λ (k : Limiter). device_proto_rank k.protocol) e, before)

  head_lost :
      (l m x : Limiter) (order : List Limiter)
      → l ≡ x
      → (left x ≡ count user x) ⊎ (total_kept user calls order ≡ 0)
      → left l < count user l
      → left m ≤ total_kept user calls order
      → left m ≤ 0
  head_lost l m x order e (inl whole) lost h =
      absurd (omega (arith, ap left e, ap (count user) e, whole, lost))
  head_lost l m x order e (inr none_left) lost h = omega (arith, none_left, h)

  sheds_first :
      (l m : Limiter) (order : List Limiter)
      → IsRanked order
      → ByPriority user calls order
      → Mem l order
      → Mem m order
      → device_proto_rank l.protocol < device_proto_rank m.protocol
      → left l < count user l
      → left m ≤ 0
  sheds_first l m [] ranked kept_by hl hm before lost = absurd (not-mem-nil hl)
  sheds_first l m (x ∷ order) ranked kept_by hl hm before lost =
      Or.elim le_prop (mem-cons.0 hl)
        (λ e.
          Or.elim le_prop (mem-cons.0 hm) (λ f. absurd (same_rank l m (e ∙ sym f) before))
            (λ later. head_lost l m x order e kept_by.0 lost (left-total m order later)))
        (λ in_rest.
          Or.elim le_prop (mem-cons.0 hm)
            (λ f. absurd (
              omega (
                arith,
                ranked-le (device_proto_rank x.protocol) l order ranked.0 in_rest,
                ap (λ (k : Limiter). device_proto_rank k.protocol) f,
                before,
              )))
            (λ later. sheds_first l m order ranked.1 kept_by.1 in_rest later before lost))

-- After a pass over at least two (different) backends, a user with a positive limit has the whole limit
-- left across them together, or all their devices if these are fewer; and of two backends whose
-- protocols stand one before the other in xray, wireguard, openvpn, ikev2, l2tp and the rest, the
-- first still has all its devices of the user, or the second has none left. (The first backend in
-- the order of priority that knows the user gives the limit, and the user has fewer than 2^32
-- devices.)
pub enforce-ByPriority :
    (user : String) (limit : ℕ) (limiters : List Limiter) (l m : Limiter)
    → IsDistinct limiters
    → 2 ≤ length limiters
    → find_limit user (sort_by_rank limiters) ≡ some limit
    → 0 < limit
    → total_devices user limiters < 0x100000000
    → Mem l limiters
    → Mem m limiters
    → place l.protocol < place m.protocol
    → (total_kept user (enforce_global_device_limits limiters) limiters
        ≡ min_keep (total_devices user limiters) limit)
      × ((kept l.id user (enforce_global_device_limits limiters) (count user l) ≡ count user l)
          ⊎ (kept m.id user (enforce_global_device_limits limiters) (count user m) ≡ 0))
enforce-ByPriority user limit limiters l m d two known positive few hl hm before =
    let calls = enforce_global_device_limits limiters in
    let (perm, ranked, rest) = sort_by_rank_lem limiters in
    (
      total_kept-enforce user limit limiters d two known positive few,
      elim (dec_lt (kept l.id user calls (count user l)) (count user l)) [
        | yes lost ↦ inr (
            omega (
              arith,
              sheds_first user calls l m (sort_by_rank limiters) ranked
                  (enforce-sorted user limiters d two) ((Perm.mem_iff perm).1 hl)
                  ((Perm.mem_iff perm).1 hm) (place-rank l.protocol m.protocol before) lost,
            ))
        | no whole ↦ inl (omega (arith, whole, kept-le l.id user calls (count user l)))
      ],
    )
