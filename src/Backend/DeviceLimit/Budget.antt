-- ===== src/Backend/DeviceLimit/Budget.antt =====
-- How one user's budget is handed out in backend/devicelimit.go.
use hpxnode.Prelude.{
  ℕ, ◌-◌, ◌≡◌, ◌≤◌, ◌<◌, refl, sym, subst, ◌∙◌, ◌⊎◌, inl, inr, List, [], ◌∷◌, String, string_eq,
  arith,
}
use hpxnode.Backend.DeviceLimit.{Limiter, KeepDevices, count, min_keep, total_devices, hand_out}
use hpxnode.Backend.DeviceLimit.Kept.{
  kept, total_kept, Apart, IsDistinct, kept_skip, total_kept_skip, total_kept_congr, kept-le,
}
use native.Mathlib.Decide.{dec_lt}
use text.Mathlib.TextPositions.{eq_refl}

-- The call that cuts a limiter down to `keep` devices.
abbrev pub call_to : Limiter → String → ℕ → KeepDevices
call_to l user keep = record { limiter = l.id; user = user; keep = keep }

-- Either the devices of the first backend fit, or it keeps what remains and the others nothing.
abbrev pub Handed : String → ℕ → Limiter → List Limiter → List KeepDevices → Type 0
Handed user remaining l order calls =
    ((count user l ≤ remaining) × (calls ≡ hand_out user (remaining - count user l) order))
    ⊎ ((remaining < count user l) × (calls ≡ call_to l user remaining ∷ hand_out user 0 order))

pub hand_out_cases :
    (user : String) (remaining : ℕ) (l : Limiter) (order : List Limiter)
    → Handed user remaining l order (hand_out user remaining (l ∷ order))
unfolding hand_out
hand_out_cases user remaining l order = elim (dec_lt remaining (count user l)) [
  | yes h ↦ inr (h, ground arith)
  | no h ↦ inl (omega arith, ground arith)
]

kept-Apart :
    (id : ℕ) (user : String) (remaining n : ℕ) (order : List Limiter)
    → Apart id order
    → kept id user (hand_out user remaining order) n ≡ n
unfolding kept
kept-Apart id user remaining n [] h = unfold hand_out in refl
kept-Apart id user remaining n (m ∷ order) h = elim (hand_out_cases user remaining m order) [
  | inl (_, e) ↦ rw e (kept-Apart id user (remaining - count user m) n order h.1)
  | inr (_, e) ↦
      rw (e, kept_skip id user (call_to m user remaining) (hand_out user 0 order) n h.0)
        (kept-Apart id user 0 n order h.1)
]

-- The backends together keep the whole limit, or all devices if these are fewer.
pub total_kept-hand_out :
    (user : String) (remaining : ℕ) (order : List Limiter)
    → IsDistinct order
    → total_kept user (hand_out user remaining order) order
      ≡ min_keep (total_devices user order) remaining
unfolding total_kept total_devices kept
total_kept-hand_out user remaining [] d = ground arith
total_kept-hand_out user remaining (l ∷ order) d = elim (hand_out_cases user remaining l order) [
  | inl (fits, e) ↦
      subst (λ calls. total_kept user calls (l ∷ order) ≡ whole) (sym e)
        (rw (kept-Apart l.id user (remaining - count user l) (count user l) order d.0)
          (rw (total_kept-hand_out user (remaining - count user l) order d.1) (ground arith)))
  | inr (over, e) ↦
      subst (λ calls. total_kept user calls (l ∷ order) ≡ whole) (sym e)
        (ground (
          arith,
          eq_refl user,
          kept-Apart l.id user 0 remaining order d.0,
          total_kept_skip user (call_to l user remaining) (hand_out user 0 order) order d.0,
          total_kept-hand_out user 0 order d.1,
        ))
]
  where
    whole : ℕ
    whole = min_keep (total_devices user (l ∷ order)) remaining

-- Down the order of priority, a backend keeps all its devices, or those after it keep none.
abbrev pub ByPriority : String → List KeepDevices → List Limiter → Type 0
ByPriority user calls [] = Unit
ByPriority user calls (l ∷ order) =
    ((kept l.id user calls (count user l) ≡ count user l) ⊎ (total_kept user calls order ≡ 0))
    × ByPriority user calls order

ByPriority-skip :
    (user : String) (c : KeepDevices) (calls : List KeepDevices) (order : List Limiter)
    → Apart c.limiter order
    → ByPriority user calls order
    → ByPriority user (c ∷ calls) order
unfolding kept
ByPriority-skip user c calls [] h p = tt
ByPriority-skip user c calls (m ∷ order) h p = (
  ground (arith, total_kept_skip user c calls order h.1),
  ByPriority-skip user c calls order h.1 p.1,
)

pub hand_out-ByPriority :
    (user : String) (remaining : ℕ) (order : List Limiter)
    → IsDistinct order
    → ByPriority user (hand_out user remaining order) order
hand_out-ByPriority user remaining [] d = unfold hand_out in tt
hand_out-ByPriority user remaining (l ∷ order) d = elim (hand_out_cases user remaining l order) [
  | inl (_, e) ↦
      subst (λ calls. ByPriority user calls (l ∷ order)) (sym e)
        (
          inl (kept-Apart l.id user (remaining - count user l) (count user l) order d.0),
          hand_out-ByPriority user (remaining - count user l) order d.1,
        )
  | inr (_, e) ↦
      subst (λ calls. ByPriority user calls (l ∷ order)) (sym e)
        (
          inr (
              total_kept_skip user (call_to l user remaining) (hand_out user 0 order) order d.0
              ∙ (total_kept-hand_out user 0 order d.1 ∙ ground arith)),
          ByPriority-skip user (call_to l user remaining) (hand_out user 0 order) order d.0
              (hand_out-ByPriority user 0 order d.1),
        )
]

-- Calls that leave the same devices keep the same priority.
module _ (user : String) (xs ys : List KeepDevices) where
  module _ (same : (id n : ℕ) → kept id user xs n ≡ kept id user ys n) where
    pub ByPriority-congr :
        (order : List Limiter) → ByPriority user ys order → ByPriority user xs order
    ByPriority-congr [] p = tt
    ByPriority-congr (l ∷ order) p = (
      ground (arith, same l.id (count user l), total_kept_congr user xs ys same order, p.0),
      ByPriority-congr order p.1,
    )

-- Where no call concerns a user, every backend keeps all its devices.
pub ByPriority-none :
    (user : String) (calls : List KeepDevices) (order : List Limiter)
    → total_devices user order ≡ 0
    → ByPriority user calls order
unfolding total_devices
ByPriority-none user calls [] h = tt
ByPriority-none user calls (l ∷ order) h = (
  inl (omega (arith, kept-le l.id user calls (count user l))),
  ByPriority-none user calls order (omega arith),
)

pub ByPriority-nil : (user : String) (order : List Limiter) → ByPriority user [] order
unfolding kept
ByPriority-nil user [] = tt
ByPriority-nil user (l ∷ order) = (inl refl, ByPriority-nil user order)
