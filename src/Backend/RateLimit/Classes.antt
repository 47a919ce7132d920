-- ===== src/Backend/RateLimit/Classes.antt =====
-- backend/ratelimit/apply.go: the tc classes and filter marks of clients and directions.
use Prim.Native.Nat.{bit_and, bit_or}
use hpxnode.Prelude.{
  ℕ, suc, zero, ◌+◌, ◌*◌, ◌≤◌, ◌<◌, ◌≡◌, ◌↔◌, refl, Bool, true, ◌&&◌, nat_eq, nat_eq_iff, arith,
}
use hpxnode.Backend.RateLimit.Marks.{
  Direction, download, upload, first_mark, max_clients, class_minor, mark_value,
}

all_below : ℕ → (ℕ → Bool) → Bool
all_below zero p = true
all_below (suc n) p = p n && all_below n p

all_below-lookup : (n : ℕ) (p : ℕ → Bool) (x : ℕ) → all_below n p ≡ true → x < n → p x ≡ true
unfolding all_below
all_below-lookup zero p x h lt = absurd (omega arith)
all_below-lookup (suc n) p x h lt = ground (arith, all_below-lookup n p x)

low_bits_table : all_below 254 (λ i. nat_eq (bit_and (first_mark + i) 0xffff) i) ≡ true
unfolding all_below
low_bits_table = refl

upload_table :
    all_below 254 (λ i. nat_eq (bit_or (first_mark + i) 0x8000) (first_mark + i + 0x8000)) ≡ true
unfolding all_below
upload_table = refl

low_bits : (i : ℕ) → i < 254 → bit_and (first_mark + i) 0xffff ≡ i
low_bits i h =
    (nat_eq_iff (bit_and (first_mark + i) 0xffff) i).0
      (all_below-lookup 254 (λ j. nat_eq (bit_and (first_mark + j) 0xffff) j) i low_bits_table h)

upload_bit : (i : ℕ) → i < 254 → bit_or (first_mark + i) 0x8000 ≡ first_mark + i + 0x8000
upload_bit i h = (nat_eq_iff (bit_or (first_mark + i) 0x8000) (first_mark + i + 0x8000)).0 (
    all_below-lookup 254 (λ j. nat_eq (bit_or (first_mark + j) 0x8000) (first_mark + j + 0x8000)) i
      upload_table h)

abbrev direction_bit : Direction → ℕ
direction_bit download = 0
direction_bit upload = 1

class_minor_lem :
    (i : ℕ) (d : Direction)
    → i < max_clients
    → class_minor (first_mark + i) d ≡ (i + 1) * 2 + direction_bit d
unfolding class_minor
class_minor_lem i download h = rw (low_bits i h) (omega arith)
class_minor_lem i upload h = rw (low_bits i h) (omega arith)

mark_value_lem :
    (i : ℕ) (d : Direction)
    → i < max_clients
    → mark_value (first_mark + i) d ≡ first_mark + i + 0x8000 * direction_bit d
unfolding mark_value
mark_value_lem i download h = omega arith
mark_value_lem i upload h = rw (upload_bit i h) (omega arith)

-- For the 254 marks that the manager hands out: two classes have one minor number only for one
-- mark and direction, two filters have one mark only for one mark and direction, and no class has
-- the minor number 0 of the root or 1 of the default class.
pub classes_distinct :
    (i j : ℕ) (d e : Direction)
    → i < max_clients
    → j < max_clients
    → ((class_minor (first_mark + i) d ≡ class_minor (first_mark + j) e) ↔ ((i ≡ j) × (d ≡ e)))
      × ((mark_value (first_mark + i) d ≡ mark_value (first_mark + j) e) ↔ ((i ≡ j) × (d ≡ e)))
      × (2 ≤ class_minor (first_mark + i) d)
classes_distinct i j d e hi hj = (
  (λ h. ground (arith, h, class_minor_lem i d hi, class_minor_lem j e hj), λ h. rw (h.0, h.1)),
  (λ h. ground (arith, h, mark_value_lem i d hi, mark_value_lem j e hj), λ h. rw (h.0, h.1)),
  omega (arith, class_minor_lem i d hi),
)
