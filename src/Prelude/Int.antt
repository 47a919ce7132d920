-- ===== src/Prelude/Int.antt =====
-- Signed integers over the native numbers, and Go's int64, whose results wrap to 64 bits.
use Prim.Native.Nat.{ℕ, suc, ◌+◌, ◌-◌, ◌%◌, ◌≤◌, ◌<◌}
use mathlib.Core.Path.{◌≡◌, refl}
use mathlib.Core.Logic.{◌⊎◌, inl, inr}
use mathlib.Core.Bool.{Bool, ◌&&◌}
use native.Mathlib.Omega.{arith}
use hpxnode.Prelude.Tests.{ltb, leb, nat_eq, if◌then◌else◌}

-- `negsuc n` is -(n + 1).
pub data ℤ : Type 0 where
  pos : ℕ → ℤ
  negsuc : ℕ → ℤ

abbrev pub pos_part : ℤ → ℕ
pos_part (pos n) = n
pos_part (negsuc n) = 0

abbrev pub neg_part : ℤ → ℕ
neg_part (pos n) = 0
neg_part (negsuc n) = suc n

-- a - b, as an integer.
abbrev pub sub_ℕ : ℕ → ℕ → ℤ
sub_ℕ a b = if leb b a then pos (a - b) else negsuc (b - a - 1)

infix 50 ◌≤ℤ◌
abbrev pub ◌≤ℤ◌ : ℤ → ℤ → Type 0
a ≤ℤ b = pos_part a + neg_part b ≤ pos_part b + neg_part a

abbrev pub ltb_ℤ : ℤ → ℤ → Bool
ltb_ℤ a b = ltb (pos_part a + neg_part b) (pos_part b + neg_part a)

abbrev pub eq_ℤ : ℤ → ℤ → Bool
eq_ℤ a b = nat_eq (pos_part a) (pos_part b) && nat_eq (neg_part a) (neg_part b)

-- The int64 with the low 64 bits of an integer.
abbrev pub wrap64 : ℤ → ℤ
wrap64 (pos n) =
    let p : ℕ = n % 0x10000000000000000 in
    if ltb p 0x8000000000000000 then pos p else negsuc (0xffffffffffffffff - p)
wrap64 (negsuc n) =
    let p : ℕ = n % 0x10000000000000000 in
    if ltb p 0x8000000000000000 then negsuc p else pos (0xffffffffffffffff - p)

-- int64 subtraction and addition.
unfoldable pub sub64 : ℤ → ℤ → ℤ
sub64 a b = wrap64 (sub_ℕ (pos_part a + neg_part b) (neg_part a + pos_part b))

unfoldable pub add64 : ℤ → ℤ → ℤ
add64 a b = wrap64 (sub_ℕ (pos_part a + pos_part b) (neg_part a + neg_part b))

-- The integers that an int64 holds.
abbrev pub Fits64 : ℤ → Type 0
Fits64 a = (pos_part a < 0x8000000000000000) × (neg_part a ≤ 0x8000000000000000)

wrap64_parts :
    (m n : ℕ)
    → m < n + 0x8000000000000000
    → n ≤ m + 0x8000000000000000
    → pos_part (wrap64 (sub_ℕ m n)) + n ≡ neg_part (wrap64 (sub_ℕ m n)) + m
wrap64_parts m n h k = ground arith

-- An int64 difference that fits is the integers' difference.
pub sub64_parts :
    (a b : ℤ)
    → pos_part a + neg_part b < neg_part a + pos_part b + 0x8000000000000000
    → neg_part a + pos_part b ≤ pos_part a + neg_part b + 0x8000000000000000
    → pos_part (sub64 a b) + (neg_part a + pos_part b)
      ≡ neg_part (sub64 a b) + (pos_part a + neg_part b)
unfolding sub64
sub64_parts a b h k = wrap64_parts (pos_part a + neg_part b) (neg_part a + pos_part b) h k

pub add64_parts :
    (a b : ℤ)
    → pos_part a + pos_part b < neg_part a + neg_part b + 0x8000000000000000
    → neg_part a + neg_part b ≤ pos_part a + pos_part b + 0x8000000000000000
    → pos_part (add64 a b) + (neg_part a + neg_part b)
      ≡ neg_part (add64 a b) + (pos_part a + pos_part b)
unfolding add64
add64_parts a b h k = wrap64_parts (pos_part a + pos_part b) (neg_part a + neg_part b) h k

-- One of the two parts of an integer is 0.
pub parts_disjoint : (a : ℤ) → (pos_part a ≡ 0) ⊎ (neg_part a ≡ 0)
parts_disjoint (pos n) = inr refl
parts_disjoint (negsuc n) = inl refl

pub eq_of_parts : (a b : ℤ) → pos_part a + neg_part b ≡ pos_part b + neg_part a → a ≡ b
eq_of_parts a b h = ground arith
