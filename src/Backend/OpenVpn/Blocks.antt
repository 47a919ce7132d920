-- ===== src/Backend/OpenVpn/Blocks.antt =====
-- backend/openvpn/listeners.go: where the blocks of a subnet stand.
use hpxnode.Prelude.{
  ℕ, zero, suc, ◌+◌, ◌-◌, ◌*◌, ◌/◌, ◌^◌, ◌≤◌, ◌<◌, some, arith, ◌≡◌, sym, ap, ◌∙◌,
}
use native.Mathlib.Nat.{
  pow-succ', pow-suc, mul-le-mul_left, mul-le-mul_right, mul_assoc, mul-one, mul-suc, suc-mul,
  add-zero, add-suc, div-lt_iff_lt-mul,
}
use hpxnode.Backend.OpenVpn.Subnet.{
  Prefix, bits_len, bits_needed, masked, block_start, split_subnet,
}

-- The length in bits of a number is enough for it.
pub bits_len-enough : (fuel n : ℕ) → n < 2 ^ fuel → n < 2 ^ bits_len fuel n
unfolding bits_len
bits_len-enough zero n h = h
bits_len-enough (suc fuel) n h =
    ground (
      arith,
      bits_len-enough fuel (n / 2),
      pow-succ' 2 fuel,
      h,
      pow-succ' 2 (bits_len fuel (n / 2)),
    )

pow_add : (a b : ℕ) → 2 ^ (a + b) ≡ 2 ^ a * 2 ^ b
pow_add a zero = ap (λ x. 2 ^ x) (add-zero a) ∙ sym (mul-one (2 ^ a))
pow_add a (suc b) =
    ap (λ x. 2 ^ x) (add-suc a b)
    ∙ pow-suc 2 (a + b)
    ∙ ap (λ x. x * 2) (pow_add a b)
    ∙ mul_assoc (2 ^ a) (2 ^ b) 2
    ∙ ap (λ x. 2 ^ a * x) (sym (pow-suc 2 b))

pow_positive : (a : ℕ) → 0 < 2 ^ a
pow_positive zero = omega arith
pow_positive (suc a) = omega (arith, pow-succ' 2 a, pow_positive a)

block_le : (b e i : ℕ) → i < e → b * i + b ≤ b * e
block_le b e i h = omega (arith, mul-le-mul_left b h, mul-suc b i)

div_block : (h n a : ℕ) → 0 < h → a < n * h → a / h * h + h ≤ n * h
div_block h n a positive l = omega (
  arith,
  suc-mul (a / h) h,
  mul-le-mul_right h ((div-lt_iff_lt-mul {k = h} {x = a} {y = n} positive).1 l),
)

-- The subnet stands in the space of the 32-bit addresses.
masked_le :
    (p : Prefix) → p.addr < 0x100000000 → p.len ≤ 32 → masked p + 2 ^ (32 - p.len) ≤ 0x100000000
unfolding masked
masked_le p small len =
    let total : p.len + (32 - p.len) ≡ 32 = omega (arith, len) in
    let whole : 2 ^ p.len * 2 ^ (32 - p.len) ≡ 2 ^ 32 =
      sym (pow_add p.len (32 - p.len)) ∙ ap (λ x. 2 ^ x) total in
    omega (
      arith,
      div_block (2 ^ (32 - p.len)) (2 ^ p.len) p.addr (pow_positive (32 - p.len))
          (omega (arith, small, whole)),
      whole,
    )

bits_needed-enough : (total : ℕ) → 2 ≤ total → total ≤ 2 ^ 63 → total ≤ 2 ^ bits_needed total
unfolding bits_needed
bits_needed-enough total many small =
    ground (arith, bits_len-enough 64 (total - 1) (omega (arith, small)))

-- A block lies in the subnet, and its start is counted without wrapping.
pub block_start-fits :
    (p : Prefix) (extra index : ℕ)
    → p.addr < 0x100000000
    → p.len + extra ≤ 24
    → index < 2 ^ extra
    → (block_start p (p.len + extra) index ≡ masked p + 2 ^ (32 - (p.len + extra)) * index)
      × (masked p + 2 ^ (32 - (p.len + extra)) * index + 2 ^ (32 - (p.len + extra))
          ≤ masked p + 2 ^ (32 - p.len))
unfolding block_start
block_start-fits p extra index small len inside =
    let size = 2 ^ (32 - (p.len + extra)) in
    let parts : 32 - (p.len + extra) + extra ≡ 32 - p.len = omega (arith, len) in
    let whole : size * 2 ^ extra ≡ 2 ^ (32 - p.len) =
      sym (pow_add (32 - (p.len + extra)) extra) ∙ ap (λ x. 2 ^ x) parts in
    let fits = block_le size (2 ^ extra) index inside in
    let bound = masked_le p small (omega (arith, len)) in
    (
      omega (arith, fits, whole, bound, pow_positive (32 - (p.len + extra))),
      omega (arith, fits, whole),
    )

-- Each of the blocks that a subnet of 32-bit addresses is split into, for 2 to 2^63 listeners, has
-- the length of the subnet and the bits that count the listeners, stands at its own multiple of
-- the size of a block, and lies in the subnet, so that no address wraps.
pub split_subnet_lem :
    (p q : Prefix) (index total : ℕ)
    → p.addr < 0x100000000
    → 2 ≤ total
    → total ≤ 2 ^ 63
    → index < total
    → split_subnet p index total ≡ some q
    → ((q.len ≡ p.len + bits_needed total) × (q.addr ≡ masked p + 2 ^ (32 - q.len) * index))
      × (q.addr + 2 ^ (32 - q.len) ≤ masked p + 2 ^ (32 - p.len))
unfolding split_subnet
split_subnet_lem p q index total small many top inside h = ground (
  arith,
  h,
  block_start-fits p (bits_needed total) index small,
  bits_needed-enough total many top,
)

-- Of the blocks that a subnet of 32-bit addresses is split into for at most 2^63 listeners, the
-- block of an earlier listener ends before that of a later one begins.
pub split_subnet-apart :
    (p q r : Prefix) (i j total : ℕ)
    → p.addr < 0x100000000
    → total ≤ 2 ^ 63
    → i < j
    → j < total
    → split_subnet p i total ≡ some q
    → split_subnet p j total ≡ some r
    → q.addr + 2 ^ (32 - q.len) ≤ r.addr
split_subnet-apart p q r i j total small top before inside first second =
    let many : 2 ≤ total = omega (arith, before, inside) in
    let left = split_subnet_lem p q i total small many top (omega (arith, before, inside)) first in
    let right = split_subnet_lem p r j total small many top inside second in
    let place = ap (λ x. 2 ^ (32 - x) * j) (right.0.0 ∙ sym left.0.0) in
    omega (arith, left.0.1, right.0.1, place, block_le (2 ^ (32 - q.len)) j i before)
