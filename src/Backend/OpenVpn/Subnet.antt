-- ===== src/Backend/OpenVpn/Subnet.antt =====
-- backend/openvpn/listeners.go: splitting a server subnet into one block for each listener. The
-- text of a subnet is parsed and printed by net/netip; the model takes the parsed prefix, of a
-- 32-bit address and a length.
use hpxnode.Prelude.{
  ℕ, zero, suc, ◌+◌, ◌-◌, ◌*◌, ◌/◌, ◌%◌, ◌^◌, Option, none, some, if◌then◌else◌, ltb, leb,
}

pub record Prefix : Type 0 where
  pub addr : ℕ
  pub len : ℕ

-- bits.Len: how often a number is halved before it is zero. A machine integer has 64 bits.
unfoldable pub bits_len : ℕ → ℕ → ℕ
bits_len zero n = 0
bits_len (suc fuel) n = let rest = bits_len fuel (n / 2) in if leb n 0 then 0 else rest + 1

unfoldable pub bits_needed : ℕ → ℕ
bits_needed n = if leb n 1 then 0 else bits_len 64 (n - 1)

-- Prefix.Masked: the host bits are cleared.
unfoldable pub masked : Prefix → ℕ
masked p = p.addr / 2 ^ (32 - p.len) * 2 ^ (32 - p.len)

-- The address of a block: uint32 arithmetic.
unfoldable pub block_start : Prefix → ℕ → ℕ → ℕ
block_start p len index = (masked p + 2 ^ (32 - len) * index % 0x100000000) % 0x100000000

unfoldable pub split_subnet : Prefix → ℕ → ℕ → Option Prefix
split_subnet p index total =
    if leb total 1
    then some p
    else (if ltb 24 (p.len + bits_needed total)
        then none
        else some (record {
          addr = block_start p (p.len + bits_needed total) index;
          len = p.len + bits_needed total;
        }))
