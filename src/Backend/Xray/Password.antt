-- ===== src/Backend/Xray/Password.antt =====
-- common/helper.go: the keys of Shadowsocks 2022.
use hpxnode.Prelude.{
  Bool, true, ◌&&◌, ◌||◌, some, String, arith, ◌≡◌, refl, ◌∙◌, Bool-cases, inl, inr,
}
use hpxnode.Backend.Xray.Accounts.{Codec, holds, fits, ensure_base64_password}

-- What base64 makes of a digest's first bytes stands for as many bytes.
abbrev pub HasLengths : Codec → Type 0
HasLengths c =
    (password : String)
    → (c.decoded_len (c.digest 16 password) ≡ some 16)
      × (c.decoded_len (c.digest 32 password) ≡ some 32)

-- The method names a cipher whose key length is known.
abbrev pub has_length : String → Bool
has_length method =
    holds "aes-128-gcm" method || (holds "aes-256-gcm" method || holds "chacha20-poly1305" method)

fitting :
    (c : Codec) (password method : String)
    → fits method (c.decoded_len password) ≡ true
    → ensure_base64_password c password method ≡ password
unfolding ensure_base64_password
fitting c password method h = rw h refl

and_true : (b : Bool) → (b && true) ≡ b
and_true b = ground arith

ensured-fits :
    (c : Codec) (password method : String)
    → HasLengths c
    → has_length method ≡ true
    → fits method (c.decoded_len (ensure_base64_password c password method)) ≡ true
unfolding ensure_base64_password
ensured-fits c password method lengths known =
    elim (Bool-cases (fits method (c.decoded_len password))) [
      | inl fit ↦ rw fit fit
      | inr unfit ↦ rw unfit (elim (Bool-cases (holds "aes-128-gcm" method)) [
        | inl short ↦ rw (short, (lengths password).0, short) (ground arith)
        | inr long ↦ rw (long, (lengths password).1, long) (and_true _ ∙ rw long at known)
      ])
    ]

-- When base64 keeps lengths and the method names a known cipher, a key that EnsureBase64Password made
-- is left as it is by a second call.
pub ensure_base64_password-idempotent :
    (c : Codec) (password method : String)
    → HasLengths c
    → has_length method ≡ true
    → ensure_base64_password c (ensure_base64_password c password method) method
      ≡ ensure_base64_password c password method
ensure_base64_password-idempotent c password method lengths known =
    fitting c (ensure_base64_password c password method) method
      (ensured-fits c password method lengths known)
