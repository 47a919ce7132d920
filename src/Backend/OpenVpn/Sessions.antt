-- ===== src/Backend/OpenVpn/Sessions.antt =====
-- backend/openvpn/users.go: what the session operations do to each user's live sessions.
use hpxnode.Prelude.{
  ◌%◌, ◌<◌, true, none, String, string_eq, ◌==◌, length, is_some, if◌then◌else◌, arith, Bool-cases,
  ◌≡◌, refl, ap, ◌∙◌, ◌↔◌, inl, inr, ◌⊎◌,
}
use hpxnode.Prelude.Dict.{lookup, insert, lookup-insert, beq_refl}
use text.Mathlib.TextEquality.{eq_iff}
use hpxnode.Backend.OpenVpn.Users.{
  Sessions, UserStore, authorized_locked, live, ip_limit_of, allowed, try_connect,
}

pub live-insert :
    (s : UserStore) (cn other : String) (set : Sessions)
    → live (record s { sessions = insert cn set s.sessions }) other
      ≡ (if cn == other then set else live s other)
unfolding live
live-insert s cn other set = elim (Bool-cases (cn == other)) [
  | inl same ↦ simp (lookup-insert {V = Sessions} cn other, same)
  | inr apart ↦ simp (lookup-insert {V = Sessions} cn other, apart)
]

-- Giving a user the set it has changes no user's sessions.
pub live-ensured :
    (s : UserStore) (cn other : String)
    → live (record s { sessions = insert cn (live s cn) s.sessions }) other ≡ live s other
live-ensured s cn other = elim (Bool-cases (cn == other)) [
  | inl same ↦
      live-insert s cn other (live s cn) ∙ rw same refl ∙ ap (live s) ((eq_iff cn other).0 same)
  | inr apart ↦ live-insert s cn other (live s cn) ∙ rw apart refl
]

-- The client is new, its user's sessions gain it, and the limit has room.
abbrev pub Joins : UserStore → UserStore → String → String → String → Type 0
Joins s t cn cid other =
    ((cn == other) ≡ true)
    × ((live t other ≡ insert cid tt (live s other))
        × ((lookup cid (live s other) ≡ none)
            × ((ip_limit_of s other ≡ 0)
                ⊎ length (live s other) % 0x100000000 < ip_limit_of s other)))

-- A client is allowed exactly when it is authorized and it is counted already, or the user has
-- no limit, or fewer sessions than the limit.
abbrev pub MayConnect : UserStore → String → String → String → String → String → Type 0
MayConnect s cn serial cid username password =
    (authorized_locked s cn serial username password ≡ true)
    × ((is_some (lookup cid (live s cn)) ≡ true)
        ⊎ ((ip_limit_of s cn ≡ 0) ⊎ length (live s cn) % 0x100000000 < ip_limit_of s cn))

-- A client is allowed exactly when it is authorized and it is counted already, or the user has no
-- limit, or the user has fewer sessions (modulo 2^32) than the limit.
pub try_connect_lem :
    (s : UserStore) (cn serial cid username password : String)
    → ((try_connect s cn serial cid username password).1 ≡ allowed)
      ↔ MayConnect s cn serial cid username password
unfolding try_connect
try_connect_lem s cn serial cid username password =
    ground
      (arith, live-insert s cn cn, Bool-cases (authorized_locked s cn serial username password))

-- Each user's sessions either stay or gain the new client.
pub try_connect-live :
    (s : UserStore) (cn serial cid username password other : String)
    → (live (try_connect s cn serial cid username password).0 other ≡ live s other)
      ⊎ Joins s (try_connect s cn serial cid username password).0 cn cid other
unfolding try_connect
try_connect-live s cn serial cid username password other = ground (
  arith,
  live-ensured s cn other,
  live-insert s cn other (insert cid tt (live s cn)),
  eq_iff cn other,
)

-- An allowed client is among its user's live sessions afterwards.
pub try_connect-counted :
    (s : UserStore) (cn serial cid username password : String)
    → (try_connect s cn serial cid username password).1 ≡ allowed
    → is_some (lookup cid (live (try_connect s cn serial cid username password).0 cn)) ≡ true
unfolding try_connect
try_connect-counted s cn serial cid username password h = ground (
  arith,
  h,
  live-ensured s cn cn,
  live-insert s cn cn (insert cid tt (live s cn)),
  lookup-insert {V = Unit {0}} cid cid tt (live s cn),
  beq_refl cn,
  beq_refl cid,
)
