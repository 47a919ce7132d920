-- ===== src/Backend/OpenVpn/Excess.antt =====
-- backend/openvpn/users.go: a user's sessions beside its limit.
use hpxnode.Prelude.{
  ℕ, zero, suc, ◌+◌, ◌≤◌, ◌<◌, false, List, [], ◌∷◌, none, String, string_eq, ◌==◌, length,
  if◌then◌else◌, take, drop, arith, Bool-cases, ◌≡◌, refl, ap, ◌∙◌, inl, inr, ◌⊎◌, All,
}
use hpxnode.Prelude.Dict.{
  lookup, insert, delete, keys, IsDict, keys_apart, lookup-insert, lookup-delete, delete_absent,
  beq_refl,
}
use text.Mathlib.TextEquality.{eq_iff}
use hpxnode.Backend.OpenVpn.Users.{
  Sessions, UserStore, live, ip_limit_of, try_connect, excess_ids, delete_all, store_or_drop,
  excess_sessions,
}
use hpxnode.Backend.OpenVpn.Sessions.{try_connect-live}

-- A key that is deleted nowhere keeps its place.
delete_all-apart :
    (k : String) (v : Unit {0}) (ks : List String) (m : Sessions)
    → All (λ j. (j == k) ≡ false) ks
    → delete_all ks ((k, v) ∷ m) ≡ (k, v) ∷ delete_all ks m
unfolding delete_all delete
delete_all-apart k v [] m apart = refl
delete_all-apart k v (j ∷ ks) m apart =
    ground (arith, delete_all-apart k v ks (delete j m) apart.1, eq_iff k j, eq_iff j k)

lookup-drop : (k : String) (n : ℕ) (m : Sessions) → lookup k m ≡ none → lookup k (drop n m) ≡ none
unfolding lookup
lookup-drop k zero m h = h
lookup-drop k (suc n) [] h = refl
lookup-drop k (suc n) ((j, w) ∷ m) h = ground (arith, lookup-drop k n m)

delete_all-keys : (m : Sessions) → IsDict m → delete_all (keys m) m ≡ []
unfolding delete_all delete
delete_all-keys [] d = refl
delete_all-keys ((k, v) ∷ m) d =
    ground (arith, beq_refl k, delete_absent k m d.0, delete_all-keys m d.1)

-- Deleting the keys past the first n entries of a map leaves these entries.
pub delete_all-drop : (n : ℕ) (m : Sessions) → IsDict m → delete_all (keys (drop n m)) m ≡ take n m
unfolding delete_all
delete_all-drop zero m d = delete_all-keys m d
delete_all-drop (suc n) [] d = refl
delete_all-drop (suc n) ((k, v) ∷ m) d =
    delete_all-apart k v (keys (drop n m)) m (keys_apart k (drop n m) (lookup-drop k n m d.0))
    ∙ ap (λ l. (k, v) ∷ l) (delete_all-drop n m d.1)

pub live-store_or_drop :
    (s : UserStore) (cn other : String) (set : Sessions)
    → live (record s { sessions = store_or_drop cn set s.sessions }) other
      ≡ (if cn == other then set else live s other)
unfolding live
live-store_or_drop s cn other [] = elim (Bool-cases (cn == other)) [
  | inl same ↦ simp (lookup-delete {V = Sessions} cn other, same)
  | inr apart ↦ simp (lookup-delete {V = Sessions} cn other, apart)
]
live-store_or_drop s cn other (c ∷ set) = elim (Bool-cases (cn == other)) [
  | inl same ↦ simp (lookup-insert {V = Sessions} cn other, same)
  | inr apart ↦ simp (lookup-insert {V = Sessions} cn other, apart)
]

-- A user is within its limit.
abbrev pub IsWithin : UserStore → String → Type 0
IsWithin s cn = (ip_limit_of s cn ≡ 0) ⊎ length (live s cn) ≤ ip_limit_of s cn

pub try_connect-limit :
    (s : UserStore) (cn serial cid username password other : String)
    → ip_limit_of (try_connect s cn serial cid username password).0 other ≡ ip_limit_of s other
unfolding try_connect ip_limit_of
try_connect-limit s cn serial cid username password other = ground arith

length-joined : (cid : String) (set : Sessions) → length (insert cid tt set) ≤ length set + 1
unfolding insert
length-joined cid [] = omega arith
length-joined cid ((j, w) ∷ set) = ground (arith, length-joined cid set)

-- A connection attempt takes no user over its limit, whoever connects: a user that has no limit,
-- or no more live sessions than the limit (below 2^32), is in the same position afterwards.
pub try_connect-IsWithin :
    (s : UserStore) (cn serial cid username password other : String)
    → ip_limit_of s other < 0x100000000
    → IsWithin s other
    → IsWithin (try_connect s cn serial cid username password).0 other
try_connect-IsWithin s cn serial cid username password other bound w = ground (
  arith,
  w,
  try_connect-limit s cn serial cid username password other,
  try_connect-live s cn serial cid username password other,
  length-joined cid (live s other),
)

take_all : (n : ℕ) (m : Sessions) → length m ≤ n → take n m ≡ m
take_all zero [] h = refl
take_all zero (x ∷ m) h = absurd (omega (arith, h))
take_all (suc n) [] h = refl
take_all (suc n) (x ∷ m) h = ap (λ l. x ∷ l) (take_all n m (omega (arith, h)))

drop_all : (n : ℕ) (m : Sessions) → length m ≤ n → drop n m ≡ []
drop_all zero [] h = refl
drop_all zero (x ∷ m) h = absurd (omega (arith, h))
drop_all (suc n) [] h = refl
drop_all (suc n) (x ∷ m) h = drop_all n m (omega (arith, h))

-- Trimming a user with a limit, whose sessions are distinct and fewer than 2^32, leaves the user's
-- first sessions up to the limit and returns the ids of all others; the other users' sessions
-- stay.
pub excess_sessions-live :
    (s : UserStore) (cn other : String)
    → IsDict (live s cn)
    → length (live s cn) < 0x100000000
    → 0 < ip_limit_of s cn
    → (live (excess_sessions s cn).0 other
        ≡ (if cn == other then take (ip_limit_of s cn) (live s cn) else live s other))
      × ((excess_sessions s cn).1 ≡ keys (drop (ip_limit_of s cn) (live s cn)))
unfolding excess_sessions excess_ids
excess_sessions-live s cn other d small positive = ground (
  arith,
  live-store_or_drop s cn other
      (delete_all (keys (drop (ip_limit_of s cn) (live s cn))) (live s cn)),
  delete_all-drop (ip_limit_of s cn) (live s cn) d,
  take_all (ip_limit_of s cn) (live s cn),
  drop_all (ip_limit_of s cn) (live s cn),
  eq_iff cn other,
)
