-- ===== src/Backend/OpenVpn/Invariant.antt =====
-- backend/openvpn/users.go: the names with sessions, over sequences of operations.
use hpxnode.Prelude.{true, List, [], ◌∷◌, String, string_eq, is_some, arith, ◌≡◌}
use hpxnode.Prelude.Dict.{Dict, lookup, insert, delete, lookup-insert, lookup-delete}
use text.Mathlib.TextEquality.{eq_iff}
use hpxnode.Backend.OpenVpn.Users.{
  UserEntry, User, Sessions, UserStore, authorized_locked, live, ip_limit_of, try_connect,
  excess_ids, delete_all, store_or_drop, excess_sessions, release_session,
}
use hpxnode.Backend.OpenVpn.Sync.{entry_of, apply_user, replace_all, has}
use hpxnode.Backend.OpenVpn.Allowlist.{replace_all_lem}

-- A session entry stands only under a name of the allowlist.
abbrev pub IsKnown : UserStore → String → Type 0
IsKnown s cn = is_some (lookup cn s.sessions) ≡ true → is_some (lookup cn s.users) ≡ true

-- The operations of the store, one call each.
pub data Call : Type 0 where
  connecting : String → String → String → String → String → Call
  trimming : String → Call
  leaving : String → String → Call
  applying : User → Call
  replacing : List User → Call

unfoldable pub after : UserStore → Call → UserStore
after s (connecting cn serial cid username password) =
    (try_connect s cn serial cid username password).0
after s (trimming cn) = (excess_sessions s cn).0
after s (leaving cn cid) = release_session s cn cid
after s (applying u) = (apply_user s u).0
after s (replacing us) = (replace_all s us).0

unfoldable pub after_all : UserStore → List Call → UserStore
after_all s [] = s
after_all s (c ∷ cs) = after_all (after s c) cs

authorized-known :
    (s : UserStore) (cn serial username password : String)
    → authorized_locked s cn serial username password ≡ true
    → is_some (lookup cn s.users) ≡ true
unfolding authorized_locked
authorized-known s cn serial username password h = ground (arith, h)

try_connect-IsKnown :
    (s : UserStore) (cn serial cid username password other : String)
    → IsKnown s other
    → IsKnown (try_connect s cn serial cid username password).0 other
unfolding try_connect
try_connect-IsKnown s cn serial cid username password other known = ground (
  arith,
  known,
  authorized-known s cn serial username password,
  eq_iff cn other,
  lookup-insert {V = Sessions} cn other (live s cn) s.sessions,
  lookup-insert {V = Sessions} cn other (insert cid tt (live s cn)) s.sessions,
)

lookup-store_or_drop :
    (cn other : String) (set : Sessions) (sessions : Dict String Sessions)
    → is_some (lookup cn sessions) ≡ true
    → is_some (lookup other (store_or_drop cn set sessions)) ≡ true
    → is_some (lookup other sessions) ≡ true
lookup-store_or_drop cn other [] sessions h =
    ground (arith, lookup-delete {V = Sessions} cn other sessions)
lookup-store_or_drop cn other (c ∷ set) sessions h =
    ground (arith, h, eq_iff cn other, lookup-insert {V = Sessions} cn other (c ∷ set) sessions)

excess_sessions-IsKnown :
    (s : UserStore) (cn other : String) → IsKnown s other → IsKnown (excess_sessions s cn).0 other
unfolding excess_sessions live
excess_sessions-IsKnown s cn other known = ground (
  arith,
  known,
  lookup-store_or_drop cn other (delete_all (excess_ids (ip_limit_of s cn) (live s cn)) (live s cn))
      s.sessions,
)

release_session-IsKnown :
    (s : UserStore) (cn cid other : String)
    → IsKnown s other
    → IsKnown (release_session s cn cid) other
unfolding release_session live
release_session-IsKnown s cn cid other known =
    ground (arith, known, lookup-store_or_drop cn other (delete cid (live s cn)) s.sessions)

apply_user-IsKnown :
    (s : UserStore) (u : User) (other : String) → IsKnown s other → IsKnown (apply_user s u).0 other
unfolding apply_user
apply_user-IsKnown s u other known = ground (
  arith,
  known,
  lookup-insert {V = UserEntry} u.email other (entry_of u) s.users,
  lookup-delete {V = UserEntry} u.email other s.users,
  lookup-delete {V = Sessions} u.email other s.sessions,
)

replace_all-IsKnown :
    (s : UserStore) (us : List User) (other : String)
    → IsKnown s other
    → IsKnown (replace_all s us).0 other
unfolding has
replace_all-IsKnown s us other known = ground (arith, known, replace_all_lem s us other)

after-IsKnown :
    (s : UserStore) (c : Call) (other : String) → IsKnown s other → IsKnown (after s c) other
unfolding after
after-IsKnown s (connecting cn serial cid username password) other known =
    try_connect-IsKnown s cn serial cid username password other known
after-IsKnown s (trimming cn) other known = excess_sessions-IsKnown s cn other known
after-IsKnown s (leaving cn cid) other known = release_session-IsKnown s cn cid other known
after-IsKnown s (applying u) other known = apply_user-IsKnown s u other known
after-IsKnown s (replacing us) other known = replace_all-IsKnown s us other known

-- After any sequence of connections, disconnections, trimmings, applied users and replaced lists,
-- a name has sessions only if it is a user's, provided that this held at the start.
pub after_all-IsKnown :
    (cs : List Call) (s : UserStore) (other : String)
    → IsKnown s other
    → IsKnown (after_all s cs) other
unfolding after_all
after_all-IsKnown [] s other known = known
after_all-IsKnown (c ∷ cs) s other known =
    after_all-IsKnown cs (after s c) other (after-IsKnown s c other known)
