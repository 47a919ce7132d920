-- ===== src/Backend/L2tp/Users.antt =====
-- backend/l2tp/users.go: the users whose credentials pppd checks. The lock is held by each operation
-- from end to end.
use hpxnode.Prelude.{
  ℕ, Bool, false, not, ◌&&◌, ◌||◌, List, [], ◌∷◌, Option, none, some, String, string_eq, ◌==◌,
  if◌then◌else◌, nat_eq, is_some,
}
use hpxnode.Prelude.Dict.{Dict, elem, lookup, insert, delete, keys}
use hpxnode.Backend.OpenVpn.Users.{User, Credentials}

pub record Entry : Type 0 where
  pub password : String
  pub ip_limit : ℕ
  pub speed_limit : ℕ

pub record UserStore : Type 0 where
  pub inbound_tag : String
  pub users : Dict String Entry

unfoldable pub new_user_store : String → UserStore
new_user_store tag = record { inbound_tag = tag; users = [] }

abbrev pub complete : Option Credentials → Option Credentials
complete none = none
complete (some c) = if c.username == "" || c.password == "" then none else some c

-- L2TP takes the credentials of the user's IKEv2 proxy.
unfoldable pub creds_for : User → Option Credentials
creds_for u = complete u.ikev2

-- The credentials, when the user belongs to the interface.
unfoldable pub wants_interface : String → User → Option Credentials
wants_interface tag u = if elem tag u.inbounds then creds_for u else none

abbrev pub entry_of : User → Credentials → Entry
entry_of u c = record { password = c.password; ip_limit = u.ip_limit; speed_limit = u.speed_limit }

abbrev pub add_user : User → Option Credentials → Dict String Entry → Dict String Entry
add_user u none next = next
add_user u (some c) next = insert c.username (entry_of u c) next

unfoldable pub collect_next : String → List User → Dict String Entry → Dict String Entry
collect_next tag [] next = next
collect_next tag (u ∷ us) next = collect_next tag us (add_user u (wants_interface tag u) next)

unfoldable pub departed : Dict String Entry → List String → List String
departed next [] = []
departed next (name ∷ names) =
    let rest = departed next names in if is_some (lookup name next) then rest else name ∷ rest

unfoldable pub replace_all : List User → UserStore → UserStore × List String
replace_all us s =
    let next = collect_next s.inbound_tag us [] in
    (record s { users = next }, departed next (keys s.users))

abbrev pub same_entry : Entry → Option Entry → Bool
same_entry e none = false
same_entry e (some prev) =
    prev.password == e.password
    && (nat_eq prev.ip_limit e.ip_limit && nat_eq prev.speed_limit e.speed_limit)

-- The name, whether the entry is new, and whether one was removed.
pub record Applied : Type 0 where
  pub username : String
  pub changed : Bool
  pub removed : Bool

unfoldable pub apply_wanted : User → Option Credentials → UserStore → UserStore × Applied
apply_wanted u none s =
    if u.email == "" then (s, record { username = ""; changed = false; removed = false }) else (
      record s { users = delete u.email s.users },
      record { username = u.email; changed = false; removed = is_some (lookup u.email s.users) },
    )
apply_wanted u (some c) s = (
  record s { users = insert c.username (entry_of u c) s.users },
  record {
    username = c.username;
    changed = not (same_entry (entry_of u c) (lookup c.username s.users));
    removed = false;
  },
)

unfoldable pub apply_user : User → UserStore → UserStore × Applied
apply_user u s = apply_wanted u (wants_interface s.inbound_tag u) s

unfoldable pub apply_users : List User → UserStore → UserStore
apply_users [] s = s
apply_users (u ∷ us) s = apply_users us (apply_user u s).0

unfoldable pub snapshot : UserStore → Dict String Entry
snapshot s = s.users

abbrev pub ip_limit_or_zero : Option Entry → ℕ
ip_limit_or_zero none = 0
ip_limit_or_zero (some e) = e.ip_limit

abbrev pub speed_limit_or_zero : Option Entry → ℕ
speed_limit_or_zero none = 0
speed_limit_or_zero (some e) = e.speed_limit

unfoldable pub limit_for : String → UserStore → ℕ
limit_for name s = ip_limit_or_zero (lookup name s.users)

-- None when the user is not served.
abbrev pub known_limit : Option Entry → Option ℕ
known_limit none = none
known_limit (some e) = some e.ip_limit

unfoldable pub limit_known : String → UserStore → Option ℕ
limit_known name s = known_limit (lookup name s.users)

unfoldable pub speed_limit_for : String → UserStore → ℕ
speed_limit_for name s = speed_limit_or_zero (lookup name s.users)
