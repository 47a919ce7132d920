-- ===== src/Backend/OpenVpn/Users.antt =====
-- backend/openvpn/users.go: the allowlist that the management client consults. The lock is held by
-- each operation from end to end.
use hpxnode.Prelude.{
  ℕ, ◌%◌, Bool, true, false, not, ◌&&◌, ◌||◌, List, [], ◌∷◌, Option, none, some, String, string_eq,
  ◌==◌, if◌then◌else◌, nat_eq, ltb, leb, length, is_some, drop,
}
use hpxnode.Prelude.Dict.{Dict, lookup, insert, delete, keys}
use hpxnode.Backend.OpenVpn.Serial.{serial_equal}

-- The proxies of a user, and the user, of the panel's messages (common/service.proto).
pub record OpenvpnProxy : Type 0 where
  pub serial : String
  pub fingerprint : String
  pub username : String
  pub password : String

pub record Wireguard : Type 0 where
  pub public_key : String
  pub peer_ips : List String

pub record Credentials : Type 0 where
  pub username : String
  pub password : String

pub record User : Type 0 where
  pub email : String
  pub openvpn : Option OpenvpnProxy
  pub wireguard : Option Wireguard
  pub wg_c : Option Wireguard
  pub amneziawg : Option Wireguard
  pub ikev2 : Option Credentials
  pub pptp : Option Credentials
  pub inbounds : List String
  pub ip_limit : ℕ
  pub speed_limit : ℕ

pub record UserEntry : Type 0 where
  pub serial : String
  pub fingerprint : String
  pub username : String
  pub password : String
  pub ip_limit : ℕ
  pub speed_limit : ℕ

abbrev pub Sessions : Type 0
Sessions = Dict String (Unit {0})

pub record UserStore : Type 0 where
  pub inbound_tag : String
  pub users : Dict String UserEntry
  pub sessions : Dict String Sessions

abbrev pub new_user_store : String → UserStore
new_user_store tag = record { inbound_tag = tag; users = []; sessions = [] }

abbrev pub authorized_entry : Option UserEntry → String → String → String → Bool
authorized_entry none serial username password = false
authorized_entry (some e) serial username password =
    if not (serial_equal e.serial serial)
    then false
    else (if not (e.password == "") then e.username == username && e.password == password else true)

unfoldable pub authorized_locked : UserStore → String → String → String → String → Bool
authorized_locked s common_name serial username password =
    authorized_entry (lookup common_name s.users) serial username password

unfoldable pub authorize : UserStore → String → String → Bool
unfolding authorized_locked
authorize s common_name serial = authorized_locked s common_name serial "" ""

abbrev pub sessions_or_empty : Option Sessions → Sessions
sessions_or_empty none = []
sessions_or_empty (some set) = set

-- The live client ids of a common name; a missing entry of the map reads as an empty set.
unfoldable pub live : UserStore → String → Sessions
live s cn = sessions_or_empty (lookup cn s.sessions)

abbrev pub limit_of_entry : Option UserEntry → ℕ
limit_of_entry none = 0
limit_of_entry (some e) = e.ip_limit

unfoldable pub ip_limit_of : UserStore → String → ℕ
ip_limit_of s cn = limit_of_entry (lookup cn s.users)

pub data Verdict : Type 0 where
  allowed unauthorized device_limit_reached : Verdict

unfoldable pub try_connect :
    UserStore → String → String → String → String → String → UserStore × Verdict
unfolding live ip_limit_of
try_connect s cn serial client_id username password =
    if not (authorized_locked s cn serial username password)
    then (s, unauthorized)
    else (let set = live s cn in
        let ensured = record s { sessions = insert cn set s.sessions } in
        if is_some (lookup client_id set)
        then (ensured, allowed)
        else (if ltb 0 (ip_limit_of s cn) && leb (ip_limit_of s cn) (length set % 0x100000000)
            then (ensured, device_limit_reached)
            else (record s { sessions = insert cn (insert client_id tt set) s.sessions }, allowed)))

-- The ids past the first `kept` ones, which are dropped from the set.
unfoldable pub excess_ids : ℕ → Sessions → List String
excess_ids limit set = keys (drop limit set)

unfoldable pub delete_all : List String → Sessions → Sessions
delete_all [] set = set
delete_all (cid ∷ cids) set = delete_all cids (delete cid set)

abbrev pub store_or_drop : String → Sessions → Dict String Sessions → Dict String Sessions
store_or_drop cn [] sessions = delete cn sessions
store_or_drop cn (c ∷ set) sessions = insert cn (c ∷ set) sessions

unfoldable pub excess_sessions : UserStore → String → UserStore × List String
unfolding live ip_limit_of excess_ids
excess_sessions s cn =
    if nat_eq (ip_limit_of s cn) 0 || leb (length (live s cn) % 0x100000000) (ip_limit_of s cn)
    then (s, [])
    else (let excess = excess_ids (ip_limit_of s cn) (live s cn) in
        (
          record s { sessions = store_or_drop cn (delete_all excess (live s cn)) s.sessions },
          excess,
        ))

abbrev pub release_from :
    String → String → Option Sessions → Dict String Sessions → Dict String Sessions
release_from cn client_id none sessions = sessions
release_from cn client_id (some set) sessions = store_or_drop cn (delete client_id set) sessions

unfoldable pub release_session : UserStore → String → String → UserStore
release_session s cn client_id = record s {
  sessions = release_from cn client_id (lookup cn s.sessions) s.sessions;
}
