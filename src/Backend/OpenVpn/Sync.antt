-- ===== src/Backend/OpenVpn/Sync.antt =====
-- backend/openvpn/users.go: how the panel's users enter and leave the allowlist.
use hpxnode.Prelude.{
  ℕ, Bool, false, not, ◌&&◌, ◌||◌, List, [], ◌∷◌, Option, none, some, String, string_eq, ◌==◌,
  if◌then◌else◌, is_some,
}
use hpxnode.Prelude.Dict.{Dict, elem, lookup, insert, delete, keys}
use hpxnode.Backend.OpenVpn.Users.{OpenvpnProxy, User, UserEntry, Sessions, UserStore}

unfoldable pub wants_interface : UserStore → User → Bool
wants_interface s u = is_some u.openvpn && elem s.inbound_tag u.inbounds

-- The getters of a missing message read as empty strings.
abbrev pub proxy_or_empty : Option OpenvpnProxy → OpenvpnProxy
proxy_or_empty none = record { serial = ""; fingerprint = ""; username = ""; password = "" }
proxy_or_empty (some p) = p

-- The entry that apply_user stores.
unfoldable pub entry_of : User → UserEntry
entry_of u =
    let p = proxy_or_empty u.openvpn in
    record {
      serial = p.serial;
      fingerprint = p.fingerprint;
      username = p.username;
      password = p.password;
      ip_limit = u.ip_limit;
      speed_limit = u.speed_limit;
    }

-- The entry that replace_all stores: the username and the password are left out.
unfoldable pub bare_entry_of : User → UserEntry
bare_entry_of u =
    let p = proxy_or_empty u.openvpn in
    record {
      serial = p.serial;
      fingerprint = p.fingerprint;
      username = "";
      password = "";
      ip_limit = u.ip_limit;
      speed_limit = u.speed_limit;
    }

pub record Applied : Type 0 where
  pub cn : String
  pub changed_serial : Bool
  pub removed : Bool

abbrev pub serial_differs : Option UserEntry → String → Bool
serial_differs none serial = false
serial_differs (some prev) serial = not (prev.serial == serial)

unfoldable pub apply_user : UserStore → User → UserStore × Applied
apply_user s u =
    if u.email == ""
    then (s, record { cn = ""; changed_serial = false; removed = false })
    else (if not (wants_interface s u)
        then (
          record s { users = delete u.email s.users; sessions = delete u.email s.sessions },
          record {
            cn = u.email;
            changed_serial = false;
            removed = is_some (lookup u.email s.users);
          },
        )
        else (
          record s { users = insert u.email (entry_of u) s.users },
          record {
            cn = u.email;
            changed_serial = serial_differs (lookup u.email s.users) (entry_of u).serial;
            removed = false;
          },
        ))

-- The new map of replace_all.
unfoldable pub collect_next : UserStore → List User → Dict String UserEntry → Dict String UserEntry
collect_next s [] next = next
collect_next s (u ∷ us) next = collect_next s us (
    if not (wants_interface s u) || u.email == ""
    then next
    else insert u.email (bare_entry_of u) next)

-- The names of the old map that the new one lacks.
unfoldable pub departed : Dict String UserEntry → List String → List String
departed next [] = []
departed next (cn ∷ cns) =
    let rest = departed next cns in if is_some (lookup cn next) then rest else cn ∷ rest

unfoldable pub drop_sessions : List String → Dict String Sessions → Dict String Sessions
drop_sessions [] sessions = sessions
drop_sessions (cn ∷ cns) sessions = drop_sessions cns (delete cn sessions)

unfoldable pub replace_all : UserStore → List User → UserStore × List String
replace_all s us =
    let next = collect_next s us [] in
    let removed = departed next (keys s.users) in
    (record s { users = next; sessions = drop_sessions removed s.sessions }, removed)

unfoldable pub common_names : UserStore → List String
common_names s = keys s.users

unfoldable pub has : UserStore → String → Bool
has s cn = is_some (lookup cn s.users)

abbrev pub speed_limit_of_entry : Option UserEntry → ℕ
speed_limit_of_entry none = 0
speed_limit_of_entry (some e) = e.speed_limit

unfoldable pub speed_limit_for : UserStore → String → ℕ
speed_limit_for s cn = speed_limit_of_entry (lookup cn s.users)
