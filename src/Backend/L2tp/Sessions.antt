-- ===== src/Backend/L2tp/Sessions.antt =====
-- backend/l2tp/devicelimit.go, shaped.go and enforceDeviceLimits of stats.go: the PPP sessions, and
-- those that are ended. The sessions are what the hooks of pppd recorded, and whether a session
-- can be ended is up to the host: both are parameters. Of sessions that started at one time Go's
-- sort leaves the order open; the model keeps it.
use hpxnode.Prelude.{
  ℕ, ◌%◌, ◌||◌, List, [], ◌∷◌, ◌++◌, String, string_eq, ◌==◌, if◌then◌else◌, ltb, leb, nat_eq,
  length, drop,
}
use hpxnode.Prelude.Int.{ℤ, pos, ltb_ℤ}
use hpxnode.Prelude.Dict.{Dict}
use hpxnode.Backend.RateLimit.Apply.{Client}
use hpxnode.Backend.L2tp.Users.{UserStore, limit_for, speed_limit_for}

pub record Session : Type 0 where
  pub user : String
  pub ifname : String
  pub tunnel_ip : String
  pub client_ip : String
  pub pid : ℤ
  pub started : ℤ

unfoldable pub insert_by_start : Session → List Session → List Session
insert_by_start s [] = s ∷ []
insert_by_start s (t ∷ ts) =
    if ltb_ℤ t.started s.started then t ∷ insert_by_start s ts else s ∷ t ∷ ts

unfoldable pub sort_by_start : List Session → List Session
sort_by_start [] = []
sort_by_start (s ∷ ss) = insert_by_start s (sort_by_start ss)

-- The sessions for which terminateSession is called.
unfoldable pub terminated : List Session → List Session
terminated [] = []
terminated (s ∷ ss) = let rest = terminated ss in if ltb_ℤ (pos 0) s.pid then s ∷ rest else rest

unfoldable pub sessions_of : String → List Session → List Session
sessions_of user [] = []
sessions_of user (s ∷ ss) =
    let rest = sessions_of user ss in if s.user == user then s ∷ rest else rest

-- A negative number is read as 0, which keeps none.
unfoldable pub keep_devices : String → ℕ → List Session → List Session
keep_devices user keep ss =
    let mine = sessions_of user ss in
    if leb (length mine) keep then [] else terminated (drop keep (sort_by_start mine))

unfoldable pub enforce_user : ℕ → List Session → List Session
enforce_user limit mine =
    if nat_eq limit 0 || leb (length mine % 0x100000000) limit
    then []
    else terminated (drop limit (sort_by_start mine))

unfoldable pub enforce_device_limits : UserStore → Dict String (List Session) → List Session
enforce_device_limits store [] = []
enforce_device_limits store ((user, mine) ∷ per_user) =
    enforce_user (limit_for user store) mine ++ enforce_device_limits store per_user

unfoldable pub shaped_clients : UserStore → List Session → List Client
shaped_clients store [] = []
shaped_clients store (s ∷ ss) =
    let rest = shaped_clients store ss in
    let limit = speed_limit_for s.user store in
    if nat_eq limit 0 || s.tunnel_ip == ""
    then rest
    else record { user = s.user; address = s.tunnel_ip; limit_kbps = limit } ∷ rest

unfoldable pub counts_of : {V : Type 0} → Dict String (List V) → Dict String ℕ
counts_of [] = []
counts_of ((user, ips) ∷ online) =
    let rest = counts_of online in if ltb 0 (length ips) then (user, length ips) ∷ rest else rest
