-- ===== src/Backend/WireGuard/IpLimit.antt =====
-- backend/wireguard/iplimit.go: the device limit of WireGuard users, by the endpoints that were seen
-- of late. Times and durations are nanoseconds. What the kernel and the peer store answer on a user
-- is a parameter: whether the user has a peer, and whether removing or adding it works. Log lines
-- are left out. The source releases limitMu between the decisions and each change: the model is a
-- pass into which no other operation falls.
use hpxnode.Prelude.{
  ℕ, ◌+◌, ◌-◌, ◌%◌, Bool, ◌&&◌, List, [], ◌∷◌, ◌++◌, Option, none, some, String, string_eq, ◌==◌,
  if◌then◌else◌, ltb, leb, nat_eq, length,
}
use hpxnode.Prelude.Dict.{Dict, lookup, insert, delete, keys}
use hpxnode.Backend.OpenVpn.Users.{User}
use hpxnode.Backend.RateLimit.Apply.{Client}
use hpxnode.Backend.WireGuard.PeerStore.{IpNet, PeerInfo, PeerStore, get_all}

abbrev pub wg_ip_window : ℕ
wg_ip_window = 120000000000

abbrev pub wg_ip_limit_cooldown : ℕ
wg_ip_limit_cooldown = 60000000000

abbrev pub wg_ip_limit_strikes : ℕ
wg_ip_limit_strikes = 2

abbrev pub Window : Type 0
Window = Dict String ℕ

-- The fields of the backend that limitMu guards.
pub record Limits : Type 0 where
  pub user_limits : Dict String ℕ
  pub user_speed : Dict String ℕ
  pub kicked : Dict String ℕ
  pub ip_window : Dict String Window
  pub over_strikes : Dict String ℕ

pub record Host : Type 0 where
  pub has_peer : String → Bool
  pub removes : String → Bool
  pub readmits : String → Bool

pub data Action : Type 0 where
  kick : ℕ → ℕ → Action
  readmit : Action

unfoldable pub replace_limits :
    List User → Dict String ℕ → Dict String ℕ → Dict String ℕ × Dict String ℕ
replace_limits [] next speed = (next, speed)
replace_limits (u ∷ us) next speed =
    if u.email == ""
    then replace_limits us next speed
    else replace_limits us (insert u.email u.ip_limit next) (insert u.email u.speed_limit speed)

unfoldable pub upsert_limits : List User → Limits → Limits
upsert_limits [] s = s
upsert_limits (u ∷ us) s = upsert_limits us (
    if u.email == "" then s else record s {
      user_limits = insert u.email u.ip_limit s.user_limits;
      user_speed = insert u.email u.speed_limit s.user_speed;
      kicked = delete u.email s.kicked;
    })

unfoldable pub remember_limits : List User → Bool → Limits → Limits
remember_limits us replace s =
    if replace
    then (let next = replace_limits us [] [] in
        record s { user_limits = next.0; user_speed = next.1 })
    else upsert_limits us s

abbrev pub window_or_empty : Option Window → Window
window_or_empty none = []
window_or_empty (some w) = w

abbrev pub strikes_or_zero : Option ℕ → ℕ
strikes_or_zero none = 0
strikes_or_zero (some n) = n

unfoldable pub touch : ℕ → List String → Window → Window
touch now [] w = w
touch now (ip ∷ ips) w = touch now ips (insert ip now w)

unfoldable pub fold_endpoints :
    ℕ → Dict String (Dict String (Unit {0})) → Dict String Window → Dict String Window
fold_endpoints now [] windows = windows
fold_endpoints now ((email, ips) ∷ active) windows =
    fold_endpoints now active
      (insert email (touch now (keys ips) (window_or_empty (lookup email windows))) windows)

unfoldable pub fresh : ℕ → Window → Window
fresh now [] = []
fresh now ((ip, seen) ∷ w) =
    let rest = fresh now w in if ltb wg_ip_window (now - seen) then rest else (ip, seen) ∷ rest

abbrev pub keep_window : String → Window → Dict String Window → Dict String Window
keep_window email [] rest = rest
keep_window email (e ∷ w) rest = (email, e ∷ w) ∷ rest

unfoldable pub prune : ℕ → Dict String Window → Dict String Window
prune now [] = []
prune now ((email, w) ∷ windows) = keep_window email (fresh now w) (prune now windows)

-- What the pass decides on a user with a limit, from the time of the kick, the number of addresses
-- and the strikes so far.
unfoldable pub user_action : ℕ → ℕ → Option ℕ → ℕ → ℕ → Option Action
user_action now limit (some kicked_at) count strikes =
    if leb wg_ip_limit_cooldown (now - kicked_at) then some readmit else none
user_action now limit none count strikes =
    if nat_eq limit 0
    then none
    else (if ltb limit (count % 0x100000000) && leb wg_ip_limit_strikes (strikes + 1)
        then some (kick limit count)
        else none)

unfoldable pub next_strikes : String → ℕ → Option ℕ → ℕ → Dict String ℕ → Dict String ℕ
next_strikes email limit (some kicked_at) count strikes = strikes
next_strikes email limit none count strikes =
    if nat_eq limit 0
    then strikes
    else (if ltb limit (count % 0x100000000)
        then insert email (strikes_or_zero (lookup email strikes) + 1) strikes
        else delete email strikes)

abbrev pub add_action : String → Option Action → Dict String Action → Dict String Action
add_action email none actions = actions
add_action email (some a) actions = (email, a) ∷ actions

abbrev pub count_of : String → Dict String Window → ℕ
count_of email windows = length (window_or_empty (lookup email windows))

unfoldable pub decide :
    ℕ
    → Dict String ℕ
    → Dict String Window
    → Dict String ℕ
    → Dict String ℕ
    → Dict String Action × Dict String ℕ
decide now kicked windows [] strikes = ([], strikes)
decide now kicked windows ((email, limit) ∷ limits) strikes =
    let count = count_of email windows in
    let rest =
      decide now kicked windows limits
        (next_strikes email limit (lookup email kicked) count strikes) in
    (
      add_action email
          (user_action now limit (lookup email kicked) count
            (strikes_or_zero (lookup email strikes)))
          rest.0,
      rest.1,
    )

-- One kernel change, and the bookkeeping that follows when it works.
unfoldable pub apply_action : ℕ → Host → String → Action → Limits → Limits
apply_action now host email (kick limit count) s =
    if host.has_peer email && host.removes email
    then record s {
      kicked = insert email now s.kicked;
      over_strikes = delete email s.over_strikes;
      ip_window = delete email s.ip_window;
    }
    else s
apply_action now host email readmit s =
    if host.has_peer email && host.readmits email
    then record s {
      kicked = delete email s.kicked;
      over_strikes = delete email s.over_strikes;
      ip_window = delete email s.ip_window;
    }
    else s

unfoldable pub apply_actions : ℕ → Host → Dict String Action → Limits → Limits
apply_actions now host [] s = s
apply_actions now host ((email, a) ∷ actions) s =
    apply_actions now host actions (apply_action now host email a s)

unfoldable pub windows_at : ℕ → Dict String (Dict String (Unit {0})) → Limits → Dict String Window
windows_at now active s = prune now (fold_endpoints now active s.ip_window)

unfoldable pub enforce_ip_limits : ℕ → Host → Dict String (Dict String (Unit {0})) → Limits → Limits
enforce_ip_limits now host active s =
    let windows = windows_at now active s in
    let decided = decide now s.kicked windows s.user_limits s.over_strikes in
    apply_actions now host decided.0 (record s { ip_window = windows; over_strikes = decided.1 })

abbrev pub speed_or_zero : Option ℕ → ℕ
speed_or_zero none = 0
speed_or_zero (some n) = n

-- ShapedClients, with the text that net.IP's String method gives as a parameter.
module _ (ip_string : List ℕ → String) where
  unfoldable pub clients_of : String → ℕ → List IpNet → List Client
  clients_of email limit [] = []
  clients_of email limit (n ∷ nets) =
      record { user = email; address = ip_string n.ip; limit_kbps = limit }
      ∷ clients_of email limit nets

  unfoldable pub shaped_peers : {Key : Type 0} → Dict String ℕ → List (PeerInfo Key) → List Client
  shaped_peers speed [] = []
  shaped_peers speed (p ∷ ps) =
      let limit = speed_or_zero (lookup p.email speed) in
      let rest = shaped_peers speed ps in
      if nat_eq limit 0 then rest else clients_of p.email limit p.allowed_ips ++ rest

  unfoldable pub shaped_clients : {Key : Type 0} → Limits → PeerStore Key → List Client
  shaped_clients s store = shaped_peers s.user_speed (get_all store)
