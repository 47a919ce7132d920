-- ===== src/Backend/DeviceLimit.antt =====
-- backend/devicelimit.go: one device limit shared by every protocol of the node.
pub mod Kept
pub mod Order
pub mod Enforce
pub mod Limits
mod Priority
pub mod Budget
mod Tests
use hpxnode.Prelude.{
  ℕ, ◌+◌, ◌-◌, ◌%◌, Bool, true, false, List, [], ◌∷◌, ◌++◌, Option, none, some, String, string_eq,
  ◌==◌, if◌then◌else◌, ltb, leb, nat_eq, length, ◌||◌,
}
use hpxnode.Prelude.Dict.{Dict, lookup, insert, keys}

-- A DeviceLimiter as one pass sees it: its identity, its protocol, the device counts that it
-- reports (a user that is left out has none), and its answers on limits.
pub record Limiter : Type 0 where
  pub id : ℕ
  pub protocol : String
  pub online_device_counts : Dict String ℕ
  pub user_limit : String → Option ℕ

-- A call of KeepDevices.
pub record KeepDevices : Type 0 where
  pub limiter : ℕ
  pub user : String
  pub keep : ℕ

abbrev pub device_protocol_priority : Dict String ℕ
device_protocol_priority =
    ("xray", 0) ∷ ("wireguard", 1) ∷ ("openvpn", 2) ∷ ("ikev2", 3) ∷ ("l2tp", 4) ∷ []

abbrev pub or_zero : Option ℕ → ℕ
or_zero none = 0
or_zero (some n) = n

abbrev pub rank_or_last : Option ℕ → ℕ
rank_or_last none = 0x40000000
rank_or_last (some r) = r

unfoldable pub device_proto_rank : String → ℕ
device_proto_rank p = rank_or_last (lookup p device_protocol_priority)

-- `sort.SliceStable` by rank: insertion before the first entry of a higher rank, from the back.
unfoldable pub insert_by_rank : Limiter → List Limiter → List Limiter
insert_by_rank l [] = l ∷ []
insert_by_rank l (m ∷ order) =
    let rest = insert_by_rank l order in
    if leb (device_proto_rank l.protocol) (device_proto_rank m.protocol)
    then l ∷ m ∷ order
    else m ∷ rest

unfoldable pub sort_by_rank : List Limiter → List Limiter
sort_by_rank [] = []
sort_by_rank (l ∷ limiters) = insert_by_rank l (sort_by_rank limiters)

-- `counts[i][user]`
abbrev pub count : String → Limiter → ℕ
count user l = or_zero (lookup user l.online_device_counts)

-- The users with a device somewhere: a set, as the keys of a map.
unfoldable pub add_users : Dict String ℕ → Dict String (Unit {0}) → Dict String (Unit {0})
add_users [] users = users
add_users ((u, n) ∷ c) users = add_users c (if ltb 0 n then insert u tt users else users)

unfoldable pub collect_users : List Limiter → Dict String (Unit {0}) → Dict String (Unit {0})
collect_users [] users = users
collect_users (l ∷ order) users = collect_users order (add_users l.online_device_counts users)

abbrev pub or_else : Option ℕ → Option ℕ → Option ℕ
or_else none o = o
or_else (some n) o = some n

-- The limit that the first backend which knows the user gives.
unfoldable pub find_limit : String → List Limiter → Option ℕ
find_limit user [] = none
find_limit user (l ∷ order) = or_else (l.user_limit user) (find_limit user order)

unfoldable pub total_devices : String → List Limiter → ℕ
total_devices user [] = 0
total_devices user (l ∷ order) = count user l + total_devices user order

abbrev pub min_keep : ℕ → ℕ → ℕ
min_keep c remaining = if ltb remaining c then remaining else c

-- Hand out the budget by priority: a backend that cannot fit its devices sheds the rest.
unfoldable pub hand_out : String → ℕ → List Limiter → List KeepDevices
hand_out user remaining [] = []
hand_out user remaining (l ∷ order) =
    let keep = min_keep (count user l) remaining in
    let rest = hand_out user (remaining - keep) order in
    let skipped = hand_out user remaining order in
    if nat_eq (count user l) 0
    then skipped
    else (if ltb keep (count user l)
        then record { limiter = l.id; user = user; keep = keep } ∷ rest
        else rest)

abbrev pub enforce_known : String → List Limiter → Option ℕ → List KeepDevices
enforce_known user order none = []
enforce_known user order (some limit) =
    if nat_eq limit 0
    then []
    else (if leb (total_devices user order % 0x100000000) limit
        then []
        else hand_out user limit order)

unfoldable pub enforce_user : List Limiter → String → List KeepDevices
enforce_user order user = enforce_known user order (find_limit user order)

unfoldable pub enforce_users : List Limiter → List String → List KeepDevices
enforce_users order [] = []
enforce_users order (u ∷ users) = enforce_user order u ++ enforce_users order users

-- The calls of KeepDevices that a pass makes, in their order.
unfoldable pub enforce_global_device_limits : List Limiter → List KeepDevices
enforce_global_device_limits limiters =
    if ltb (length limiters) 2
    then []
    else enforce_users (sort_by_rank limiters) (keys (collect_users (sort_by_rank limiters) []))
