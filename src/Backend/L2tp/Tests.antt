-- ===== src/Backend/L2tp/Tests.antt =====
-- backend/l2tp on users with one or two sessions.
use hpxnode.Prelude.{
  ℕ, true, not, ◌&&◌, List, [], ◌∷◌, none, some, String, string_eq, is_some, ◌≡◌, refl, inl, inr,
  Bool-cases, arith, ◌==◌,
}
use hpxnode.Prelude.Int.{ℤ, pos, add64, sub64}
use hpxnode.Prelude.Dict.{elem, lookup, insert, delete}
use hpxnode.Backend.OpenVpn.Users.{User}
use hpxnode.Backend.L2tp.Users.{
  Entry, UserStore, apply_user, apply_wanted, replace_all, wants_interface, creds_for, collect_next,
  departed,
}
use hpxnode.Backend.L2tp.Sessions.{
  Session, keep_devices, sessions_of, sort_by_start, insert_by_start, terminated,
}
use hpxnode.Backend.L2tp.Poll.{State, poll}
use hpxnode.Backend.L2tp.Allowed.{entry_after, lookup-apply_user}
use hpxnode.Backend.L2tp.Growth.{AreCounters, lookup-poll}

abbrev user : String → String → User
user email username = record {
  email = email;
  openvpn = none;
  wireguard = none;
  wg_c = none;
  amneziawg = none;
  ikev2 = some (record { username = username; password = "pw" });
  pptp = none;
  inbounds = "l2tp" ∷ [];
  ip_limit = 2;
  speed_limit = 0;
}

abbrev entry : Entry
entry = record { password = "pw"; ip_limit = 2; speed_limit = 0 }

abbrev served : UserStore
served = record { inbound_tag = "l2tp"; users = ("bob", entry) ∷ ("carol", entry) ∷ [] }

abbrev departing : User
departing = record (user "ann@node" "bob") { inbounds = [] }

abbrev session : String → String → ℕ → Session
session user ifname started = record {
  user = user;
  ifname = ifname;
  tunnel_ip = "10.0.0.2";
  client_ip = "";
  pid = pos 7;
  started = pos started;
}

abbrev three_sessions : List Session
three_sessions = session "ann" "ppp0" 30 ∷ session "ann" "ppp1" 10 ∷ session "ann" "ppp2" 20 ∷ []

abbrev two_sessions : List Session
two_sessions = session "ann" "ppp0" 30 ∷ session "ann" "ppp1" 10 ∷ []

abbrev bytes : String → ℤ × ℤ
bytes ifname = (pos 50, pos 9)

abbrev polled : State
polled = record {
  if_seen = ("ppp0", (pos 20, pos 0)) ∷ ("ppp1", (pos 80, pos 0)) ∷ [];
  cum_rx = ("ann", pos 100) ∷ [];
  cum_tx = [];
  total_rx = pos 100;
  total_tx = pos 0;
  online_ips = [];
}

replaced_names : (replace_all (user "ann" "ann" ∷ user "x" "carol" ∷ []) served).1 ≡ "bob" ∷ []
unfolding replace_all collect_next wants_interface creds_for departed lookup insert elem
replaced_names = refl

lookup-apply_user_example :
    (lookup "bob" (apply_user departing served).0.users
      ≡ entry_after "l2tp" "bob" departing (some entry))
    × ((apply_user departing served).1.removed ≡ (
        is_some (lookup departing.email served.users)
        && not (is_some (lookup departing.email (apply_user departing served).0.users))))
unfolding lookup
lookup-apply_user_example = lookup-apply_user departing served "bob" refl

-- The user left the inbound, and its credentials are still accepted.
departing_bob : is_some (lookup "bob" (apply_user departing served).0.users) ≡ true
unfolding apply_user apply_wanted wants_interface lookup elem delete
departing_bob = refl

kept_oldest :
    keep_devices "ann" 1 three_sessions ≡ session "ann" "ppp2" 20 ∷ session "ann" "ppp0" 30 ∷ []
unfolding keep_devices sessions_of sort_by_start insert_by_start terminated
kept_oldest = refl

polled-AreCounters : AreCounters bytes polled.if_seen
unfolding lookup
polled-AreCounters ifname = elim (Bool-cases ("ppp0" == ifname)) [
  | inl first ↦ rw first ((refl, omega arith), (refl, omega arith))
  | inr apart ↦ elim (Bool-cases ("ppp1" == ifname)) [
    | inl second ↦ rw (apart, second) ((refl, omega arith), (refl, omega arith))
    | inr unknown ↦ rw (apart, unknown) ((refl, omega arith), (refl, omega arith))
  ]
]

lookup-poll_example :
    lookup "ann" (poll (pos 5) bytes two_sessions served polled).0.cum_rx ≡ some (pos 180)
unfolding lookup add64 sub64
lookup-poll_example =
    lookup-poll (pos 5) bytes two_sessions served polled "ann" (refl, (refl, tt)) polled-AreCounters
