-- ===== src/Backend/WireGuard/Sync/Tests.antt =====
-- backend/wireguard/user.go on two users. A key is a text, and its own String; a prefix is told apart
-- from another by its length.
use hpxnode.Prelude.{
  true, List, [], ◌∷◌, none, some, String, string_eq, if◌then◌else◌, nat_eq, length, ◌≡◌, refl, sym,
}
use hpxnode.Prelude.Dict.{Dict, lookup, insert, delete, elem}
use hpxnode.Prelude.Sort.{sort_strings, insert_string, codes_less}
use hpxnode.Backend.OpenVpn.Users.{User}
use hpxnode.Backend.WireGuard.PeerStore.{
  PeerStore, new_peer_store, apply_changes, get_all, replace_all, init, store, gone, get_by_email,
  get_email_map, snapshot_of, remove_keys, upsert_peers, upsert,
}
use hpxnode.Backend.WireGuard.Sync.Desired.{
  Wire, Config, DesiredPeer, Outcome, done, failed, collect_desired_peers, collect_loop,
  collect_user, collect_proxy, check_ips, place_peer, interface_networks, networks_of,
  should_include_user_in_interface, user_wireguard_proxy, peer_ip_allowed_on_interface,
  normalize_users, last_by_email, email_of_desired,
}
use hpxnode.Backend.WireGuard.Sync.UserSync.{
  Kernel, Synced, WgState, sync_users_full, sync_users, sync_users_partial_reconcile, touched_of,
  build_existing_peers_subset_for_touched, subset_for, check_owners, change_peers,
  build_existing_peers_by_key_snapshot, by_key, replace_peers, valid_targets,
}
use hpxnode.Backend.WireGuard.Sync.Diff.{
  build_sync_diff, target_of, compare_existing, compare_target, build_add_config_from_peer_info,
  build_remove_configs_for_peers, remove_configs, peers_at, build_target_peer_configs,
  target_configs, build_add_config, build_remove_config, compare_peer, same_nets,
}
use hpxnode.Backend.WireGuard.Sync.Collect.{NetsApart, collect_desired_peers-apart}
use hpxnode.Backend.WireGuard.Sync.FullSync.{owner-sync_users_full}
use hpxnode.Backend.WireGuard.Sync.WellFormed.{new_peer_store-AreWellKeyed}
use hpxnode.Backend.WireGuard.OneToOne.{owner, key_of}
use hpxnode.Backend.WireGuard.Replace.{new_peer_store-IsOneToOne}
use hpxnode.Backend.WireGuard.Sync.Target.{HasCanonicalKey}
use hpxnode.Backend.WireGuard.Sync.Calls.{users_sync, call, calls, IsSound, calls-IsSound}
use hpxnode.Backend.WireGuard.Sync.UntouchedUsers.{key_of-sync_users_partial_reconcile}
use mathlib.Core.Option.{some-injective}
use hpxnode.Prelude.Text.{codes}
use text.Mathlib.TextEquality.{eq_iff}

abbrev wire : Wire String
wire = record {
  key_string = λ k. k;
  parse_key = λ t. some t;
  parse_cidr = λ t. some (record { ip = t; mask = [] });
  contains = λ pool ip. true;
  mask_size = λ mask. 32;
  net_string = λ n. if nat_eq (length n.ip) 8 then "10.0.0.1" else "10.0.0.22";
}

abbrev wg0 : Config String
wg0 = record { interface_name = "wg0"; address = []; proxy_field = ""; preshared_key = none }

abbrev user : String → String → String → User
user email key ip = record {
  email = email;
  openvpn = none;
  wireguard = some (record { public_key = key; peer_ips = ip ∷ [] });
  wg_c = none;
  amneziawg = none;
  ikev2 = none;
  pptp = none;
  inbounds = "wg0" ∷ [];
  ip_limit = 0;
  speed_limit = 0;
}

abbrev ann_and_bob : List User
ann_and_bob = user "ann" "ka" "10.0.0.1" ∷ user "bob" "kb" "10.0.0.22" ∷ []

abbrev desired_peer : String → String → String → DesiredPeer String
desired_peer email key ip = record {
  email = email;
  public_key = key;
  parsed_key = key;
  allowed_ip_nets = (record { ip = codes ip; mask = [] }) ∷ [];
}

abbrev ann_and_bob_desired : Dict String (DesiredPeer String)
ann_and_bob_desired =
    ("ka", desired_peer "ann" "ka" "10.0.0.1") ∷ ("kb", desired_peer "bob" "kb" "10.0.0.22") ∷ []

abbrev kernel : Kernel String
kernel = record { running = true; accepts = λ change. true; restarts = λ s. true }

abbrev synced_of : Outcome (Synced String) → Synced String
synced_of (done r) = r
synced_of (failed e) = record { store = new_peer_store; changes = []; removed_stats = [] }

collect_desired_peers-ann_and_bob :
    collect_desired_peers wire wg0 (normalize_users ann_and_bob "") ≡ done ann_and_bob_desired
unfolding collect_desired_peers collect_loop collect_user collect_proxy check_ips place_peer
    interface_networks networks_of should_include_user_in_interface user_wireguard_proxy
    peer_ip_allowed_on_interface normalize_users last_by_email insert lookup elem
collect_desired_peers-ann_and_bob = refl

collect_desired_peers-apart_example :
    NetsApart wire
      ((record { ip = codes "10.0.0.1"; mask = [] }) ∷ [])
      ((record { ip = codes "10.0.0.22"; mask = [] }) ∷ [])
unfolding lookup
collect_desired_peers-apart_example =
    collect_desired_peers-apart wire wg0 (normalize_users ann_and_bob "") ann_and_bob_desired "ka"
      "kb" (desired_peer "ann" "ka" "10.0.0.1") (desired_peer "bob" "kb" "10.0.0.22")
      collect_desired_peers-ann_and_bob refl refl
      (λ same. absurd (cc ((eq_iff "ann" "bob").1 same)))

-- The store that a full synchronization with both users leaves.
abbrev both : Outcome (Synced String)
both = sync_users_full wire wg0 kernel ann_and_bob new_peer_store

both-done : both ≡ done (synced_of both)
unfolding collect_desired_peers collect_loop collect_user collect_proxy check_ips place_peer
    interface_networks networks_of should_include_user_in_interface user_wireguard_proxy
    peer_ip_allowed_on_interface normalize_users last_by_email insert lookup elem sync_users_full
    build_existing_peers_by_key_snapshot by_key get_all build_sync_diff target_of compare_existing
    compare_target build_add_config_from_peer_info build_remove_configs_for_peers remove_configs
    peers_at sort_strings insert_string codes_less replace_peers build_target_peer_configs
    target_configs build_add_config
both-done = refl

-- Here every public key is written as it is printed.
canonical : (u : User) → HasCanonicalKey wire wg0 u
canonical u p parsed is at = sym (some-injective p.public_key parsed at)

owner-sync_users_full_example :
    owner (synced_of both).store "kb" ≡ email_of_desired wire (lookup "kb" ann_and_bob_desired)
owner-sync_users_full_example =
    owner-sync_users_full wire wg0 kernel ann_and_bob new_peer_store ann_and_bob_desired
      (synced_of both) "kb" (λ k. refl) (new_peer_store-AreWellKeyed wire.key_string).0
      (new_peer_store-AreWellKeyed wire.key_string).1
      (canonical (user "ann" "ka" "10.0.0.1"), (canonical (user "bob" "kb" "10.0.0.22"), tt))
      collect_desired_peers-ann_and_bob both-done

abbrev start : WgState String
start = record {
  limits = record {
    user_limits = [];
    user_speed = [];
    kicked = [];
    ip_window = [];
    over_strikes = [];
  };
  store = new_peer_store;
}

calls-IsSound_example :
    IsSound wire wg0 (calls wire wg0 ((kernel, users_sync ann_and_bob) ∷ []) start).store
calls-IsSound_example =
    calls-IsSound wire wg0 ((kernel, users_sync ann_and_bob) ∷ []) start
      ((canonical (user "ann" "ka" "10.0.0.1"), (canonical (user "bob" "kb" "10.0.0.22"), tt)), tt)
      (new_peer_store-IsOneToOne String, new_peer_store-AreWellKeyed wire.key_string)

-- Then Bob gets another key.
abbrev stored : PeerStore String
stored = (calls wire wg0 ((kernel, users_sync ann_and_bob) ∷ []) start).store

stored-IsSound : IsSound wire wg0 stored
stored-IsSound =
    calls-IsSound wire wg0 ((kernel, users_sync ann_and_bob) ∷ []) start
      ((canonical (user "ann" "ka" "10.0.0.1"), (canonical (user "bob" "kb" "10.0.0.22"), tt)), tt)
      (new_peer_store-IsOneToOne String, new_peer_store-AreWellKeyed wire.key_string)

abbrev moved_bob : List User
moved_bob = user "bob" "kc" "10.0.0.22" ∷ []

abbrev moved_bob_desired : Dict String (DesiredPeer String)
moved_bob_desired = ("kc", desired_peer "bob" "kc" "10.0.0.22") ∷ []

collect_desired_peers-moved_bob :
    collect_desired_peers wire wg0 (normalize_users moved_bob "") ≡ done moved_bob_desired
unfolding collect_desired_peers collect_loop collect_user collect_proxy check_ips place_peer
    interface_networks networks_of should_include_user_in_interface user_wireguard_proxy
    peer_ip_allowed_on_interface normalize_users last_by_email insert lookup elem
collect_desired_peers-moved_bob = refl

abbrev moved : Outcome (Synced String)
moved = sync_users_partial_reconcile wire wg0 kernel moved_bob stored

moved-done : moved ≡ done (synced_of moved)
unfolding collect_desired_peers collect_loop collect_user collect_proxy check_ips place_peer
    interface_networks networks_of should_include_user_in_interface user_wireguard_proxy
    peer_ip_allowed_on_interface normalize_users last_by_email insert lookup elem sync_users_full
    build_existing_peers_by_key_snapshot by_key get_all build_sync_diff target_of compare_existing
    compare_target build_add_config_from_peer_info compare_peer same_nets
    build_remove_configs_for_peers remove_configs peers_at sort_strings insert_string codes_less
    replace_peers build_target_peer_configs target_configs build_add_config calls call sync_users
    replace_all init store valid_targets gone sync_users_partial_reconcile touched_of
    build_existing_peers_subset_for_touched subset_for get_by_email get_email_map snapshot_of
    check_owners change_peers apply_changes remove_keys upsert_peers upsert delete
    build_remove_config
moved-done = refl

key_of-sync_users_partial_reconcile_example :
    key_of (synced_of moved).store "ann" ≡ key_of stored "ann"
unfolding touched_of normalize_users last_by_email insert lookup user_wireguard_proxy
key_of-sync_users_partial_reconcile_example =
    key_of-sync_users_partial_reconcile wire wg0 kernel moved_bob stored moved_bob_desired
      (synced_of moved) "ann" (λ k. refl) stored-IsSound.0 stored-IsSound.1.0 stored-IsSound.1.1
      (canonical (user "bob" "kc" "10.0.0.22"), tt) collect_desired_peers-moved_bob moved-done refl
