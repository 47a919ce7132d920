-- ===== src/Backend/WireGuard/Sync/Diff.antt =====
-- backend/wireguard/user_common.go: the difference between the peers that are there and the peers
-- that are to be there, and the peer configurations that bring the kernel along.
use hpxnode.Prelude.{
  ℕ, Bool, true, false, not, ◌&&◌, ◌||◌, List, [], ◌∷◌, ◌++◌, Option, none, some, String, string_eq,
  ◌==◌, if◌then◌else◌, ltb, nat_eq, length, is_some,
}
use hpxnode.Prelude.Dict.{Dict, lookup, insert, keys}
use hpxnode.Prelude.Sort.{sort_strings}
use hpxnode.Backend.WireGuard.PeerStore.{IpNet, PeerInfo}
use hpxnode.Backend.WireGuard.Sync.Desired.{Wire, DesiredPeer}

-- The fields of wgtypes.PeerConfig that the package sets; the keepalive interval is always 0.
pub record PeerConfig (Key : Type 0) : Type 0 where
  pub public_key : Key
  pub remove : Bool
  pub preshared_key : Option Key
  pub persistent_keepalive : Option ℕ
  pub replace_allowed_ips : Bool
  pub allowed_ips : List IpNet

pub record SyncDiff (Key : Type 0) : Type 0 where
  pub remove_keys : List String
  pub upsert_peers : List (Option (PeerInfo Key))
  pub peer_configs : List (PeerConfig Key)
  pub target_peers : Dict String (PeerInfo Key)
  pub changed : Bool

-- The maps and the list that the loops of buildSyncDiff fill.
pub record Compared (Key : Type 0) : Type 0 where
  pub removes : Dict String (PeerInfo Key)
  pub upserts : Dict String (PeerInfo Key)
  pub configs : List (PeerConfig Key)

module _ {Key : Type 0} where
  unfoldable pub build_add_config : Key → List IpNet → Option Key → PeerConfig Key
  build_add_config key nets psk = record {
    public_key = key;
    remove = false;
    preshared_key = psk;
    persistent_keepalive = some 0;
    replace_allowed_ips = false;
    allowed_ips = nets;
  }

  unfoldable pub build_remove_config : Key → PeerConfig Key
  build_remove_config key = record {
    public_key = key;
    remove = true;
    preshared_key = none;
    persistent_keepalive = none;
    replace_allowed_ips = false;
    allowed_ips = [];
  }

  -- None is the error of a peer without addresses.
  unfoldable pub build_add_config_from_peer_info :
      PeerInfo Key → Option Key → Option (PeerConfig Key)
  build_add_config_from_peer_info p psk =
      if nat_eq (length p.allowed_ips) 0
      then none
      else some (build_add_config p.public_key p.allowed_ips psk)

  unfoldable pub target_of : Dict String (DesiredPeer Key) → Dict String (PeerInfo Key)
  target_of [] = []
  target_of ((key, d) ∷ desired) =
      (key, record { email = d.email; public_key = d.parsed_key; allowed_ips = d.allowed_ip_nets })
      ∷ target_of desired

  unfoldable pub peers_at : List String → Dict String (PeerInfo Key) → List (Option (PeerInfo Key))
  peers_at [] m = []
  peers_at (key ∷ ks) m = lookup key m ∷ peers_at ks m

  module _ (w : Wire Key) where
    unfoldable pub same_nets : List IpNet → List IpNet → Bool
    same_nets [] [] = true
    same_nets [] (n ∷ b) = false
    same_nets (m ∷ a) [] = false
    same_nets (m ∷ a) (n ∷ b) = w.net_string m == w.net_string n && same_nets a b

    abbrev pub upsert_changed :
        String → PeerInfo Key → Option (PeerConfig Key) → Compared Key → Compared Key
    upsert_changed key target none acc = acc
    upsert_changed key target (some config) acc = record acc {
      upserts = insert key target acc.upserts;
      configs = acc.configs ++ (record config { replace_allowed_ips = true }) ∷ [];
    }

    unfoldable pub compare_peer :
        Option Key → String → PeerInfo Key → Option (PeerInfo Key) → Compared Key → Compared Key
    compare_peer psk key existing none acc = record acc {
      removes = insert key existing acc.removes;
    }
    compare_peer psk key existing (some target) acc =
        if not (same_nets existing.allowed_ips target.allowed_ips)
        then upsert_changed key target (build_add_config_from_peer_info target psk) acc
        else (if existing.email == target.email
            then acc
            else record acc { upserts = insert key target acc.upserts })

    unfoldable pub compare_existing :
        Option Key
        → Dict String (PeerInfo Key)
        → Dict String (PeerInfo Key)
        → Compared Key
        → Compared Key
    compare_existing psk target [] acc = acc
    compare_existing psk target ((key, existing) ∷ rest) acc =
        compare_existing psk target rest (compare_peer psk key existing (lookup key target) acc)

    abbrev pub add_new :
        String → PeerInfo Key → Option (PeerConfig Key) → Compared Key → Compared Key
    add_new key target none acc = acc
    add_new key target (some config) acc = record acc {
      upserts = insert key target acc.upserts;
      configs = acc.configs ++ config ∷ [];
    }

    unfoldable pub compare_target :
        Option Key
        → Dict String (PeerInfo Key)
        → Dict String (PeerInfo Key)
        → Compared Key
        → Compared Key
    compare_target psk existing [] acc = acc
    compare_target psk existing ((key, target) ∷ rest) acc = compare_target psk existing rest (
        if is_some (lookup key existing)
        then acc
        else add_new key target (build_add_config_from_peer_info target psk) acc)

    abbrev pub with_removal :
        String
        → Option Key
        → List String × List (PeerConfig Key)
        → List String × List (PeerConfig Key)
    with_removal key none rest = rest
    with_removal key (some parsed) (ks, configs) = (key ∷ ks, build_remove_config parsed ∷ configs)

    unfoldable pub remove_configs : List String → List String × List (PeerConfig Key)
    remove_configs [] = ([], [])
    remove_configs (key ∷ ks) = with_removal key (w.parse_key key) (remove_configs ks)

    unfoldable pub build_remove_configs_for_peers :
        Dict String (PeerInfo Key) → List String × List (PeerConfig Key)
    build_remove_configs_for_peers removes = remove_configs (sort_strings (keys removes))

    abbrev pub compare_all :
        Option Key → Dict String (PeerInfo Key) → Dict String (PeerInfo Key) → Compared Key
    compare_all psk existing target =
        compare_target psk existing target (
          compare_existing psk target existing
            (record { removes = []; upserts = []; configs = [] }))

    -- The error that the source's function could return is always nil.
    unfoldable pub build_sync_diff :
        Option Key → Dict String (PeerInfo Key) → Dict String (DesiredPeer Key) → SyncDiff Key
    build_sync_diff psk existing desired =
        let target = target_of desired in
        let acc = compare_all psk existing target in
        let removal = build_remove_configs_for_peers acc.removes in
        let upserts = peers_at (sort_strings (keys acc.upserts)) acc.upserts in
        record {
          remove_keys = removal.0;
          upsert_peers = upserts;
          peer_configs = acc.configs ++ removal.1;
          target_peers = target;
          changed = ltb 0 (length removal.0) || ltb 0 (length upserts);
        }

  abbrev pub with_target :
      String
      → Option (PeerConfig Key)
      → List (PeerConfig Key) × Dict String (Unit {0})
      → List (PeerConfig Key) × Dict String (Unit {0})
  with_target key none rest = rest
  with_target key (some config) (configs, applied) = (config ∷ configs, insert key tt applied)

  abbrev pub config_at : Option (PeerInfo Key) → Option Key → Option (PeerConfig Key)
  config_at none psk = none
  config_at (some p) psk = build_add_config_from_peer_info p psk

  unfoldable pub target_configs :
      Dict String (PeerInfo Key)
      → Option Key
      → List String
      → List (PeerConfig Key) × Dict String (Unit {0})
  target_configs target psk [] = ([], [])
  target_configs target psk (key ∷ ks) =
      with_target key (config_at (lookup key target) psk) (target_configs target psk ks)

  unfoldable pub build_target_peer_configs :
      Dict String (PeerInfo Key) → Option Key → List (PeerConfig Key) × Dict String (Unit {0})
  build_target_peer_configs target psk = target_configs target psk (sort_strings (keys target))
