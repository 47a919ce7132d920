-- ===== src/Backend/WireGuard/Sync/UserSync.antt =====
-- backend/wireguard/user.go, user_full_sync.go and user_partial_sync.go: the calls by which the
-- panel changes the users. syncMu is held by each of them from end to end. What the kernel answers
-- to a change is the record Kernel, a parameter. The traffic tracker's part is the list of the keys
-- whose statistics are removed.
use hpxnode.Prelude.{
  Bool, true, false, not, ◌&&◌, List, [], ◌∷◌, Option, none, some, String, string_eq, ◌==◌,
  if◌then◌else◌, ltb, length, is_some,
}
use hpxnode.Prelude.Dict.{Dict, lookup, insert, keys}
use hpxnode.Backend.OpenVpn.Users.{User}
use hpxnode.Backend.WireGuard.PeerStore.{
  PeerInfo, PeerStore, apply_changes, replace_all, get_by_email, get_all, get_email_map,
}
use hpxnode.Backend.WireGuard.IpLimit.{Limits, remember_limits}
use hpxnode.Backend.WireGuard.Sync.Desired.{
  Wire, Config, DesiredPeer, SyncError, owned_key, user_is_nil, not_running, apply_failed,
  restart_failed, Outcome, done, failed, and_then, normalize_users, collect_desired_peers,
}
use hpxnode.Backend.WireGuard.Sync.Diff.{
  PeerConfig, SyncDiff, build_sync_diff, build_target_peer_configs,
}

pub data Change (Key : Type 0) : Type 0 where
  apply_peers apply_peers_replace_all : List (PeerConfig Key) → Change Key

-- ensureRunningWithManagerLocked, the manager's answer to a change, and the rebuilding of the
-- interface by restartLocked, which leaves the store as it is.
pub record Kernel (Key : Type 0) : Type 0 where
  pub running : Bool
  pub accepts : Change Key → Bool
  pub restarts : PeerStore Key → Bool

pub record Synced (Key : Type 0) : Type 0 where
  pub store : PeerStore Key
  pub changes : List (Change Key)
  pub removed_stats : List String

-- The backend's fields that the calls change.
pub record WgState (Key : Type 0) : Type 0 where
  pub limits : Limits
  pub store : PeerStore Key

unfoldable pub touched_of : List User → Dict String (Unit {0})
touched_of [] = []
touched_of (u ∷ us) = insert u.email tt (touched_of us)

abbrev pub blocks : String → Dict String (Unit {0}) → Option String → Bool
blocks email touched none = false
blocks email touched (some owner) = not (owner == email) && not (is_some (lookup owner touched))

abbrev pub owner_or : Option String → String
owner_or none = ""
owner_or (some owner) = owner

module _ {Key : Type 0} where
  abbrev pub commit : Kernel Key → Change Key → Outcome (Change Key)
  commit kernel change =
      if kernel.running
      then (if kernel.accepts change then done change else failed apply_failed)
      else failed not_running

  -- The targets whose configuration was built.
  unfoldable pub valid_targets :
      Dict String (PeerInfo Key) → Dict String (Unit {0}) → List (Option (PeerInfo Key))
  valid_targets [] applied = []
  valid_targets ((key, p) ∷ target) applied =
      let rest = valid_targets target applied in
      if is_some (lookup key applied) then some p ∷ rest else rest

  -- No key may be taken from a user that the call does not touch.
  unfoldable pub check_owners :
      Dict String String
      → Dict String (Unit {0})
      → Dict String (DesiredPeer Key)
      → Outcome (Unit {0})
  check_owners owners touched [] = done tt
  check_owners owners touched ((key, d) ∷ desired) =
      if blocks d.email touched (lookup key owners)
      then failed (owned_key key (owner_or (lookup key owners)))
      else check_owners owners touched desired

  module _ (w : Wire Key) where
    unfoldable pub by_key :
        List (PeerInfo Key) → Dict String (PeerInfo Key) → Dict String (PeerInfo Key)
    by_key [] m = m
    by_key (p ∷ ps) m = by_key ps (insert (w.key_string p.public_key) p m)

    unfoldable pub build_existing_peers_by_key_snapshot : PeerStore Key → Dict String (PeerInfo Key)
    build_existing_peers_by_key_snapshot s = by_key (get_all s) []

    abbrev pub with_existing :
        Option (PeerInfo Key) → Dict String (PeerInfo Key) → Dict String (PeerInfo Key)
    with_existing none m = m
    with_existing (some p) m = insert (w.key_string p.public_key) p m

    unfoldable pub subset_for : PeerStore Key → List String → Dict String (PeerInfo Key)
    subset_for s [] = []
    subset_for s (email ∷ emails) = with_existing (get_by_email s email) (subset_for s emails)

    unfoldable pub build_existing_peers_subset_for_touched :
        PeerStore Key → Dict String (Unit {0}) → Dict String (PeerInfo Key)
    build_existing_peers_subset_for_touched s touched = subset_for s (keys touched)

    module _ (c : Config Key) (kernel : Kernel Key) where
      unfoldable pub replace_peers : PeerStore Key → SyncDiff Key → Outcome (Synced Key)
      replace_peers s diff =
          let built = build_target_peer_configs diff.target_peers c.preshared_key in
          let next = replace_all w.key_string s (valid_targets diff.target_peers built.1) in
          and_then (commit kernel (apply_peers_replace_all built.0)) (λ change.
            done (record { store = next.0; changes = change ∷ []; removed_stats = next.1 }))

      unfoldable pub sync_users_full : List User → PeerStore Key → Outcome (Synced Key)
      sync_users_full us s =
          and_then (collect_desired_peers w c (normalize_users us c.proxy_field)) (λ desired.
            let diff =
              build_sync_diff w c.preshared_key (build_existing_peers_by_key_snapshot s) desired in
            if diff.changed
            then replace_peers s diff
            else done (record { store = s; changes = []; removed_stats = [] }))

      unfoldable pub change_peers : PeerStore Key → SyncDiff Key → Outcome (Synced Key)
      change_peers s diff =
          let next = apply_changes w.key_string s diff.remove_keys diff.upsert_peers in
          if ltb 0 (length diff.peer_configs)
          then and_then (commit kernel (apply_peers diff.peer_configs)) (λ change.
            done (record { store = next.0; changes = change ∷ []; removed_stats = next.1 }))
          else done (record { store = next.0; changes = []; removed_stats = next.1 })

      unfoldable pub sync_users_partial_reconcile : List User → PeerStore Key → Outcome (Synced Key)
      sync_users_partial_reconcile us s =
          let normalized = normalize_users us c.proxy_field in
          let touched = touched_of normalized in
          let existing = build_existing_peers_subset_for_touched s touched in
          and_then (collect_desired_peers w c normalized) (λ desired.
            and_then (check_owners (get_email_map s) touched desired)
              (λ ok. change_peers s (build_sync_diff w c.preshared_key existing desired)))

      -- On an error the store stays as it is.
      abbrev pub settle : WgState Key → Outcome (Synced Key) → WgState Key × Option SyncError
      settle b (done r) = (record b { store = r.store }, none)
      settle b (failed e) = (b, some e)

      abbrev pub remembering : List User → Bool → WgState Key → WgState Key
      remembering us replace b = record b { limits = remember_limits us replace b.limits }

      unfoldable pub sync_user : Option User → WgState Key → WgState Key × Option SyncError
      sync_user none b = (b, some user_is_nil)
      sync_user (some u) b =
          settle (remembering (u ∷ []) false b) (sync_users_partial_reconcile (u ∷ []) b.store)

      unfoldable pub sync_users : List User → WgState Key → WgState Key × Option SyncError
      sync_users us b = settle (remembering us true b) (sync_users_full us b.store)

      unfoldable pub update_users : List User → WgState Key → WgState Key × Option SyncError
      update_users us b = settle (remembering us false b) (sync_users_partial_reconcile us b.store)

      abbrev pub then_restart : WgState Key × Option SyncError → WgState Key × Option SyncError
      then_restart (b, some e) = (b, some e)
      then_restart (b, none) =
          if kernel.restarts b.store then (b, none) else (b, some restart_failed)

      unfoldable pub update_users_and_restart :
          List User → WgState Key → WgState Key × Option SyncError
      update_users_and_restart us b =
          then_restart (settle (remembering us true b) (sync_users_partial_reconcile us b.store))
