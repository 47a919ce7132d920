-- ===== src/Backend/WireGuard/Sync/FullSync.antt =====
-- backend/wireguard/user_full_sync.go: the owners of the keys after a full synchronization.
use hpxnode.Prelude.{
  ◌⊎◌, true, false, List, [], ◌∷◌, some, String, string_eq, if◌then◌else◌, All, Bool-cases, ◌≡◌,
  sym, ap, ◌∙◌, subst, inl, inr,
}
use hpxnode.Prelude.Dict.{Dict, lookup, IsDict}
use hpxnode.Backend.OpenVpn.Users.{User}
use hpxnode.Backend.WireGuard.PeerStore.{PeerInfo, PeerStore, email_of, replace_all, get_all}
use hpxnode.Backend.WireGuard.OneToOne.{owner}
use hpxnode.Backend.WireGuard.Sync.Desired.{
  Wire, Config, DesiredPeer, Outcome, done, failed, and_then, normalize_users, last_by_email,
  collect_desired_peers, email_of_desired,
}
use hpxnode.Backend.WireGuard.Sync.Diff.{
  SyncDiff, target_of, build_sync_diff, build_target_peer_configs,
}
use hpxnode.Backend.WireGuard.Sync.DiffExact.{has_nets}
use hpxnode.Backend.WireGuard.Sync.Owners.{AreKeyed}
use hpxnode.Backend.WireGuard.Sync.Intended.{
  AreOf, collect_desired_peers-AreOf, collect_desired_peers-IsDict, normalize_users-IsListed,
  last_by_email-All,
}
use hpxnode.Backend.WireGuard.Sync.Target.{
  lookup-target_of, target_of-IsDict, HasCanonicalKey, target_of-AreKeyed, target_of-has_nets,
}
use hpxnode.Backend.WireGuard.Sync.DiffLists.{ReadsPrinted, unchanged_lem}
use hpxnode.Backend.WireGuard.Sync.Claims.{Holds}
use hpxnode.Backend.WireGuard.Sync.UserSync.{
  Kernel, Change, Synced, commit, valid_targets, build_existing_peers_by_key_snapshot,
  replace_peers, sync_users_full, apply_peers_replace_all,
}
use hpxnode.Backend.WireGuard.Sync.Stored.{
  lookup-snapshot, stored_owner, agree, email_of-peer_of, by_key-IsDict,
}

pub and_then_done :
    {A B : Type 0} (o : Outcome A) (f : A → B) (r : B)
    → and_then o (λ a. done (f a)) ≡ done r
    → (a : A) × (done (f a) ≡ done r)
and_then_done (done a) f r h = (a, h)
and_then_done (failed e) f r h = absurd (cc h)

module _ {Key : Type 0} where
  snapshot-IsDict :
      (w : Wire Key) (s : PeerStore Key) → IsDict (build_existing_peers_by_key_snapshot w s)
  unfolding build_existing_peers_by_key_snapshot
  snapshot-IsDict w s = by_key-IsDict w (get_all s) [] tt

  -- What a result leaves in the store.
  unfoldable pub store_or : PeerStore Key → Outcome (Synced Key) → PeerStore Key
  store_or s (done r) = r.store
  store_or s (failed e) = s

  replace_peers-store :
      (w : Wire Key) (c : Config Key) (kernel : Kernel Key) (s : PeerStore Key)
      (diff : SyncDiff Key) (r : Synced Key)
      → replace_peers w c kernel s diff ≡ done r
      → (replace_all w.key_string s (
          valid_targets diff.target_peers
            (build_target_peer_configs diff.target_peers c.preshared_key).1)).0
        ≡ r.store
  unfolding replace_peers replace_all store_or
  replace_peers-store w c kernel s diff r ok =
      let built = build_target_peer_configs diff.target_peers c.preshared_key in
      let next = replace_all w.key_string s (valid_targets diff.target_peers built.1) in
      let made : Change Key → Synced Key =
        λ change. record { store = next.0; changes = change ∷ []; removed_stats = next.1 } in
      ap (store_or s) (and_then_done (commit kernel (apply_peers_replace_all built.0)) made r ok).1

  -- A full synchronization stores the targets, or finds that nothing changed.
  pub full_result :
      (w : Wire Key) (c : Config Key) (kernel : Kernel Key) (s : PeerStore Key)
      (diff : SyncDiff Key) (r : Synced Key)
      → (if diff.changed
          then replace_peers w c kernel s diff
          else done (record { store = s; changes = []; removed_stats = [] }))
        ≡ done r
      → ((replace_all w.key_string s (
            valid_targets diff.target_peers
              (build_target_peer_configs diff.target_peers c.preshared_key).1)).0
          ≡ r.store)
        ⊎ ((diff.changed ≡ false) × (s ≡ r.store))
  unfolding store_or replace_peers
  full_result w c kernel s diff r ok = elim (Bool-cases diff.changed) [
    | inl changed ↦ inl (replace_peers-store w c kernel s diff r (rw changed at ok))
    | inr same ↦ inr (same, ap (store_or s) (rw same at ok))
  ]

  -- When nothing changed, the owners are those of the targets.
  owner_agrees :
      (w : Wire Key) (c : Config Key) (s : PeerStore Key) (desired : Dict String (DesiredPeer Key))
      (key : String)
      → ReadsPrinted w
      → IsDict s.peers
      → AreKeyed w.key_string s.peers
      → IsDict desired
      → ((k : String) (p : PeerInfo Key)
          → lookup k (target_of desired) ≡ some p
          → has_nets w p ≡ true)
      → (build_sync_diff w c.preshared_key
          (build_existing_peers_by_key_snapshot w s)
          desired).changed
        ≡ false
      → owner s key ≡ email_of (lookup key (target_of desired))
  unfolding owner
  owner_agrees w c s desired key reads d keyed e nets same =
      let existing = build_existing_peers_by_key_snapshot w s in
      let here = lookup-snapshot w s key d keyed in
      let keyed' : AreKeyed w.key_string existing =
        λ k p found. keyed k p (sym (lookup-snapshot w s k d keyed) ∙ found) in
      let none_wanted =
        unchanged_lem w c.preshared_key existing desired (snapshot-IsDict w s) e key reads keyed'
          same in
      agree w (lookup key s.peers) (lookup key (target_of desired)) (nets key)
        (rw here at none_wanted.0) (rw here at none_wanted.1)

  -- A full synchronization that succeeds leaves each key to the user for which the list of users
  -- desires it, and leaves no other key. The store holds each peer once, under its own key, the public
  -- keys are written as they are printed, and the printed text of a key is parsed.
  pub owner-sync_users_full :
      (w : Wire Key) (c : Config Key) (kernel : Kernel Key) (us : List User) (s : PeerStore Key)
      (desired : Dict String (DesiredPeer Key)) (r : Synced Key) (key : String)
      → ReadsPrinted w
      → IsDict s.peers
      → AreKeyed w.key_string s.peers
      → All (HasCanonicalKey w c) us
      → collect_desired_peers w c (normalize_users us c.proxy_field) ≡ done desired
      → sync_users_full w c kernel us s ≡ done r
      → owner r.store key ≡ email_of_desired w (lookup key desired)
  unfolding sync_users_full build_sync_diff
  owner-sync_users_full w c kernel us s desired r key reads d keyed canonical collected ok =
      let m = last_by_email us c.proxy_field [] in
      let normalized = normalize_users us c.proxy_field in
      let of : AreOf w c m desired = subst (Holds (AreOf w c m)) collected (
        collect_desired_peers-AreOf w c m normalized (normalize_users-IsListed us c.proxy_field)) in
      let e : IsDict desired =
        subst (Holds IsDict) collected (collect_desired_peers-IsDict w c m normalized) in
      let keyed_target = target_of-AreKeyed w c m desired of (λ email u found.
        (last_by_email-All (HasCanonicalKey w c) us c.proxy_field canonical email u found).1) in
      let nets = target_of-has_nets w c m desired of in
      let existing = build_existing_peers_by_key_snapshot w s in
      let diff = build_sync_diff w c.preshared_key existing desired in
      let wanted =
        ap email_of (lookup-target_of key desired) ∙ email_of-peer_of w (lookup key desired) in
      elim (full_result w c kernel s diff r (rw collected at ok)) [
        | inl stored ↦
            ap (λ x. owner x key) (sym stored)
            ∙ (stored_owner w (target_of desired) c.preshared_key s key (target_of-IsDict desired e)
                  keyed_target nets
                ∙ wanted)
        | inr (same, kept) ↦
            ap (λ x. owner x key) (sym kept)
            ∙ (owner_agrees w c s desired key reads d keyed e nets same ∙ wanted)
      ]
