-- ===== src/Backend/WireGuard/Sync/Calls.antt =====
-- backend/wireguard/user.go: any sequence of the calls by which the panel changes the users.
use hpxnode.Prelude.{
  true, false, List, [], ◌∷◌, Option, none, some, string_eq, if◌then◌else◌, All, ◌≡◌, ◌⊎◌, refl,
  subst, inl, inr,
}
use hpxnode.Prelude.Dict.{IsDict}
use hpxnode.Backend.OpenVpn.Users.{User}
use hpxnode.Backend.WireGuard.PeerStore.{PeerStore}
use hpxnode.Backend.WireGuard.OneToOne.{IsOneToOne}
use hpxnode.Backend.WireGuard.Sync.WellFormed.{
  AreWellKeyed, apply_changes-AreWellKeyed, replace_all-AreWellKeyed, replace_all-IsOneToOne,
}
use hpxnode.Backend.WireGuard.Sync.Desired.{
  Wire, Config, SyncError, restart_failed, Outcome, done, failed, normalize_users, last_by_email,
  collect_desired_peers,
}
use hpxnode.Backend.WireGuard.Sync.Diff.{build_sync_diff, target_of, build_target_peer_configs}
use hpxnode.Backend.WireGuard.Sync.Claims.{Holds}
use hpxnode.Backend.WireGuard.Sync.Intended.{
  AreOf, collect_desired_peers-AreOf, collect_desired_peers-IsDict, normalize_users-IsListed,
  last_by_email-All,
}
use hpxnode.Backend.WireGuard.Sync.Target.{
  HasCanonicalKey, target_of-AreKeyed, target_of-AreDistinct, target_of-IsDict,
}
use hpxnode.Backend.WireGuard.Sync.FullSync.{full_result}
use hpxnode.Backend.WireGuard.Sync.UntouchedUsers.{
  change_peers-store, partial_result, sync_users_partial_reconcile-IsOneToOne,
}
use hpxnode.Backend.WireGuard.Sync.UserSync.{
  Kernel, Synced, WgState, touched_of, valid_targets, build_existing_peers_by_key_snapshot,
  build_existing_peers_subset_for_touched, sync_users_full, sync_users_partial_reconcile, settle,
  remembering, then_restart, sync_user, sync_users, update_users, update_users_and_restart,
}

-- The calls of the panel.
pub data Call : Type 0 where
  user_sync : Option User → Call
  users_sync users_update users_update_and_restart : List User → Call

Outcome-cases :
    {A : Type 0} (o : Outcome A) → ((e : SyncError) × (o ≡ failed e)) ⊎ ((a : A) × (o ≡ done a))
Outcome-cases (done a) = inr (a, refl)
Outcome-cases (failed e) = inl (e, refl)

abbrev pub users_of_call : Call → List User
users_of_call (user_sync none) = []
users_of_call (user_sync (some u)) = u ∷ []
users_of_call (users_sync us) = us
users_of_call (users_update us) = us
users_of_call (users_update_and_restart us) = us

module _ {Key : Type 0} (w : Wire Key) (c : Config Key) where
  unfoldable pub call : Kernel Key → Call → WgState Key → WgState Key
  call kernel (user_sync u) b = (sync_user w c kernel u b).0
  call kernel (users_sync us) b = (sync_users w c kernel us b).0
  call kernel (users_update us) b = (update_users w c kernel us b).0
  call kernel (users_update_and_restart us) b = (update_users_and_restart w c kernel us b).0

  -- Each call meets a kernel with its own answers.
  unfoldable pub calls : List (Kernel Key × Call) → WgState Key → WgState Key
  calls [] b = b
  calls ((kernel, x) ∷ xs) b = calls xs (call kernel x b)

  abbrev pub IsSound : PeerStore Key → Type 0
  IsSound s = IsOneToOne s × AreWellKeyed w.key_string s.peers

  partial-IsSound :
      (kernel : Kernel Key) (us : List User) (s : PeerStore Key) (r : Synced Key)
      → IsSound s
      → sync_users_partial_reconcile w c kernel us s ≡ done r
      → IsSound r.store
  unfolding sync_users_partial_reconcile
  partial-IsSound kernel us s r (one, keyed) ok =
      elim (Outcome-cases (collect_desired_peers w c (normalize_users us c.proxy_field))) [
        | inl (e, bad) ↦ absurd (cc (rw bad at ok))
        | inr (desired, collected) ↦
            let diff =
              build_sync_diff w c.preshared_key
                (build_existing_peers_subset_for_touched w s
                  (touched_of (normalize_users us c.proxy_field)))
                desired in
            (
              sync_users_partial_reconcile-IsOneToOne w c kernel us s desired r one collected ok,
              subst (λ x. AreWellKeyed w.key_string x.peers)
                  (change_peers-store w c kernel s diff r
                    (partial_result w c kernel us s desired r collected ok).1)
                  (apply_changes-AreWellKeyed w.key_string s diff.remove_keys diff.upsert_peers
                    keyed),
            )
      ]

  full-IsSound :
      (kernel : Kernel Key) (us : List User) (s : PeerStore Key) (r : Synced Key)
      → All (HasCanonicalKey w c) us
      → IsSound s
      → sync_users_full w c kernel us s ≡ done r
      → IsSound r.store
  unfolding sync_users_full build_sync_diff
  full-IsSound kernel us s r canonical sound ok =
      elim (Outcome-cases (collect_desired_peers w c (normalize_users us c.proxy_field))) [
        | inl (e, bad) ↦ absurd (cc (rw bad at ok))
        | inr (desired, collected) ↦
            let m = last_by_email us c.proxy_field [] in
            let of : AreOf w c m desired = subst (Holds (AreOf w c m)) collected (
              collect_desired_peers-AreOf w c m (normalize_users us c.proxy_field)
                (normalize_users-IsListed us c.proxy_field)) in
            let d : IsDict desired =
              subst (Holds IsDict) collected
                (collect_desired_peers-IsDict w c m (normalize_users us c.proxy_field)) in
            let keyed = target_of-AreKeyed w c m desired of (λ email u found.
              (last_by_email-All (HasCanonicalKey w c) us c.proxy_field canonical email u
                found).1) in
            let diff =
              build_sync_diff w c.preshared_key (build_existing_peers_by_key_snapshot w s)
                desired in
            let applied = (build_target_peer_configs (target_of desired) c.preshared_key).1 in
            elim (full_result w c kernel s diff r (rw collected at ok)) [
              | inl stored ↦ subst IsSound stored (
                replace_all-IsOneToOne w.key_string (target_of desired) applied s
                    (target_of-IsDict desired d, keyed) (target_of-AreDistinct w c m desired of),
                replace_all-AreWellKeyed w.key_string s (valid_targets (target_of desired) applied),
              )
              | inr (same, kept) ↦ subst IsSound kept sound
            ]
      ]

  settled :
      (kernel : Kernel Key) (b : WgState Key) (o : Outcome (Synced Key))
      → IsSound b.store
      → ((r : Synced Key) → o ≡ done r → IsSound r.store)
      → IsSound (settle w c kernel b o).0.store
  settled kernel b (done r) h k = k r refl
  settled kernel b (failed e) h k = h

  restarted :
      (kernel : Kernel Key) (p : WgState Key × Option SyncError)
      → IsSound p.0.store
      → IsSound (then_restart w c kernel p).0.store
  restarted kernel (b, some e) h = h
  restarted kernel (b, none) h =
      elim (kernel.restarts b.store)
        as (λ x.
          let r : WgState Key × Option SyncError =
            if x then (b, none) else (b, some restart_failed) in
          IsSound r.0.store) [ true ↦ h | false ↦ h ]

  call-IsSound :
      (kernel : Kernel Key) (x : Call) (b : WgState Key)
      → All (HasCanonicalKey w c) (users_of_call x)
      → IsSound b.store
      → IsSound (call kernel x b).store
  unfolding call sync_user sync_users update_users update_users_and_restart
  call-IsSound kernel (user_sync none) b canonical h = h
  call-IsSound kernel (user_sync (some u)) b canonical h =
      settled kernel (remembering w c kernel (u ∷ []) false b)
        (sync_users_partial_reconcile w c kernel (u ∷ []) b.store) h
        (λ r ok. partial-IsSound kernel (u ∷ []) b.store r h ok)
  call-IsSound kernel (users_sync us) b canonical h =
      settled kernel (remembering w c kernel us true b) (sync_users_full w c kernel us b.store) h
        (λ r ok. full-IsSound kernel us b.store r canonical h ok)
  call-IsSound kernel (users_update us) b canonical h =
      settled kernel (remembering w c kernel us false b)
        (sync_users_partial_reconcile w c kernel us b.store) h
        (λ r ok. partial-IsSound kernel us b.store r h ok)
  call-IsSound kernel (users_update_and_restart us) b canonical h =
      restarted kernel
        (settle w c kernel (remembering w c kernel us true b)
          (sync_users_partial_reconcile w c kernel us b.store))
        (settled kernel (remembering w c kernel us true b)
          (sync_users_partial_reconcile w c kernel us b.store) h
          (λ r ok. partial-IsSound kernel us b.store r h ok))

  -- Whatever calls the panel makes and whatever the kernel answers, a store that is one to one, with
  -- one peer for each key and each peer under its own key, stays so, when the public keys of the
  -- calls' users are written as they are printed.
  pub calls-IsSound :
      (xs : List (Kernel Key × Call)) (b : WgState Key)
      → All (λ x. All (HasCanonicalKey w c) (users_of_call x.1)) xs
      → IsSound b.store
      → IsSound (calls xs b).store
  unfolding calls
  calls-IsSound [] b canonical h = h
  calls-IsSound ((kernel, x) ∷ xs) b (first, rest) h =
      calls-IsSound xs (call kernel x b) rest (call-IsSound kernel x b first h)
