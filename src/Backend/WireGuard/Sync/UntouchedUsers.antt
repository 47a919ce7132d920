-- ===== src/Backend/WireGuard/Sync/UntouchedUsers.antt =====
-- backend/wireguard/user_partial_sync.go: the owners and the users' keys after a partial
-- synchronization.
use hpxnode.Prelude.{
  true, false, List, [], ◌∷◌, Option, none, some, String, string_eq, ◌==◌, ltb, length, is_some,
  All, arith, Bool-cases, ◌≡◌, refl, sym, ap, ◌∙◌, subst, inl, inr, ◌↔◌,
}
use text.Mathlib.TextEquality.{eq_iff}
use mathlib.Core.Option.{some-injective}
use hpxnode.Prelude.Dict.{Dict, lookup, IsDict}
use hpxnode.Backend.OpenVpn.Users.{User}
use hpxnode.Backend.WireGuard.PeerStore.{PeerStore, apply_changes, get_email_map}
use hpxnode.Backend.WireGuard.OneToOne.{owner, key_of, IsOneToOne, apply_changes-IsOneToOne}
use hpxnode.Backend.WireGuard.Replace.{lookup-get_email_map}
use hpxnode.Backend.WireGuard.Sync.Owners.{AreKeyed}
use hpxnode.Backend.WireGuard.Sync.Desired.{
  Wire, Config, DesiredPeer, Outcome, done, failed, and_then, normalize_users, last_by_email,
  collect_desired_peers, email_of_desired,
}
use hpxnode.Backend.WireGuard.Sync.Diff.{SyncDiff, build_sync_diff}
use hpxnode.Backend.WireGuard.Sync.Claims.{Holds}
use hpxnode.Backend.WireGuard.Sync.Intended.{
  AreOf, collect_desired_peers-AreOf, collect_desired_peers-IsDict, normalize_users-IsListed,
  last_by_email-All, last_by_email-IsDict,
}
use hpxnode.Backend.WireGuard.Sync.Target.{
  HasCanonicalKey, target_of-AreKeyed, target_of-AreDistinct, target_of-has_nets,
}
use hpxnode.Backend.WireGuard.Sync.DiffLists.{ReadsPrinted}
use hpxnode.Backend.WireGuard.Sync.Touched.{lookup-touched_of}
use hpxnode.Backend.WireGuard.Sync.PartialSync.{left_to, owner-diff}
use hpxnode.Backend.WireGuard.Sync.FullSync.{store_or, and_then_done}
use hpxnode.Backend.WireGuard.Sync.UserSync.{
  Kernel, Change, Synced, commit, apply_peers, touched_of, blocks, check_owners, change_peers,
  build_existing_peers_subset_for_touched, sync_users_partial_reconcile,
}

same_option : (a b : Option String) → ((x : String) → (a ≡ some x) ↔ (b ≡ some x)) → a ≡ b
same_option none none h = refl
same_option (some x) b h = sym ((h x).0 refl)
same_option none (some x) h = (h x).1 refl

module _ {Key : Type 0} where
  pub change_peers-store :
      (w : Wire Key) (c : Config Key) (kernel : Kernel Key) (s : PeerStore Key)
      (diff : SyncDiff Key) (r : Synced Key)
      → change_peers w c kernel s diff ≡ done r
      → (apply_changes w.key_string s diff.remove_keys diff.upsert_peers).0 ≡ r.store
  unfolding change_peers store_or apply_changes
  change_peers-store w c kernel s diff r ok =
      let next = apply_changes w.key_string s diff.remove_keys diff.upsert_peers in
      let made : Change Key → Synced Key =
        λ change. record { store = next.0; changes = change ∷ []; removed_stats = next.1 } in
      elim (Bool-cases (ltb 0 (length diff.peer_configs))) [
        | inl many ↦
            ap (store_or s)
              (and_then_done (commit kernel (apply_peers diff.peer_configs)) made r
                (rw many at ok)).1
        | inr few ↦ ap (store_or s) (rw few at ok)
      ]

  -- What a partial synchronization of these users checked and did, when it succeeded.
  pub partial_result :
      (w : Wire Key) (c : Config Key) (kernel : Kernel Key) (us : List User) (s : PeerStore Key)
      (desired : Dict String (DesiredPeer Key)) (r : Synced Key)
      → collect_desired_peers w c (normalize_users us c.proxy_field) ≡ done desired
      → sync_users_partial_reconcile w c kernel us s ≡ done r
      → (check_owners (get_email_map s) (touched_of (normalize_users us c.proxy_field)) desired
          ≡ done tt)
        × (change_peers w c kernel s (
              build_sync_diff w c.preshared_key
                (build_existing_peers_subset_for_touched w s
                  (touched_of (normalize_users us c.proxy_field)))
                desired)
            ≡ done r)
  unfolding sync_users_partial_reconcile
  partial_result w c kernel us s desired r collected ok =
      let checked =
        check_owners (get_email_map s) (touched_of (normalize_users us c.proxy_field)) desired in
      let next = change_peers w c kernel s (
        build_sync_diff w c.preshared_key
          (build_existing_peers_subset_for_touched w s
            (touched_of (normalize_users us c.proxy_field)))
          desired) in
      both checked next r (rw collected at ok)
    where
      both :
          (o : Outcome (Unit {0})) (next : Outcome (Synced Key)) (r : Synced Key)
          → and_then o (λ x. next) ≡ done r
          → (o ≡ done tt) × (next ≡ done r)
      both (done tt) next r h = (refl, h)
      both (failed e) next r h = absurd (cc h)

  module _ (w : Wire Key) (c : Config Key) (us : List User)
      (desired : Dict String (DesiredPeer Key))
      (collected : collect_desired_peers w c (normalize_users us c.proxy_field)
        ≡ done desired) where
    abbrev named : Dict String User
    named = last_by_email us c.proxy_field []

    abbrev touched : Dict String (Unit {0})
    touched = touched_of (normalize_users us c.proxy_field)

    of : AreOf w c named desired
    of = subst (Holds (AreOf w c named)) collected (
        collect_desired_peers-AreOf w c named (normalize_users us c.proxy_field)
          (normalize_users-IsListed us c.proxy_field))

    named-AreNamed : (email : String) (u : User) → lookup email named ≡ some u → u.email ≡ email
    named-AreNamed email u found =
        (last_by_email-All (λ v. Unit {0}) us c.proxy_field (any us) email u found).0
      where
        any : (vs : List User) → All (λ v. Unit {0}) vs
        any [] = tt
        any (v ∷ vs) = (tt, any vs)

    -- A user with a desired peer is touched.
    touches :
        (k : String) (d : DesiredPeer Key)
        → lookup k desired ≡ some d
        → is_some (lookup d.email touched) ≡ true
    unfolding normalize_users
    touches k d found =
        let (u, p, (at, has), (same, parses), some_nets) = of k d found in
        lookup-touched_of named d.email u (last_by_email-IsDict us c.proxy_field) named-AreNamed at

  pub owner-sync_users_partial_reconcile :
      (w : Wire Key) (c : Config Key) (kernel : Kernel Key) (us : List User) (s : PeerStore Key)
      (desired : Dict String (DesiredPeer Key)) (r : Synced Key) (key : String)
      → ReadsPrinted w
      → IsOneToOne s
      → AreKeyed w.key_string s.peers
      → All (HasCanonicalKey w c) us
      → collect_desired_peers w c (normalize_users us c.proxy_field) ≡ done desired
      → sync_users_partial_reconcile w c kernel us s ≡ done r
      → owner r.store key
        ≡ left_to
            (touched_of (normalize_users us c.proxy_field))
            (email_of_desired w (lookup key desired))
            (owner s key)
  unfolding build_existing_peers_subset_for_touched
  owner-sync_users_partial_reconcile w c kernel us s desired r key reads one keyed canonical
        collected ok =
      let named = last_by_email us c.proxy_field [] in
      let normalized = normalize_users us c.proxy_field in
      let of' = of w c us desired collected in
      let e : IsDict desired =
        subst (Holds IsDict) collected (collect_desired_peers-IsDict w c named normalized) in
      let keyed_target = target_of-AreKeyed w c named desired of' (λ email u found.
        (last_by_email-All (HasCanonicalKey w c) us c.proxy_field canonical email u found).1) in
      let changed = (partial_result w c kernel us s desired r collected ok).1 in
      ap (λ x. owner x key)
        (sym (
          change_peers-store w c kernel s
            (build_sync_diff w c.preshared_key
              (build_existing_peers_subset_for_touched w s (touched_of normalized)) desired)
            r changed))
      ∙ owner-diff w c.preshared_key s one keyed reads desired e keyed_target
          (target_of-AreDistinct w c named desired of') (target_of-has_nets w c named desired of')
          (touched_of normalized) (touches w c us desired collected) key

  check_owners-blocks :
      (owners : Dict String String) (touched : Dict String (Unit {0}))
      (desired : Dict String (DesiredPeer Key)) (key : String) (d : DesiredPeer Key)
      → check_owners owners touched desired ≡ done tt
      → lookup key desired ≡ some d
      → blocks d.email touched (lookup key owners) ≡ false
  unfolding check_owners lookup
  check_owners-blocks owners touched [] key d ok found = absurd (cc found)
  check_owners-blocks owners touched ((j, x) ∷ desired) key d ok found =
      elim (Bool-cases (blocks x.email touched (lookup j owners))) [
        | inl bad ↦ absurd (cc (rw bad at ok))
        | inr fine ↦ elim (Bool-cases (j == key)) [
          | inl same ↦
              subst (λ k. blocks d.email touched (lookup k owners) ≡ false) ((eq_iff j key).0 same)
                (subst (λ y. blocks y.email touched (lookup j owners) ≡ false)
                  (some-injective x d (rw same at found)) fine)
          | inr apart ↦
              check_owners-blocks owners touched desired key d (rw fine at ok) (rw apart at found)
        ]
      ]

  owner_untouched :
      (touched : Dict String (Unit {0})) (dd : Option (DesiredPeer Key)) (w : Wire Key)
      (o : Option String) (email : String)
      → is_some (lookup email touched) ≡ false
      → ((d : DesiredPeer Key)
          → dd ≡ some d
          → (is_some (lookup d.email touched) ≡ true) × (blocks d.email touched o ≡ false))
      → (left_to touched (email_of_desired w dd) o ≡ some email) ↔ (o ≡ some email)
  owner_untouched touched none w none email away h = ground arith
  owner_untouched touched none w (some e) email away h =
      ground (arith, away, eq_iff e email, ap (λ x. is_some (lookup x touched)))
  owner_untouched touched (some d) w none email away h =
      ground (arith, away, (h d refl).0, eq_iff d.email email, ap (λ x. is_some (lookup x touched)))
  owner_untouched touched (some d) w (some e) email away h = ground (
    arith,
    away,
    (h d refl).0,
    (h d refl).1,
    eq_iff d.email email,
    eq_iff e email,
    eq_iff e d.email,
    ap (λ x. is_some (lookup x touched)),
  )

  pub sync_users_partial_reconcile-IsOneToOne :
      (w : Wire Key) (c : Config Key) (kernel : Kernel Key) (us : List User) (s : PeerStore Key)
      (desired : Dict String (DesiredPeer Key)) (r : Synced Key)
      → IsOneToOne s
      → collect_desired_peers w c (normalize_users us c.proxy_field) ≡ done desired
      → sync_users_partial_reconcile w c kernel us s ≡ done r
      → IsOneToOne r.store
  sync_users_partial_reconcile-IsOneToOne w c kernel us s desired r one collected ok =
      let diff =
        build_sync_diff w c.preshared_key
          (build_existing_peers_subset_for_touched w s
            (touched_of (normalize_users us c.proxy_field)))
          desired in
      subst IsOneToOne
        (change_peers-store w c kernel s diff r
          (partial_result w c kernel us s desired r collected ok).1)
        (apply_changes-IsOneToOne w.key_string s diff.remove_keys diff.upsert_peers one)

  -- A partial synchronization that succeeds leaves a user that the call does not name its key, and
  -- one without a key without one. The store is one to one, with one peer for each key and each
  -- peer under its own, the public keys are written as they are printed, and the printed text of
  -- a key is parsed.
  pub key_of-sync_users_partial_reconcile :
      (w : Wire Key) (c : Config Key) (kernel : Kernel Key) (us : List User) (s : PeerStore Key)
      (desired : Dict String (DesiredPeer Key)) (r : Synced Key) (email : String)
      → ReadsPrinted w
      → IsOneToOne s
      → IsDict s.peers
      → AreKeyed w.key_string s.peers
      → All (HasCanonicalKey w c) us
      → collect_desired_peers w c (normalize_users us c.proxy_field) ≡ done desired
      → sync_users_partial_reconcile w c kernel us s ≡ done r
      → is_some (lookup email (touched_of (normalize_users us c.proxy_field))) ≡ false
      → key_of r.store email ≡ key_of s email
  key_of-sync_users_partial_reconcile w c kernel us s desired r email reads one dict keyed canonical
        collected ok away =
      let after =
        sync_users_partial_reconcile-IsOneToOne w c kernel us s desired r one collected ok in
      same_option (key_of r.store email) (key_of s email) (λ key.
        let owners =
          owner-sync_users_partial_reconcile w c kernel us s desired r key reads one keyed canonical
            collected ok in
        let allowed : (d : DesiredPeer Key)
            → lookup key desired ≡ some d
            → (is_some (lookup d.email (touched_of (normalize_users us c.proxy_field))) ≡ true)
              × (blocks d.email (touched_of (normalize_users us c.proxy_field)) (owner s key)
                  ≡ false) =
          λ d found. (
            touches w c us desired collected key d found,
            subst (λ o. blocks d.email (touched_of (normalize_users us c.proxy_field)) o ≡ false)
                (lookup-get_email_map s key dict)
                (check_owners-blocks (get_email_map s)
                  (touched_of (normalize_users us c.proxy_field)) desired key d
                  (partial_result w c kernel us s desired r collected ok).0 found),
          ) in
        let same =
          owner_untouched (touched_of (normalize_users us c.proxy_field)) (lookup key desired) w
            (owner s key) email away allowed in
        (
          (λ h. (one email key).1 (same.0 (sym owners ∙ (after email key).0 h))),
          (λ h. (after email key).1 (owners ∙ same.1 ((one email key).0 h))),
        ))
