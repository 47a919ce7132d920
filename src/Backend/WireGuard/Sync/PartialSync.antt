-- ===== src/Backend/WireGuard/Sync/PartialSync.antt =====
-- backend/wireguard/user_partial_sync.go: the owners of the keys after the difference between the
-- touched users' peers and the desired ones is applied.
use hpxnode.Prelude.{
  Bool, true, false, Option, none, some, String, string_eq, ◌==◌, if◌then◌else◌, is_some, arith,
  Bool-cases, Option-cases, ◌≡◌, refl, sym, ap, ◌∙◌, subst, inl, inr,
}
use text.Mathlib.TextEquality.{eq_iff}
use mathlib.Core.Option.{some-injective}
use hpxnode.Prelude.Dict.{Dict, elem, lookup, keys, IsDict}
use hpxnode.Prelude.DictLaws.{elem-keys}
use hpxnode.Prelude.Sort.{sort_strings, elem-sort_strings}
use hpxnode.Backend.WireGuard.PeerStore.{PeerInfo, PeerStore, apply_changes}
use hpxnode.Backend.WireGuard.OneToOne.{owner, IsOneToOne}
use hpxnode.Backend.WireGuard.Sync.Owners.{
  AreKeyed, AreDistinct, taken_over, upserted, upserted-kept, upserted-found, taken_over_own,
  owner-apply_changes,
}
use hpxnode.Backend.WireGuard.Sync.Desired.{Wire, DesiredPeer, email_of_desired}
use hpxnode.Backend.WireGuard.Sync.Diff.{build_sync_diff, target_of, compare_all, peers_at}
use hpxnode.Backend.WireGuard.Sync.DiffExact.{
  has_nets, wanted_upsert, wanted_removal, lookup-compare_all,
}
use hpxnode.Backend.WireGuard.Sync.Target.{
  peer_of, peer_of_desired, lookup-target_of, target_of-IsDict, target_of-found,
}
use hpxnode.Backend.WireGuard.Sync.DiffLists.{ReadsPrinted, elem-remove_keys}
use hpxnode.Backend.WireGuard.Sync.Touched.{subset_for-IsDict, subset_for-owner, subset_for-found}
use hpxnode.Backend.WireGuard.Sync.UserSync.{subset_for}

-- The owner of a key after the synchronization, of the user that desires it and the old owner: a
-- touched user loses a key that it no longer desires.
abbrev pub left_to : Dict String (Unit {0}) → Option String → Option String → Option String
left_to touched (some email) o = some email
left_to touched none none = none
left_to touched none (some email) = if is_some (lookup email touched) then none else some email

either_none : (b : Bool) → (if◌then◌else◌ {A = Option String} b none none) ≡ none
either_none true = refl
either_none false = refl

module _ {Key : Type 0} (w : Wire Key) where
  of_target :
      (o t : Option (PeerInfo Key)) (p : PeerInfo Key) → wanted_upsert w o t ≡ some p → t ≡ some p
  of_target o none p h = absurd (cc h)
  of_target none (some t) p h = ground (arith, h)
  of_target (some q) (some t) p h = ground (arith, h)

  -- A target that calls for no upsert is there, with its user.
  up_to_date :
      (o : Option (PeerInfo Key)) (t : PeerInfo Key)
      → has_nets w t ≡ true
      → wanted_upsert w o (some t) ≡ none
      → (p : PeerInfo Key) × (o ≡ some p) × (p.email ≡ t.email)
  up_to_date none t nets h = absurd (cc (rw nets at h))
  up_to_date (some p) t nets h = (p, refl, ground (arith, eq_iff p.email t.email, nets, h))

  module _ (psk : Option Key) (s : PeerStore Key) (one : IsOneToOne s)
      (keyed : AreKeyed w.key_string s.peers) (reads : ReadsPrinted w)
      (desired : Dict String (DesiredPeer Key)) (e : IsDict desired)
      (keyed_target : AreKeyed w.key_string (target_of desired))
      (distinct : AreDistinct w.key_string (target_of desired))
      (nets : (k : String) (p : PeerInfo Key)
        → lookup k (target_of desired) ≡ some p
        → has_nets w p ≡ true)
      (touched : Dict String (Unit {0}))
      (touches : (k : String) (d : DesiredPeer Key)
        → lookup k desired ≡ some d
        → is_some (lookup d.email touched) ≡ true) where
    abbrev existing : Dict String (PeerInfo Key)
    existing = subset_for w s (keys touched)

    abbrev upserts : Dict String (PeerInfo Key)
    upserts = (compare_all w psk existing (target_of desired)).upserts

    existing-AreKeyed : AreKeyed w.key_string existing
    existing-AreKeyed k p found = (subset_for-owner w s one keyed (keys touched) k p found).2

    upserts_lem :
        (k : String)
        → lookup k upserts ≡ wanted_upsert w (lookup k existing) (lookup k (target_of desired))
    upserts_lem k =
        (lookup-compare_all w psk existing (target_of desired) k
          (subset_for-IsDict w s one keyed (keys touched)) (target_of-IsDict desired e)).0

    upserts-target :
        (k : String) (p : PeerInfo Key)
        → lookup k upserts ≡ some p
        → lookup k (target_of desired) ≡ some p
    upserts-target k p found =
        of_target (lookup k existing) (lookup k (target_of desired)) p (sym (upserts_lem k) ∙ found)

    upserts-AreKeyed : AreKeyed w.key_string upserts
    upserts-AreKeyed k p found = keyed_target k p (upserts-target k p found)

    upserts-AreDistinct : AreDistinct w.key_string upserts
    upserts-AreDistinct j k p q at_j at_k =
        distinct j k p q (upserts-target j p at_j) (upserts-target k q at_k)

    upserts-touched :
        (k : String) (q : PeerInfo Key)
        → lookup k upserts ≡ some q
        → is_some (lookup q.email touched) ≡ true
    upserts-touched k q found =
        let (d, there, is) = target_of-found k desired q (upserts-target k q found) in
        subst (λ x. is_some (lookup x.email touched) ≡ true)
          (some-injective (peer_of_desired d) q is) (touches k d there)

    abbrev after : Option String → String → Option String
    after o key = upserted w.key_string (peers_at (sort_strings (keys upserts)) upserts) key o

    -- A key that some user desires.
    after-desired :
        (key : String) (d : DesiredPeer Key)
        → lookup key desired ≡ some d
        → after (owner s key) key ≡ some d.email
    after-desired key d found =
        let t = peer_of_desired d in
        let there : lookup key (target_of desired) ≡ some t =
          lookup-target_of key desired ∙ ap peer_of found in
        elim (Option-cases (lookup key upserts)) [
          | inr (p, new) ↦
              upserted-found w.key_string upserts upserts-AreKeyed (sort_strings (keys upserts)) key
                p (owner s key) upserts-AreDistinct new
                (elem-sort_strings key (keys upserts) ∙ (elem-keys key upserts ∙ ap is_some new))
              ∙ ap (λ o. email_of_or o) (sym (upserts-target key p new) ∙ there)
          | inl out ↦
              let (p, is, same) = up_to_date (lookup key existing) t (nets key t there) (
                ap (wanted_upsert w (lookup key existing)) (sym there)
                ∙ (sym (upserts_lem key) ∙ out)) in
              let owned =
                (subset_for-owner w s one keyed (keys touched) key p is).0 ∙ ap some same in
              ap (λ o. after o key) owned
              ∙ upserted-kept w.key_string upserts upserts-AreKeyed (sort_strings (keys upserts))
                  key (some d.email)
                  (λ k q at.
                    taken_over_own w.key_string (target_of desired) keyed_target key t distinct
                      there k q (upserts-target k q at))
        ]
      where
        email_of_or : Option (PeerInfo Key) → Option String
        email_of_or none = none
        email_of_or (some p) = some p.email

    -- A key that no user desires is no key of an upsert.
    not_upserted :
        (key : String)
        → lookup key desired ≡ none
        → (k : String) (q : PeerInfo Key) → lookup k upserts ≡ some q
        → (k == key) ≡ false
    not_upserted key out k q found = elim (Bool-cases (k == key)) [
      | inl same ↦ absurd (
          cc (
            ap (λ j. lookup j (target_of desired)) (sym ((eq_iff k key).0 same)),
            upserts-target k q found,
            lookup-target_of key desired,
            ap peer_of out,
          ))
      | inr apart ↦ apart
    ]

    -- An owner that no upsert takes over keeps a key that no user desires.
    after-kept :
        (key : String) (o : Option String)
        → lookup key desired ≡ none
        → ((email : String) → o ≡ some email → is_some (lookup email touched) ≡ false)
        → after o key ≡ o
    after-kept key o out free =
        upserted-kept w.key_string upserts upserts-AreKeyed (sort_strings (keys upserts)) key o
          (λ k q found. stays k q (not_upserted key out k q found) (upserts-touched k q found))
      where
        stays :
            (k : String) (q : PeerInfo Key)
            → (k == key) ≡ false
            → is_some (lookup q.email touched) ≡ true
            → taken_over (k == key) q.email o ≡ o
        stays k q apart here = rw apart (elim (Option-cases o) [
          | inl gone ↦ rw gone refl
          | inr (email, is) ↦ rw is (
              ground (
                arith,
                eq_iff email q.email,
                free email is,
                here,
                ap (λ x. is_some (lookup x touched)),
              ))
        ])

    removed_lem :
        (key : String)
        → lookup key desired ≡ none
        → elem key (build_sync_diff w psk existing desired).remove_keys
          ≡ is_some (lookup key existing)
    removed_lem key out =
        elem-remove_keys w psk existing desired (subset_for-IsDict w s one keyed (keys touched)) e
          key reads existing-AreKeyed
        ∙ ap (λ t. is_some (wanted_removal w (lookup key existing) t))
            (lookup-target_of key desired ∙ ap peer_of out)

    -- A key of a touched user that it no longer desires is removed.
    existing-touched :
        (key email : String)
        → owner s key ≡ some email
        → is_some (lookup key existing) ≡ is_some (lookup email touched)
    existing-touched key email owned = elim (Bool-cases (is_some (lookup email touched))) [
      | inl here ↦
          subset_for-found w s one keyed (keys touched) key email owned
            (elem-keys email touched ∙ here)
          ∙ sym here
      | inr away ↦ elim (Option-cases (lookup key existing)) [
        | inl gone ↦ ap is_some gone ∙ sym away
        | inr (p, found) ↦
            let (owned', here, own) = subset_for-owner w s one keyed (keys touched) key p found in
            absurd (
              cc (
                sym (elem-keys p.email touched) ∙ here,
                ap (λ x. is_some (lookup x touched))
                    (some-injective p.email email (sym owned' ∙ owned)),
                away,
              ))
      ]
    ]

    after-free :
        (key : String) (o : Option String)
        → owner s key ≡ o
        → lookup key desired ≡ none
        → after
            (if elem key (build_sync_diff w psk existing desired).remove_keys then none else o)
            key
          ≡ left_to touched none o
    after-free key none is out =
        ap (λ o. after o key)
          (either_none (elem key (build_sync_diff w psk existing desired).remove_keys))
        ∙ after-kept key none out (λ email found. absurd (cc found))
    after-free key (some email) is out =
        rw (removed_lem key out, existing-touched key email is)
          (elim (Bool-cases (is_some (lookup email touched))) [
            | inl here ↦ rw here (after-kept key none out (λ x found. absurd (cc found)))
            | inr away ↦ rw away (
                after-kept key (some email) out (λ x same.
                  subst (λ y. is_some (lookup y touched) ≡ false) (some-injective email x same)
                    away))
          ])

    not_removed :
        (key : String) (d : DesiredPeer Key)
        → lookup key desired ≡ some d
        → elem key (build_sync_diff w psk existing desired).remove_keys ≡ false
    not_removed key d found =
        elem-remove_keys w psk existing desired (subset_for-IsDict w s one keyed (keys touched)) e
          key reads existing-AreKeyed
        ∙ ap (λ t. is_some (wanted_removal w (lookup key existing) t))
            (lookup-target_of key desired ∙ ap peer_of found)

    start :
        (key : String)
        → owner
            (apply_changes w.key_string s
              (build_sync_diff w psk existing desired).remove_keys
              (build_sync_diff w psk existing desired).upsert_peers).0
            key
          ≡ after
              (if elem key (build_sync_diff w psk existing desired).remove_keys
                then none
                else owner s key)
              key
    unfolding build_sync_diff
    start key =
        owner-apply_changes w.key_string s (build_sync_diff w psk existing desired).remove_keys
          (build_sync_diff w psk existing desired).upsert_peers key one

    -- The difference leaves each key as left_to says.
    pub owner-diff :
        (key : String)
        → owner
            (apply_changes w.key_string s
              (build_sync_diff w psk existing desired).remove_keys
              (build_sync_diff w psk existing desired).upsert_peers).0
            key
          ≡ left_to touched (email_of_desired w (lookup key desired)) (owner s key)
    owner-diff key = elim (Option-cases (lookup key desired)) [
      | inl out ↦
          start key
          ∙ (after-free key (owner s key) refl out
              ∙ ap (λ x. left_to touched (email_of_desired w x) (owner s key)) (sym out))
      | inr (d, found) ↦
          start key
          ∙ (ap (λ b. after (if b then none else owner s key) key) (not_removed key d found)
              ∙ (after-desired key d found
                  ∙ ap (λ x. left_to touched (email_of_desired w x) (owner s key)) (sym found)))
    ]
