-- ===== src/Backend/WireGuard/Sync/Owners.antt =====
-- backend/wireguard/peer_store.go: what the operations do to the map from keys to their owners.
use hpxnode.Prelude.{
  Bool, true, List, [], ◌∷◌, Option, none, some, String, string_eq, ◌==◌, if◌then◌else◌, arith,
  Bool-cases, Option-cases, ◌≡◌, refl, ap, ◌∙◌, inl, inr,
}
use text.Mathlib.TextEquality.{eq_iff}
use hpxnode.Prelude.Dict.{Dict, elem, lookup, lookup-insert, lookup-delete, beq_refl}
use hpxnode.Backend.WireGuard.PeerStore.{
  PeerInfo, PeerStore, email_of, remove_found, remove_keys, drop_old_key, upsert, upsert_peers,
  apply_changes,
}
use hpxnode.Backend.WireGuard.OneToOne.{
  owner, key_of, holds, holds_iff, IsOneToOne, lookup-kept, upsert-IsOneToOne,
  remove_keys-IsOneToOne,
}
use hpxnode.Backend.WireGuard.Sync.Diff.{peers_at}

-- The owner after the peer of one user is stored under one key.
abbrev pub taken_over : Bool → String → Option String → Option String
taken_over here email o = if here then some email else (if holds o email then none else o)

module _ {Key : Type 0} where
  owner-remove_found :
      (s : PeerStore Key) (k key : String)
      → owner (remove_found s k (lookup k s.peers)) key ≡ (if k == key then none else owner s key)
  unfolding owner
  owner-remove_found s k key = elim (Option-cases (lookup k s.peers)) [
    | inl out ↦ rw out (ground (arith, out, eq_iff k key, ap (λ j. lookup j s.peers)))
    | inr (p, found) ↦ rw found (ground (arith, lookup-delete {V = PeerInfo Key} k key s.peers))
  ]

  pub owner-remove_keys :
      (s : PeerStore Key) (ks : List String) (key : String)
      → owner (remove_keys s ks).0 key ≡ (if elem key ks then none else owner s key)
  unfolding remove_keys elem
  owner-remove_keys s [] key = refl
  owner-remove_keys s (k ∷ ks) key =
      let next = remove_found s k (lookup k s.peers) in
      ground (arith, owner-remove_keys next ks key, owner-remove_found s k key)

  module _ (key_string : Key → String) where
    pub owner-upsert :
        (s : PeerStore Key) (p : PeerInfo Key) (key : String)
        → IsOneToOne s
        → owner (upsert key_string s p) key
          ≡ taken_over (key_string p.public_key == key) p.email (owner s key)
    unfolding upsert owner key_of
    owner-upsert s p key one =
        let new = key_string p.public_key in
        ground (
          arith,
          one p.email key,
          lookup-insert {V = PeerInfo Key} new key p
              (drop_old_key new (lookup p.email s.email_to_key) s.peers),
          lookup-kept new key (lookup p.email s.email_to_key) s.peers,
          holds_iff (lookup p.email s.email_to_key) key,
          holds_iff (lookup p.email s.email_to_key) new,
          holds_iff (email_of (lookup key s.peers)) p.email,
          eq_iff new key,
        )

    unfoldable pub upserted : List (Option (PeerInfo Key)) → String → Option String → Option String
    upserted [] key o = o
    upserted (none ∷ ps) key o = upserted ps key o
    upserted (some p ∷ ps) key o =
        upserted ps key (taken_over (key_string p.public_key == key) p.email o)

    owner-upsert_peers :
        (ps : List (Option (PeerInfo Key))) (s : PeerStore Key) (key : String)
        → IsOneToOne s
        → owner (upsert_peers key_string s ps) key ≡ upserted ps key (owner s key)
    unfolding upsert_peers upserted
    owner-upsert_peers [] s key one = refl
    owner-upsert_peers (none ∷ ps) s key one = owner-upsert_peers ps s key one
    owner-upsert_peers (some p ∷ ps) s key one =
        owner-upsert_peers ps (upsert key_string s p) key (upsert-IsOneToOne key_string s p one)
        ∙ ap (upserted ps key) (owner-upsert s p key one)

    -- The owners after a change of the store.
    pub owner-apply_changes :
        (s : PeerStore Key) (ks : List String) (ps : List (Option (PeerInfo Key))) (key : String)
        → IsOneToOne s
        → owner (apply_changes key_string s ks ps).0 key
          ≡ upserted ps key (if elem key ks then none else owner s key)
    unfolding apply_changes
    owner-apply_changes s ks ps key one =
        owner-upsert_peers ps (remove_keys s ks).0 key (remove_keys-IsOneToOne ks s one)
        ∙ ap (upserted ps key) (owner-remove_keys s ks key)

    -- Each peer stands under its own key.
    abbrev pub AreKeyed : Dict String (PeerInfo Key) → Type 0
    AreKeyed m = (k : String) (p : PeerInfo Key) → lookup k m ≡ some p → key_string p.public_key ≡ k

    -- No two peers have one user.
    abbrev pub AreDistinct : Dict String (PeerInfo Key) → Type 0
    AreDistinct m =
        (j k : String) (p q : PeerInfo Key)
        → lookup j m ≡ some p
        → lookup k m ≡ some q
        → p.email ≡ q.email
        → j ≡ k

    module _ (m : Dict String (PeerInfo Key)) (keyed : AreKeyed m) where
      -- An owner that none of the peers under the keys takes over stays.
      pub upserted-kept :
          (ks : List String) (key : String) (o : Option String)
          → ((k : String) (p : PeerInfo Key)
              → lookup k m ≡ some p
              → taken_over (k == key) p.email o ≡ o)
          → upserted (peers_at ks m) key o ≡ o
      unfolding upserted peers_at
      upserted-kept [] key o h = refl
      upserted-kept (k ∷ ks) key o h = elim (Option-cases (lookup k m)) [
        | inl out ↦ rw out (upserted-kept ks key o h)
        | inr (p, found) ↦ rw (found, keyed k p found, h k p found) (upserted-kept ks key o h)
      ]

      pub taken_over_own :
          (key : String) (p : PeerInfo Key)
          → AreDistinct m
          → lookup key m ≡ some p
          → (k : String) (q : PeerInfo Key) → lookup k m ≡ some q
          → taken_over (k == key) q.email (some p.email) ≡ some p.email
      taken_over_own key p distinct found k q there = ground (
        arith,
        eq_iff k key,
        eq_iff p.email q.email,
        ap (λ j. lookup j m),
        distinct key k p q found there,
        found,
        there,
      )

      -- A key of the list gets the peer's user as its owner.
      pub upserted-found :
          (ks : List String) (key : String) (p : PeerInfo Key) (o : Option String)
          → AreDistinct m
          → lookup key m ≡ some p
          → elem key ks ≡ true
          → upserted (peers_at ks m) key o ≡ some p.email
      unfolding upserted peers_at elem
      upserted-found [] key p o distinct found h = absurd (cc h)
      upserted-found (k ∷ ks) key p o distinct found h = elim (Bool-cases (k == key)) [
        | inl same ↦
            let is = (eq_iff k key).0 same in
            rw (ap (λ j. lookup j m) is ∙ found, keyed key p found, beq_refl key)
              (upserted-kept ks key (some p.email) (taken_over_own key p distinct found))
        | inr apart ↦ elim (Option-cases (lookup k m)) [
          | inl out ↦ rw out (upserted-found ks key p o distinct found (rw apart at h))
          | inr (q, there) ↦ rw there (
              upserted-found ks key p (taken_over (key_string q.public_key == key) q.email o)
                distinct found (rw apart at h))
        ]
      ]
