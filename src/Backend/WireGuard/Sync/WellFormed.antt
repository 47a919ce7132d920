-- ===== src/Backend/WireGuard/Sync/WellFormed.antt =====
-- backend/wireguard/peer_store.go and user.go: what holds of the store whatever calls the panel makes.
use hpxnode.Prelude.{
  true, false, not, List, [], ◌∷◌, Option, none, some, String, string_eq, ◌==◌, if◌then◌else◌,
  is_some, arith, Bool-cases, ◌≡◌, refl, sym, ap, ◌∙◌, subst, inl, inr,
}
use text.Mathlib.TextEquality.{eq_iff}
use hpxnode.Prelude.Dict.{
  Dict, lookup, insert, delete, IsDict, lookup-insert, lookup-delete, insert-IsDict, delete-IsDict,
  beq_refl,
}
use hpxnode.Prelude.DictLaws.{insert-cases, lookup_rest}
use hpxnode.Backend.WireGuard.PeerStore.{
  PeerInfo, PeerStore, new_peer_store, remove_found, remove_keys, drop_old_key, upsert,
  upsert_peers, apply_changes, store, init, replace_all,
}
use hpxnode.Backend.WireGuard.OneToOne.{owner, key_of, IsOneToOne}
use hpxnode.Backend.WireGuard.Replace.{AreFresh, init-IsOneToOne, new_peer_store-IsOneToOne}
use hpxnode.Backend.WireGuard.Sync.Owners.{AreKeyed, AreDistinct}
use hpxnode.Backend.WireGuard.Sync.UserSync.{valid_targets}

module _ {Key : Type 0} (key_string : Key → String) where
  -- The map of peers has one entry for each key, and each peer under its own key.
  abbrev pub AreWellKeyed : Dict String (PeerInfo Key) → Type 0
  AreWellKeyed m = IsDict m × AreKeyed key_string m

  insert-AreWellKeyed :
      (p : PeerInfo Key) (m : Dict String (PeerInfo Key))
      → AreWellKeyed m
      → AreWellKeyed (insert (key_string p.public_key) p m)
  insert-AreWellKeyed p m (d, keyed) = (
    insert-IsDict (key_string p.public_key) p m d,
    (λ k q found. elim (insert-cases (key_string p.public_key) k p q m found) [
      | inl (same, this) ↦ subst (λ x. key_string x.public_key ≡ k) this same
      | inr before ↦ keyed k q before
    ]),
  )

  delete-AreWellKeyed :
      (key : String) (m : Dict String (PeerInfo Key)) → AreWellKeyed m → AreWellKeyed (delete key m)
  delete-AreWellKeyed key m (d, keyed) = (
    delete-IsDict key m d,
    (λ k q found. elim (Bool-cases (key == k)) [
      | inl same ↦ absurd (cc (found, rw same at (lookup-delete {V = PeerInfo Key} key k m)))
      | inr apart ↦ keyed k q (sym (rw apart at (lookup-delete {V = PeerInfo Key} key k m)) ∙ found)
    ]),
  )

  remove_keys-AreWellKeyed :
      (ks : List String) (s : PeerStore Key)
      → AreWellKeyed s.peers
      → AreWellKeyed (remove_keys s ks).0.peers
  unfolding remove_keys
  remove_keys-AreWellKeyed [] s h = h
  remove_keys-AreWellKeyed (k ∷ ks) s h =
      let next = remove_found s k (lookup k s.peers) in
      let rest = remove_keys next ks in
      elim (is_some (lookup k s.peers))
        as (λ b.
          let r : PeerStore Key × List String = if b then (rest.0, k ∷ rest.1) else rest in
          AreWellKeyed r.0.peers) [
            | true ↦ remove_keys-AreWellKeyed ks next (found (lookup k s.peers))
            | false ↦ remove_keys-AreWellKeyed ks next (found (lookup k s.peers))
          ]
    where
      found : (o : Option (PeerInfo Key)) → AreWellKeyed (remove_found s k o).peers
      found none = h
      found (some p) = delete-AreWellKeyed k s.peers h

  upsert_peers-AreWellKeyed :
      (ps : List (Option (PeerInfo Key))) (s : PeerStore Key)
      → AreWellKeyed s.peers
      → AreWellKeyed (upsert_peers key_string s ps).peers
  unfolding upsert_peers upsert
  upsert_peers-AreWellKeyed [] s h = h
  upsert_peers-AreWellKeyed (none ∷ ps) s h = upsert_peers-AreWellKeyed ps s h
  upsert_peers-AreWellKeyed (some p ∷ ps) s h =
      upsert_peers-AreWellKeyed ps (upsert key_string s p) (
        insert-AreWellKeyed p
          (drop_old_key (key_string p.public_key) (lookup p.email s.email_to_key) s.peers)
          (dropped (lookup p.email s.email_to_key)))
    where
      dropped :
          (o : Option String) → AreWellKeyed (drop_old_key (key_string p.public_key) o s.peers)
      dropped none = h
      dropped (some old) =
          elim (old == key_string p.public_key)
            as (λ b. AreWellKeyed (if not b then delete old s.peers else s.peers)) [
              | true ↦ h
              | false ↦ delete-AreWellKeyed old s.peers h
            ]

  pub apply_changes-AreWellKeyed :
      (s : PeerStore Key) (ks : List String) (ps : List (Option (PeerInfo Key)))
      → AreWellKeyed s.peers
      → AreWellKeyed (apply_changes key_string s ks ps).0.peers
  unfolding apply_changes
  apply_changes-AreWellKeyed s ks ps h =
      upsert_peers-AreWellKeyed ps (remove_keys s ks).0 (remove_keys-AreWellKeyed ks s h)

  init-AreWellKeyed :
      (ps : List (Option (PeerInfo Key))) (s : PeerStore Key)
      → AreWellKeyed s.peers
      → AreWellKeyed (init key_string s ps).peers
  unfolding init store
  init-AreWellKeyed [] s h = h
  init-AreWellKeyed (none ∷ ps) s h = init-AreWellKeyed ps s h
  init-AreWellKeyed (some p ∷ ps) s h =
      init-AreWellKeyed ps (store key_string s p) (insert-AreWellKeyed p s.peers h)

  pub new_peer_store-AreWellKeyed : AreWellKeyed (new_peer_store {Key = Key}).peers
  unfolding lookup
  new_peer_store-AreWellKeyed = (tt, (λ k q found. absurd (cc found)))

  pub replace_all-AreWellKeyed :
      (s : PeerStore Key) (ps : List (Option (PeerInfo Key)))
      → AreWellKeyed (replace_all key_string s ps).0.peers
  unfolding replace_all
  replace_all-AreWellKeyed s ps = init-AreWellKeyed ps new_peer_store new_peer_store-AreWellKeyed

  -- The targets' users and keys are new to the store.
  abbrev AreNew : PeerStore Key → Dict String (PeerInfo Key) → Type 0
  AreNew s m =
      (k : String) (p : PeerInfo Key)
      → lookup k m ≡ some p
      → (key_of s p.email ≡ none) × (owner s k ≡ none)

  store-AreNew :
      (s : PeerStore Key) (j : String) (p : PeerInfo Key) (m : Dict String (PeerInfo Key))
      → lookup j m ≡ none
      → key_string p.public_key ≡ j
      → AreDistinct key_string ((j, p) ∷ m)
      → AreNew s ((j, p) ∷ m)
      → AreNew (store key_string s p) m
  unfolding store key_of owner lookup
  store-AreNew s j p m new own distinct fresh k q found =
      let (no_key, no_owner) = fresh k q (lookup_rest j k p q m new found) in
      let differ = distinct j k p q (rw (beq_refl j) refl) (lookup_rest j k p q m new found) in
      (
        ground (
          arith,
          no_key,
          lookup-insert {V = String} p.email q.email (key_string p.public_key) s.email_to_key,
          eq_iff p.email q.email,
          differ,
          new,
          found,
          ap (λ i. lookup i m),
        ),
        ground (
          arith,
          no_owner,
          lookup-insert {V = PeerInfo Key} (key_string p.public_key) k p s.peers,
          eq_iff (key_string p.public_key) k,
          own,
          new,
          found,
          ap (λ i. lookup i m),
        ),
      )

  targets-AreFresh :
      (m : Dict String (PeerInfo Key)) (applied : Dict String (Unit {0})) (s : PeerStore Key)
      → AreWellKeyed m
      → AreDistinct key_string m
      → AreNew s m
      → AreFresh key_string s (valid_targets m applied)
  unfolding valid_targets lookup
  targets-AreFresh [] applied s h distinct fresh = tt
  targets-AreFresh ((j, p) ∷ m) applied s ((new, d), keyed) distinct fresh =
      let rest-AreWellKeyed : AreWellKeyed m =
        (d, (λ k q found. keyed k q (lookup_rest j k p q m new found))) in
      let rest-AreDistinct : AreDistinct key_string m = λ i k q r at_i at_k.
        distinct i k q r (lookup_rest j i p q m new at_i) (lookup_rest j k p r m new at_k) in
      let rest-AreNew : AreNew s m = λ k q found. fresh k q (lookup_rest j k p q m new found) in
      let own = keyed j p (rw (beq_refl j) refl) in
      let first = fresh j p (rw (beq_refl j) refl) in
      elim (is_some (lookup j applied))
        as (λ b.
          AreFresh key_string s
            (if b then some p ∷ valid_targets m applied else valid_targets m applied)) [
              | true ↦ (
                first.0,
                (
                  subst (λ k. owner s k ≡ none) (sym own) first.1,
                  targets-AreFresh m applied (store key_string s p) rest-AreWellKeyed
                      rest-AreDistinct (store-AreNew s j p m new own distinct fresh),
                ),
              )
              | false ↦ targets-AreFresh m applied s rest-AreWellKeyed rest-AreDistinct rest-AreNew
            ]

  -- Storing targets of different users, each under its own key, makes a store that is one to one.
  pub replace_all-IsOneToOne :
      (m : Dict String (PeerInfo Key)) (applied : Dict String (Unit {0})) (s : PeerStore Key)
      → AreWellKeyed m
      → AreDistinct key_string m
      → IsOneToOne (replace_all key_string s (valid_targets m applied)).0
  unfolding replace_all key_of owner lookup
  replace_all-IsOneToOne m applied s h distinct =
      init-IsOneToOne key_string (valid_targets m applied) new_peer_store
        (new_peer_store-IsOneToOne Key)
        (targets-AreFresh m applied new_peer_store h distinct nothing)
    where
      nothing : AreNew new_peer_store m
      nothing k p found = (refl, refl)
