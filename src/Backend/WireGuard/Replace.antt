-- ===== src/Backend/WireGuard/Replace.antt =====
-- backend/wireguard/peer_store.go: filling the store from a list of peers, and its snapshot.
use hpxnode.Prelude.{
  false, not, ◌&&◌, List, [], ◌∷◌, Option, none, some, String, string_eq, ◌==◌, if◌then◌else◌,
  is_some, arith, Option-cases, ◌≡◌, refl, sym, ap, ◌∙◌, subst, inl, inr,
}
use text.Mathlib.TextEquality.{eq_iff}
use hpxnode.Prelude.Dict.{Dict, elem, lookup, insert, keys, lookup-insert, IsDict, beq_refl}
use hpxnode.Prelude.DictLaws.{elem-keys}
use hpxnode.Backend.WireGuard.PeerStore.{
  PeerInfo, PeerStore, new_peer_store, email_of, upsert, store, init, gone, replace_all,
  snapshot_of, get_email_map,
}
use hpxnode.Backend.WireGuard.OneToOne.{owner, key_of, IsOneToOne, upsert-IsOneToOne}

pub new_peer_store-IsOneToOne : (Key : Type 0) → IsOneToOne {Key = Key} new_peer_store
unfolding owner key_of lookup
new_peer_store-IsOneToOne Key email key = ((λ h. absurd (cc h)), (λ h. absurd (cc h)))

module _ {Key : Type 0} where
  module _ (key_string : Key → String) where
    -- Each peer of the list has a user and a key that the store does not hold yet.
    abbrev pub AreFresh : PeerStore Key → List (Option (PeerInfo Key)) → Type 0
    AreFresh s [] = Unit
    AreFresh s (none ∷ ps) = AreFresh s ps
    AreFresh s (some p ∷ ps) =
        (key_of s p.email ≡ none)
        × ((owner s (key_string p.public_key) ≡ none) × AreFresh (store key_string s p) ps)

    store-upsert :
        (s : PeerStore Key) (p : PeerInfo Key)
        → key_of s p.email ≡ none
        → owner s (key_string p.public_key) ≡ none
        → store key_string s p ≡ upsert key_string s p
    unfolding store upsert key_of owner
    store-upsert s p no_key no_owner =
        elim (Option-cases (lookup (key_string p.public_key) s.peers)) [
          | inl out ↦ rw (no_key, out) refl
          | inr (q, found) ↦ absurd (cc (no_owner, ap email_of found))
        ]

    -- Peers, each with a user and a key that the store does not hold yet when its turn comes, keep
    -- a store one to one.
    pub init-IsOneToOne :
        (ps : List (Option (PeerInfo Key))) (s : PeerStore Key)
        → IsOneToOne s
        → AreFresh s ps
        → IsOneToOne (init key_string s ps)
    unfolding init
    init-IsOneToOne [] s one fresh = one
    init-IsOneToOne (none ∷ ps) s one fresh = init-IsOneToOne ps s one fresh
    init-IsOneToOne (some p ∷ ps) s one (no_key, (no_owner, fresh)) =
        init-IsOneToOne ps (store key_string s p)
          (subst IsOneToOne (sym (store-upsert s p no_key no_owner))
            (upsert-IsOneToOne key_string s p one))
          fresh

    -- Replacing the contents by two peers of one user, with different keys, leaves that user as
    -- the owner of both keys, of which only the second is the user's key.
    pub replace_all-two_keys :
        (s : PeerStore Key) (p q : PeerInfo Key)
        → p.email ≡ q.email
        → (key_string p.public_key == key_string q.public_key) ≡ false
        → (owner (replace_all key_string s (some p ∷ some q ∷ [])).0 (key_string p.public_key)
            ≡ some p.email)
          × ((owner (replace_all key_string s (some p ∷ some q ∷ [])).0 (key_string q.public_key)
                ≡ some p.email)
              × (key_of (replace_all key_string s (some p ∷ some q ∷ [])).0 p.email
                  ≡ some (key_string q.public_key)))
    unfolding replace_all init store owner key_of lookup insert
    replace_all-two_keys s p q same apart = ground (
      arith,
      same,
      apart,
      eq_iff p.email q.email,
      eq_iff q.email p.email,
      beq_refl q.email,
      beq_refl p.email,
      beq_refl (key_string p.public_key),
      beq_refl (key_string q.public_key),
      eq_iff (key_string p.public_key) (key_string q.public_key),
      eq_iff (key_string q.public_key) (key_string p.public_key),
    )

  elem-gone :
      (ps : Dict String (PeerInfo Key)) (ks : List String) (key : String)
      → elem key (gone ps ks) ≡ (elem key ks && not (is_some (lookup key ps)))
  unfolding gone elem
  elem-gone ps [] key = refl
  elem-gone ps (k ∷ ks) key = ground (arith, elem-gone ps ks key, eq_iff k key)

  -- The keys that replace_all returns are those of the old peers that are gone.
  pub elem-replace_all :
      (key_string : Key → String) (s : PeerStore Key) (ps : List (Option (PeerInfo Key)))
      (key : String)
      → elem key (replace_all key_string s ps).1 ≡ (
          is_some (lookup key s.peers)
          && not (is_some (lookup key (replace_all key_string s ps).0.peers)))
  unfolding replace_all
  elem-replace_all key_string s ps key =
      let next = init key_string new_peer_store ps in
      elem-gone next.peers (keys s.peers) key
      ∙ ap (λ b. b && not (is_some (lookup key next.peers))) (elem-keys key s.peers)

  lookup-snapshot_of :
      (m : Dict String (PeerInfo Key)) (snapshot : Dict String String) (key : String)
      → IsDict m
      → lookup key (snapshot_of m snapshot)
        ≡ (if is_some (lookup key m) then email_of (lookup key m) else lookup key snapshot)
  unfolding snapshot_of lookup
  lookup-snapshot_of [] snapshot key d = refl
  lookup-snapshot_of ((k, p) ∷ m) snapshot key d = ground (
    arith,
    lookup-snapshot_of m (insert k p.email snapshot) key d.1,
    lookup-insert {V = String} k key p.email snapshot,
    d.0,
    eq_iff k key,
  )

  -- When the store has one peer for each key, the snapshot gives each key its owner and has no
  -- other key.
  pub lookup-get_email_map :
      (s : PeerStore Key) (key : String)
      → IsDict s.peers
      → lookup key (get_email_map s) ≡ owner s key
  unfolding get_email_map owner lookup
  lookup-get_email_map s key d = ground (arith, lookup-snapshot_of s.peers [] key d)
