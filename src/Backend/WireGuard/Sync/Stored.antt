-- ===== src/Backend/WireGuard/Sync/Stored.antt =====
-- backend/wireguard/user_full_sync.go: the snapshot of the store by keys, and the targets that a full
-- synchronization stores.
use hpxnode.Prelude.{
  true, ◌&&◌, ◌||◌, List, [], ◌∷◌, Option, none, some, String, string_eq, ◌==◌, if◌then◌else◌,
  is_some, arith, ◌≡◌, refl, ap, ◌∙◌,
}
use text.Mathlib.TextEquality.{eq_iff}
use hpxnode.Prelude.Dict.{
  Dict, elem, lookup, insert, keys, IsDict, insert-IsDict, lookup-insert, beq_refl,
}
use hpxnode.Prelude.DictLaws.{elem-keys, lookup_rest}
use hpxnode.Prelude.Sort.{sort_strings, elem-sort_strings}
use hpxnode.Backend.WireGuard.PeerStore.{
  PeerInfo, PeerStore, new_peer_store, email_of, store, init, replace_all, get_all, values,
}
use hpxnode.Backend.WireGuard.OneToOne.{owner}
use hpxnode.Backend.WireGuard.Sync.Desired.{Wire, DesiredPeer, email_of_desired}
use hpxnode.Backend.WireGuard.Sync.Diff.{
  PeerConfig, target_configs, with_target, config_at, build_target_peer_configs,
  build_add_config_from_peer_info,
}
use hpxnode.Backend.WireGuard.Sync.DiffExact.{has_nets, wanted_upsert, wanted_removal}
use hpxnode.Backend.WireGuard.Sync.Owners.{AreKeyed}
use hpxnode.Backend.WireGuard.Sync.Intended.{}
use hpxnode.Backend.WireGuard.Sync.Target.{peer_of}
use hpxnode.Backend.WireGuard.Sync.UserSync.{
  valid_targets, by_key, build_existing_peers_by_key_snapshot,
}

module _ {Key : Type 0} where
  module _ (w : Wire Key) where
    AreKeyed-rest :
        (j : String) (p : PeerInfo Key) (m : Dict String (PeerInfo Key))
        → lookup j m ≡ none
        → AreKeyed w.key_string ((j, p) ∷ m)
        → AreKeyed w.key_string m
    AreKeyed-rest j p m new keyed k q found = keyed k q (lookup_rest j k p q m new found)

    AreKeyed-first :
        (j : String) (p : PeerInfo Key) (m : Dict String (PeerInfo Key))
        → AreKeyed w.key_string ((j, p) ∷ m)
        → w.key_string p.public_key ≡ j
    unfolding lookup
    AreKeyed-first j p m keyed = keyed j p (rw (beq_refl j) refl)

    -- The snapshot by keys is the map of the store.
    lookup-by_key :
        (m acc : Dict String (PeerInfo Key)) (key : String)
        → IsDict m
        → AreKeyed w.key_string m
        → lookup key (by_key w (values m) acc)
          ≡ (if is_some (lookup key m) then lookup key m else lookup key acc)
    unfolding by_key lookup
    lookup-by_key [] acc key d keyed = refl
    lookup-by_key ((j, p) ∷ m) acc key (new, d) keyed =
        let next = insert (w.key_string p.public_key) p acc in
        ground (
          arith,
          lookup-by_key m next key d (AreKeyed-rest j p m new keyed),
          AreKeyed-first j p m keyed,
          lookup-insert {V = PeerInfo Key} (w.key_string p.public_key) key p acc,
          eq_iff j key,
          eq_iff (w.key_string p.public_key) key,
          new,
          ap (λ k. lookup k m),
        )

    pub by_key-IsDict :
        (ps : List (PeerInfo Key)) (acc : Dict String (PeerInfo Key))
        → IsDict acc
        → IsDict (by_key w ps acc)
    unfolding by_key
    by_key-IsDict [] acc d = d
    by_key-IsDict (p ∷ ps) acc d =
        by_key-IsDict ps (insert (w.key_string p.public_key) p acc)
          (insert-IsDict (w.key_string p.public_key) p acc d)

    pub lookup-snapshot :
        (s : PeerStore Key) (key : String)
        → IsDict s.peers
        → AreKeyed w.key_string s.peers
        → lookup key (build_existing_peers_by_key_snapshot w s) ≡ lookup key s.peers
    unfolding build_existing_peers_by_key_snapshot get_all lookup
    lookup-snapshot s key d keyed =
        lookup-by_key s.peers [] key d keyed ∙ or_none (lookup key s.peers)
      where
        or_none : (o : Option (PeerInfo Key)) → (if is_some o then o else none) ≡ o
        or_none none = refl
        or_none (some p) = refl

    -- The owner that a list of targets gives to a key.
    abbrev given : Option (PeerInfo Key) → Option String → Option String
    given none o = o
    given (some p) o = some p.email

    pub owner-init :
        (m : Dict String (PeerInfo Key)) (applied : Dict String (Unit {0})) (s : PeerStore Key)
        (key : String)
        → IsDict m
        → AreKeyed w.key_string m
        → ((k : String) (p : PeerInfo Key)
            → lookup k m ≡ some p
            → is_some (lookup k applied) ≡ true)
        → owner (init w.key_string s (valid_targets m applied)) key
          ≡ given (lookup key m) (owner s key)
    unfolding init valid_targets lookup owner store
    owner-init [] applied s key d keyed all = refl
    owner-init ((j, p) ∷ m) applied s key (new, d) keyed all = rw (all j p (rw (beq_refl j) refl)) (
        ground (
          arith,
          owner-init m applied (store w.key_string s p) key d (AreKeyed-rest j p m new keyed)
              (λ k q here. all k q (lookup_rest j k p q m new here)),
          AreKeyed-first j p m keyed,
          lookup-insert {V = PeerInfo Key} (w.key_string p.public_key) key p s.peers,
          eq_iff j key,
          eq_iff (w.key_string p.public_key) key,
          new,
          ap (λ k. lookup k m),
        ))

    applied_step :
        (k key : String) (o : Option (PeerConfig Key))
        (rest : List (PeerConfig Key) × Dict String (Unit {0}))
        → is_some (lookup key (with_target k o rest).1)
          ≡ (is_some o && k == key || is_some (lookup key rest.1))
    applied_step k key none rest = refl
    applied_step k key (some config) rest =
        ground (arith, lookup-insert {V = Unit {0}} k key tt rest.1)

    config_lem :
        (m : Dict String (PeerInfo Key)) (psk : Option Key) (key : String) (t : PeerInfo Key)
        → lookup key m ≡ some t
        → has_nets w t ≡ true
        → is_some (config_at (lookup key m) psk) ≡ true
    unfolding build_add_config_from_peer_info
    config_lem m psk key t found nets = rw found (ground (arith, nets))

    -- A target with addresses gets its configuration.
    applied_lem :
        (m : Dict String (PeerInfo Key)) (psk : Option Key) (ks : List String) (key : String)
        (t : PeerInfo Key)
        → lookup key m ≡ some t
        → has_nets w t ≡ true
        → elem key ks ≡ true
        → is_some (lookup key (target_configs m psk ks).1) ≡ true
    unfolding target_configs elem
    applied_lem m psk [] key t found nets here = absurd (cc here)
    applied_lem m psk (k ∷ ks) key t found nets here = ground (
      arith,
      applied_step k key (config_at (lookup k m) psk) (target_configs m psk ks),
      applied_lem m psk ks key t found nets,
      config_lem m psk key t found nets,
      eq_iff k key,
      ap (λ j. is_some (config_at (lookup j m) psk)),
      here,
    )

    -- Every target is stored.
    pub stored_owner :
        (m : Dict String (PeerInfo Key)) (psk : Option Key) (s : PeerStore Key) (key : String)
        → IsDict m
        → AreKeyed w.key_string m
        → ((k : String) (p : PeerInfo Key) → lookup k m ≡ some p → has_nets w p ≡ true)
        → owner
            (replace_all w.key_string s (valid_targets m (build_target_peer_configs m psk).1)).0
            key
          ≡ email_of (lookup key m)
    unfolding replace_all build_target_peer_configs lookup owner
    stored_owner m psk s key d keyed nets =
        let ks = sort_strings (keys m) in
        owner-init m (target_configs m psk ks).1 new_peer_store key d keyed (λ k p found.
          applied_lem m psk ks k p found (nets k p found)
            (elem-sort_strings k (keys m) ∙ (elem-keys k m ∙ ap is_some found)))
        ∙ given_none (lookup key m)
      where
        given_none :
            (o : Option (PeerInfo Key))
            → given o (owner {Key = Key} new_peer_store key) ≡ email_of o
        given_none none = refl
        given_none (some p) = refl

    pub agree :
        (o t : Option (PeerInfo Key))
        → ((p : PeerInfo Key) → t ≡ some p → has_nets w p ≡ true)
        → wanted_upsert w o t ≡ none
        → wanted_removal w o t ≡ none
        → email_of o ≡ email_of t
    agree none none nets up out = refl
    agree (some p) none nets up out = absurd (cc out)
    agree none (some t) nets up out = absurd (cc (rw (nets t refl) at up))
    agree (some p) (some t) nets up out = ground (arith, eq_iff p.email t.email, nets t refl, up)

    pub email_of-peer_of :
        (o : Option (DesiredPeer Key)) → email_of (peer_of o) ≡ email_of_desired w o
    email_of-peer_of none = refl
    email_of-peer_of (some d) = refl
