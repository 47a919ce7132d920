-- ===== src/Backend/WireGuard/Sync/DiffLists.antt =====
-- backend/wireguard/user_common.go: the lists of keys and of peers that buildSyncDiff returns, and the
-- peers whose configuration a full synchronization builds.
use hpxnode.Prelude.{
  false, ◌&&◌, List, [], ◌∷◌, Option, none, some, String, string_eq, ltb, length, is_some, arith,
  ◌≡◌, refl, sym, ap, ◌∙◌, subst,
}
use text.Mathlib.TextEquality.{eq_iff}
use hpxnode.Prelude.Dict.{Dict, elem, lookup, keys, IsDict}
use hpxnode.Prelude.DictLaws.{elem-keys}
use hpxnode.Prelude.Sort.{sort_strings, elem-sort_strings}
use hpxnode.Backend.WireGuard.PeerStore.{PeerInfo}
use hpxnode.Backend.WireGuard.Sync.Desired.{Wire, DesiredPeer}
use hpxnode.Backend.WireGuard.Sync.Diff.{
  remove_configs, build_remove_configs_for_peers, peers_at, compare_all, build_sync_diff, target_of,
}
use hpxnode.Backend.WireGuard.Sync.DiffExact.{wanted_upsert, wanted_removal, lookup-compare_all}
use hpxnode.Backend.WireGuard.Sync.Owners.{AreKeyed}
use hpxnode.Backend.WireGuard.Sync.Target.{target_of-IsDict}

elem_empty : (key : String) (l : List String) → ltb 0 (length l) ≡ false → elem key l ≡ false
unfolding elem
elem_empty key [] h = refl
elem_empty key (x ∷ l) h = ground arith

module _ {Key : Type 0} where
  none_of_not_some : (o : Option (PeerInfo Key)) → is_some o ≡ false → o ≡ none
  none_of_not_some none h = refl
  none_of_not_some (some p) h = absurd (cc h)

  length-peers_at :
      (ks : List String) (m : Dict String (PeerInfo Key)) → length (peers_at ks m) ≡ length ks
  unfolding peers_at
  length-peers_at [] m = refl
  length-peers_at (k ∷ ks) m = omega (arith, length-peers_at ks m)

  module _ (w : Wire Key) where
    elem-remove_configs :
        (key : String) (ks : List String)
        → elem key (remove_configs w ks).0 ≡ (elem key ks && is_some (w.parse_key key))
    unfolding elem remove_configs
    elem-remove_configs key [] = refl
    elem-remove_configs key (k ∷ ks) =
        ground (arith, eq_iff k key, elem-remove_configs key ks, ap w.parse_key)

    -- The printed text of each key is parsed.
    abbrev pub ReadsPrinted : Type 0
    ReadsPrinted = (k : Key) → w.parse_key (w.key_string k) ≡ some k

    keyed_parses :
        (m : Dict String (PeerInfo Key)) (key : String) (o t : Option (PeerInfo Key))
        → ReadsPrinted
        → AreKeyed w.key_string m
        → o ≡ lookup key m
        → is_some (wanted_removal w o t)
          ≡ (is_some (wanted_removal w o t) && is_some (w.parse_key key))
    keyed_parses m key none none reads keyed is = refl
    keyed_parses m key none (some t) reads keyed is = refl
    keyed_parses m key (some p) (some t) reads keyed is = refl
    keyed_parses m key (some p) none reads keyed is = sym (
        ap is_some (
          subst (λ k. w.parse_key k ≡ some p.public_key) (keyed key p (sym is))
            (reads p.public_key)))

    module _ (psk : Option Key) (existing : Dict String (PeerInfo Key))
        (desired : Dict String (DesiredPeer Key)) (d : IsDict existing) (e : IsDict desired) where
      -- The keys that the difference removes.
      pub elem-remove_keys :
          (key : String)
          → ReadsPrinted
          → AreKeyed w.key_string existing
          → elem key (build_sync_diff w psk existing desired).remove_keys
            ≡ is_some (wanted_removal w (lookup key existing) (lookup key (target_of desired)))
      unfolding build_sync_diff build_remove_configs_for_peers
      elem-remove_keys key reads keyed =
          let target = target_of desired in
          let removes = (compare_all w psk existing target).removes in
          elem-remove_configs key (sort_strings (keys removes))
          ∙ (ap (λ b. b && is_some (w.parse_key key))
                (elem-sort_strings key (keys removes)
                  ∙ (elem-keys key removes
                      ∙ ap is_some
                          (lookup-compare_all w psk existing target key d
                            (target_of-IsDict desired e)).1))
              ∙ sym (
                  keyed_parses existing key (lookup key existing) (lookup key target) reads keyed
                    refl))

      -- When nothing changed, no key calls for an upsert or a removal.
      pub unchanged_lem :
          (key : String)
          → ReadsPrinted
          → AreKeyed w.key_string existing
          → (build_sync_diff w psk existing desired).changed ≡ false
          → (wanted_upsert w (lookup key existing) (lookup key (target_of desired)) ≡ none)
            × (wanted_removal w (lookup key existing) (lookup key (target_of desired)) ≡ none)
      unfolding build_sync_diff
      unchanged_lem key reads keyed same =
          let target = target_of desired in
          let acc = compare_all w psk existing target in
          let both = lookup-compare_all w psk existing target key d (target_of-IsDict desired e) in
          (
            sym both.0
                ∙ none_of_not_some (lookup key acc.upserts) (
                    sym (elem-sort_strings key (keys acc.upserts) ∙ elem-keys key acc.upserts)
                    ∙ elem_empty key (sort_strings (keys acc.upserts)) (
                        ground (
                          arith,
                          same,
                          length-peers_at (sort_strings (keys acc.upserts)) acc.upserts,
                        ))),
            none_of_not_some (wanted_removal w (lookup key existing) (lookup key target)) (
                sym (elem-remove_keys key reads keyed)
                ∙ elem_empty key (build_sync_diff w psk existing desired).remove_keys
                    (ground (arith, same))),
          )
