-- ===== src/Backend/WireGuard/Sync/DiffExact.antt =====
-- backend/wireguard/user_common.go, buildSyncDiff: which peers it removes and which it upserts.
use hpxnode.Prelude.{
  Bool, not, [], ◌∷◌, Option, none, some, String, string_eq, ◌==◌, if◌then◌else◌, nat_eq, length,
  is_some, arith, Bool-cases, ◌≡◌, refl, sym, ap, ◌∙◌, inl, inr,
}
use text.Mathlib.TextEquality.{eq_iff}
use hpxnode.Prelude.Dict.{Dict, lookup, IsDict, lookup-insert}
use hpxnode.Backend.WireGuard.PeerStore.{PeerInfo}
use hpxnode.Backend.WireGuard.Sync.Desired.{Wire}
use hpxnode.Backend.WireGuard.Sync.Diff.{
  Compared, build_add_config_from_peer_info, same_nets, compare_peer, compare_existing, add_new,
  compare_target, compare_all,
}

module _ {Key : Type 0} (w : Wire Key) where
  abbrev pub has_nets : PeerInfo Key → Bool
  has_nets p = not (nat_eq (length p.allowed_ips) 0)

  -- A peer that is there and stays, but not as it is.
  abbrev pub outdated : PeerInfo Key → PeerInfo Key → Bool
  outdated p t =
      if same_nets w p.allowed_ips t.allowed_ips then not (p.email == t.email) else has_nets t

  -- The peer that the difference is to store under a key, of the peer that is there and the target.
  abbrev pub wanted_upsert : Option (PeerInfo Key) → Option (PeerInfo Key) → Option (PeerInfo Key)
  wanted_upsert existing none = none
  wanted_upsert none (some t) = if has_nets t then some t else none
  wanted_upsert (some p) (some t) = if outdated p t then some t else none

  abbrev pub wanted_removal : Option (PeerInfo Key) → Option (PeerInfo Key) → Option (PeerInfo Key)
  wanted_removal existing none = existing
  wanted_removal existing (some t) = none

  abbrev or_else : Option (PeerInfo Key) → Option (PeerInfo Key) → Option (PeerInfo Key)
  or_else none b = b
  or_else (some p) b = some p

  -- The upsert of a peer that is there.
  abbrev changed_upsert : Option (PeerInfo Key) → Option (PeerInfo Key) → Option (PeerInfo Key)
  changed_upsert none t = none
  changed_upsert (some p) t = wanted_upsert (some p) t

  wanted_removal-none : (t : Option (PeerInfo Key)) → wanted_removal none t ≡ none
  wanted_removal-none none = refl
  wanted_removal-none (some t) = refl

  lookup-compare_peer :
      (psk : Option Key) (j key : String) (p : PeerInfo Key) (t : Option (PeerInfo Key))
      (acc : Compared Key)
      → (lookup key (compare_peer w psk j p t acc).upserts ≡ (
          if j == key
          then or_else (wanted_upsert (some p) t) (lookup key acc.upserts)
          else lookup key acc.upserts))
        × (lookup key (compare_peer w psk j p t acc).removes ≡ (
            if j == key
            then or_else (wanted_removal (some p) t) (lookup key acc.removes)
            else lookup key acc.removes))
  unfolding compare_peer build_add_config_from_peer_info
  lookup-compare_peer psk j key p none acc =
      ground (arith, lookup-insert {V = PeerInfo Key} j key p acc.removes)
  lookup-compare_peer psk j key p (some t) acc =
      ground (arith, lookup-insert {V = PeerInfo Key} j key t acc.upserts)

  lookup-compare_existing :
      (psk : Option Key) (target existing : Dict String (PeerInfo Key)) (key : String)
      (acc : Compared Key)
      → IsDict existing
      → (lookup key (compare_existing w psk target existing acc).upserts
          ≡ or_else
              (changed_upsert (lookup key existing) (lookup key target))
              (lookup key acc.upserts))
        × (lookup key (compare_existing w psk target existing acc).removes
            ≡ or_else
                (wanted_removal (lookup key existing) (lookup key target))
                (lookup key acc.removes))
  unfolding compare_existing lookup
  lookup-compare_existing psk target [] key acc d = (
    refl,
    ap (λ o. or_else o (lookup key acc.removes)) (sym (wanted_removal-none (lookup key target))),
  )
  lookup-compare_existing psk target ((j, p) ∷ existing) key acc (new, d) =
      let next = compare_peer w psk j p (lookup j target) acc in
      let ih = lookup-compare_existing psk target existing key next d in
      let here = lookup-compare_peer psk j key p (lookup j target) acc in
      elim (Bool-cases (j == key)) [
        | inl same ↦
            let old = ap (λ k. lookup k existing) (sym ((eq_iff j key).0 same)) ∙ new in
            let now = ap (λ k. lookup k target) ((eq_iff j key).0 same) in
            let here' = rw (same, now) at here in
            let ih' = rw (old, now, wanted_removal-none (lookup key target)) at ih in
            rw (same, compare_existing, now) (ih'.0 ∙ here'.0, ih'.1 ∙ here'.1)
        | inr apart ↦
            let here' = rw apart at here in
            rw apart (
              ih.0
                  ∙ ap (or_else (changed_upsert (lookup key existing) (lookup key target))) here'.0,
              ih.1
                  ∙ ap (or_else (wanted_removal (lookup key existing) (lookup key target))) here'.1,
            )
      ]

  -- The upsert of a peer that is not there.
  abbrev new_upsert : Option (PeerInfo Key) → Option (PeerInfo Key) → Option (PeerInfo Key)
  new_upsert none t = wanted_upsert none t
  new_upsert (some p) t = none

  -- One target's turn.
  abbrev compare_new :
      Option Key → String → Option (PeerInfo Key) → PeerInfo Key → Compared Key → Compared Key
  compare_new psk j there t acc =
      if is_some there then acc else add_new w j t (build_add_config_from_peer_info t psk) acc

  lookup-compare_new :
      (psk : Option Key) (j key : String) (there : Option (PeerInfo Key)) (t : PeerInfo Key)
      (acc : Compared Key)
      → (lookup key (compare_new psk j there t acc).upserts ≡ (
          if j == key
          then or_else (new_upsert there (some t)) (lookup key acc.upserts)
          else lookup key acc.upserts))
        × ((compare_new psk j there t acc).removes ≡ acc.removes)
  unfolding build_add_config_from_peer_info
  lookup-compare_new psk j key none t acc =
      ground (arith, lookup-insert {V = PeerInfo Key} j key t acc.upserts)
  lookup-compare_new psk j key (some p) t acc = ground arith

  new_upsert-none : (o : Option (PeerInfo Key)) → new_upsert o none ≡ none
  new_upsert-none none = refl
  new_upsert-none (some p) = refl

  lookup-compare_target :
      (psk : Option Key) (existing target : Dict String (PeerInfo Key)) (key : String)
      (acc : Compared Key)
      → IsDict target
      → (lookup key (compare_target w psk existing target acc).upserts
          ≡ or_else (new_upsert (lookup key existing) (lookup key target)) (lookup key acc.upserts))
        × ((compare_target w psk existing target acc).removes ≡ acc.removes)
  unfolding compare_target lookup
  lookup-compare_target psk existing [] key acc d = (
    ap (λ o. or_else o (lookup key acc.upserts)) (sym (new_upsert-none (lookup key existing))),
    refl,
  )
  lookup-compare_target psk existing ((j, t) ∷ target) key acc (new, d) =
      let next = compare_new psk j (lookup j existing) t acc in
      let ih = lookup-compare_target psk existing target key next d in
      let here = lookup-compare_new psk j key (lookup j existing) t acc in
      elim (Bool-cases (j == key)) [
        | inl same ↦
            let old = ap (λ k. lookup k target) (sym ((eq_iff j key).0 same)) ∙ new in
            let now = ap (λ k. lookup k existing) ((eq_iff j key).0 same) in
            let here' = rw (same, now) at here in
            let ih' = rw (old, now, new_upsert-none (lookup key existing)) at ih in
            rw (same, compare_target, now) (ih'.0 ∙ here'.0, ih'.1 ∙ here'.1)
        | inr apart ↦
            let here' = rw apart at here in
            rw apart (
              ih.0 ∙ ap (or_else (new_upsert (lookup key existing) (lookup key target))) here'.0,
              ih.1 ∙ here.1,
            )
      ]

  or_else-upserts :
      (o t : Option (PeerInfo Key))
      → or_else (new_upsert o t) (or_else (changed_upsert o t) none) ≡ wanted_upsert o t
  or_else-upserts o none = ground arith
  or_else-upserts none (some t) = ground arith
  or_else-upserts (some p) (some t) = ground arith

  or_else-none : (o : Option (PeerInfo Key)) → or_else o none ≡ o
  or_else-none none = refl
  or_else-none (some p) = refl

  -- The comparison finds, under each key, the upsert and the removal that the peer that is there
  -- and the target call for.
  pub lookup-compare_all :
      (psk : Option Key) (existing target : Dict String (PeerInfo Key)) (key : String)
      → IsDict existing
      → IsDict target
      → (lookup key (compare_all w psk existing target).upserts
          ≡ wanted_upsert (lookup key existing) (lookup key target))
        × (lookup key (compare_all w psk existing target).removes
            ≡ wanted_removal (lookup key existing) (lookup key target))
  unfolding lookup
  lookup-compare_all psk existing target key d e =
      let start : Compared Key = record { removes = []; upserts = []; configs = [] } in
      let first = compare_existing w psk target existing start in
      let one = lookup-compare_existing psk target existing key start d in
      let two = lookup-compare_target psk existing target key first e in
      (
        two.0
            ∙ (ap (or_else (new_upsert (lookup key existing) (lookup key target))) one.0
                ∙ or_else-upserts (lookup key existing) (lookup key target)),
        ap (lookup key) two.1
            ∙ (one.1 ∙ or_else-none (wanted_removal (lookup key existing) (lookup key target))),
      )
