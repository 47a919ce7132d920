-- ===== src/Backend/WireGuard/Sync/Touched.antt =====
-- backend/wireguard/user_partial_sync.go: the users that a partial synchronization touches, and their
-- peers in the store.
use hpxnode.Prelude.{
  true, List, [], ◌∷◌, Option, none, some, String, string_eq, ◌==◌, is_some, arith, Bool-cases,
  Option-cases, ◌≡◌, refl, sym, ap, ◌∙◌, subst, inl, inr,
}
use text.Mathlib.TextEquality.{eq_iff}
use mathlib.Core.Option.{some-injective}
use hpxnode.Prelude.Dict.{
  Dict, elem, lookup, IsDict, insert-IsDict, lookup-insert, beq_refl, dict_values,
}
use hpxnode.Prelude.DictLaws.{insert-cases, lookup_rest}
use hpxnode.Backend.OpenVpn.Users.{User}
use hpxnode.Backend.WireGuard.PeerStore.{PeerInfo, PeerStore, email_of, get_by_email, peer_at}
use hpxnode.Backend.WireGuard.OneToOne.{owner, key_of, IsOneToOne}
use hpxnode.Backend.WireGuard.Sync.Owners.{AreKeyed}
use hpxnode.Backend.WireGuard.Sync.Desired.{Wire}
use hpxnode.Backend.WireGuard.Sync.Intended.{AreNamed}
use hpxnode.Backend.WireGuard.Sync.UserSync.{touched_of, subset_for, with_existing}

-- A user of the map is touched.
pub lookup-touched_of :
    (m : Dict String User) (email : String) (u : User)
    → IsDict m
    → AreNamed m
    → lookup email m ≡ some u
    → is_some (lookup email (touched_of (dict_values m))) ≡ true
unfolding touched_of lookup
lookup-touched_of [] email u d named found = absurd (cc found)
lookup-touched_of ((e, v) ∷ m) email u (new, d) named found = ground (
  arith,
  named e v (rw (beq_refl e) refl),
  lookup-insert {V = Unit {0}} v.email email tt (touched_of (dict_values m)),
  lookup-touched_of m email u d (λ i x at. named i x (lookup_rest e i v x m new at)),
  eq_iff v.email email,
  eq_iff e email,
  found,
)

module _ {Key : Type 0} (w : Wire Key) (s : PeerStore Key) (one : IsOneToOne s)
    (keyed : AreKeyed w.key_string s.peers) where
  peer_at-found :
      (o : Option String) (q : PeerInfo Key)
      → peer_at s o ≡ some q
      → (key : String) × (o ≡ some key) × (lookup key s.peers ≡ some q)
  peer_at-found none q h = absurd (cc h)
  peer_at-found (some key) q h = (key, refl, h)

  -- The peer found for a user is the user's, under the peer's own key.
  get_by_email-found :
      (email : String) (q : PeerInfo Key)
      → get_by_email s email ≡ some q
      → (owner s (w.key_string q.public_key) ≡ some email) × (q.email ≡ email)
  unfolding get_by_email owner key_of
  get_by_email-found email q h =
      let (key, is, found) = peer_at-found (lookup email s.email_to_key) q h in
      let owned = (one email key).0 is in
      (
        subst (λ k. email_of (lookup k s.peers) ≡ some email) (sym (keyed key q found)) owned,
        some-injective q.email email (sym (ap email_of found) ∙ owned),
      )

  with_existing-IsDict :
      (o : Option (PeerInfo Key)) (m : Dict String (PeerInfo Key))
      → IsDict m
      → IsDict (with_existing w o m)
  with_existing-IsDict none m d = d
  with_existing-IsDict (some p) m d = insert-IsDict (w.key_string p.public_key) p m d

  pub subset_for-IsDict : (emails : List String) → IsDict (subset_for w s emails)
  unfolding subset_for
  subset_for-IsDict [] = tt
  subset_for-IsDict (e ∷ emails) =
      with_existing-IsDict (get_by_email s e) (subset_for w s emails) (subset_for-IsDict emails)

  -- The peers of the subset are those of the store, of the users of the list.
  pub subset_for-owner :
      (emails : List String) (key : String) (p : PeerInfo Key)
      → lookup key (subset_for w s emails) ≡ some p
      → (owner s key ≡ some p.email)
        × (elem p.email emails ≡ true)
        × (w.key_string p.public_key ≡ key)
  unfolding subset_for elem lookup
  subset_for-owner [] key p found = absurd (cc found)
  subset_for-owner (e ∷ emails) key p found = elim (Option-cases (get_by_email s e)) [
    | inl out ↦
        let (owned, here, own) = subset_for-owner emails key p (rw out at found) in
        (owned, ground (arith, here), own)
    | inr (q, is) ↦
        let (owned, named) = get_by_email-found e q is in
        elim (insert-cases (w.key_string q.public_key) key q p (subset_for w s emails)
          (rw is at found)) [
            | inl (same, this) ↦
                subst
                  (λ x.
                    (owner s key ≡ some x.email)
                    × (elem x.email (e ∷ emails) ≡ true)
                    × (w.key_string x.public_key ≡ key))
                  this
                  (
                    subst (λ k. owner s k ≡ some q.email) same (owned ∙ ap some (sym named)),
                    ground (arith, named, eq_iff e q.email),
                    same,
                  )
            | inr before ↦
                let (owned', here, own) = subset_for-owner emails key p before in
                (owned', ground (arith, here), own)
          ]
  ]

  get_by_email-owned :
      (key email : String)
      → owner s key ≡ some email
      → (q : PeerInfo Key) × (get_by_email s email ≡ some q) × (w.key_string q.public_key ≡ key)
  unfolding get_by_email owner key_of
  get_by_email-owned key email owned = elim (Option-cases (lookup key s.peers)) [
    | inl out ↦ absurd (cc (ap email_of out, owned))
    | inr (q, found) ↦ (q, ap (peer_at s) ((one email key).1 owned) ∙ found, keyed key q found)
  ]

  with_existing-kept :
      (o : Option (PeerInfo Key)) (m : Dict String (PeerInfo Key)) (key : String)
      → is_some (lookup key m) ≡ true
      → is_some (lookup key (with_existing w o m)) ≡ true
  with_existing-kept none m key here = here
  with_existing-kept (some p) m key here =
      ground (arith, here, lookup-insert {V = PeerInfo Key} (w.key_string p.public_key) key p m)

  -- A key of a user of the list is a key of the subset.
  pub subset_for-found :
      (emails : List String) (key email : String)
      → owner s key ≡ some email
      → elem email emails ≡ true
      → is_some (lookup key (subset_for w s emails)) ≡ true
  unfolding subset_for elem
  subset_for-found [] key email owned here = absurd (cc here)
  subset_for-found (e ∷ emails) key email owned here = elim (Bool-cases (e == email)) [
    | inl same ↦
        let (q, is, own) =
          get_by_email-owned key e (owned ∙ ap some (sym ((eq_iff e email).0 same))) in
        rw
          (
            is,
            lookup-insert {V = PeerInfo Key} (w.key_string q.public_key) key q
                (subset_for w s emails),
            own,
            beq_refl key,
          )
          refl
    | inr apart ↦
        with_existing-kept (get_by_email s e) (subset_for w s emails) key
          (subset_for-found emails key email owned (rw apart at here))
  ]
