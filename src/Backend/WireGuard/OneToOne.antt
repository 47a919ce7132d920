-- ===== src/Backend/WireGuard/OneToOne.antt =====
-- backend/wireguard/peer_store.go: users and public keys, and their correspondence.
use hpxnode.Prelude.{
  Bool, true, false, List, [], ◌∷◌, Option, none, some, String, string_eq, ◌==◌, if◌then◌else◌,
  is_some, arith, Bool-cases, Option-cases, ◌≡◌, refl, ◌↔◌, inl, inr,
}
use text.Mathlib.TextEquality.{eq_iff}
use hpxnode.Prelude.Dict.{Dict, lookup, lookup-insert, lookup-delete}
use hpxnode.Backend.WireGuard.PeerStore.{
  PeerInfo, PeerStore, email_of, remove_found, remove_keys, drop_old_key, drop_old_owner, upsert,
  upsert_peers, apply_changes, get_by_email,
}

-- The option holds the text.
abbrev pub holds : Option String → String → Bool
holds none b = false
holds (some a) b = a == b

pub holds_iff : (o : Option String) (a : String) → (holds o a ≡ true) ↔ (o ≡ some a)
holds_iff none a = ground arith
holds_iff (some b) a = ground (arith, eq_iff b a)

module _ {Key : Type 0} where
  -- The owner of a key.
  unfoldable pub owner : PeerStore Key → String → Option String
  owner s key = email_of (lookup key s.peers)

  unfoldable pub key_of : PeerStore Key → String → Option String
  key_of s email = lookup email s.email_to_key

  -- A user's key is the key that the user owns.
  abbrev pub IsOneToOne : PeerStore Key → Type 0
  IsOneToOne s = (email key : String) → (key_of s email ≡ some key) ↔ (owner s key ≡ some email)

  pub remove_found-IsOneToOne :
      (s : PeerStore Key) (key : String)
      → IsOneToOne s
      → IsOneToOne (remove_found s key (lookup key s.peers))
  unfolding owner key_of
  remove_found-IsOneToOne s key one email other = elim (Option-cases (lookup key s.peers)) [
    | inl out ↦ rw out (one email other)
    | inr (p, found) ↦ rw found (
        ground (
          arith,
          one email other,
          one p.email key,
          one email key,
          found,
          eq_iff p.email email,
          eq_iff key other,
          lookup-delete {V = String} p.email email s.email_to_key,
          lookup-delete {V = PeerInfo Key} key other s.peers,
        ))
  ]

  pub remove_keys-IsOneToOne :
      (ks : List String) (s : PeerStore Key) → IsOneToOne s → IsOneToOne (remove_keys s ks).0
  unfolding remove_keys
  remove_keys-IsOneToOne [] s one = one
  remove_keys-IsOneToOne (key ∷ ks) s one = elim (Bool-cases (is_some (lookup key s.peers))) [
    | inl found ↦ rw found (
        remove_keys-IsOneToOne ks (remove_found s key (lookup key s.peers))
          (remove_found-IsOneToOne s key one))
    | inr out ↦ rw out (
        remove_keys-IsOneToOne ks (remove_found s key (lookup key s.peers))
          (remove_found-IsOneToOne s key one))
  ]

  pub lookup-kept :
      (new key : String) (old : Option String) (ps : Dict String (PeerInfo Key))
      → lookup key (drop_old_key new old ps)
        ≡ (if holds old new then lookup key ps else (if holds old key then none else lookup key ps))
  lookup-kept new key none ps = ground arith
  lookup-kept new key (some old) ps = ground (arith, lookup-delete {V = PeerInfo Key} old key ps)

  pub lookup-drop_old_owner :
      (new email : String) (q : Option (PeerInfo Key)) (m : Dict String String)
      → lookup email (drop_old_owner new q m) ≡ (
          if holds (email_of q) new
          then lookup email m
          else (if holds (email_of q) email then none else lookup email m))
  lookup-drop_old_owner new email none m = ground arith
  lookup-drop_old_owner new email (some q) m =
      ground (arith, lookup-delete {V = String} q.email email m)

  module _ (key_string : Key → String) where
    -- The upsert of a user whose key is known, and whose new key's owner is known.
    pub upsert-IsOneToOne :
        (s : PeerStore Key) (p : PeerInfo Key) → IsOneToOne s → IsOneToOne (upsert key_string s p)
    unfolding upsert owner key_of
    upsert-IsOneToOne s p one email key =
        let new = key_string p.public_key in
        let kept = drop_old_key new (lookup p.email s.email_to_key) s.peers in
        ground (
          arith,
          one email key,
          one p.email new,
          one p.email key,
          one email new,
          lookup-insert {V = PeerInfo Key} new key p kept,
          lookup-kept new key (lookup p.email s.email_to_key) s.peers,
          lookup-kept new new (lookup p.email s.email_to_key) s.peers,
          lookup-insert {V = String} p.email email new
              (drop_old_owner p.email (lookup new kept) s.email_to_key),
          lookup-drop_old_owner p.email email (lookup new kept) s.email_to_key,
          holds_iff (lookup p.email s.email_to_key) key,
          holds_iff (lookup p.email s.email_to_key) new,
          holds_iff (email_of (lookup new kept)) email,
          holds_iff (email_of (lookup new kept)) p.email,
          eq_iff new key,
          eq_iff p.email email,
        )

    upsert_peers-IsOneToOne :
        (ps : List (Option (PeerInfo Key))) (s : PeerStore Key)
        → IsOneToOne s
        → IsOneToOne (upsert_peers key_string s ps)
    unfolding upsert_peers
    upsert_peers-IsOneToOne [] s one = one
    upsert_peers-IsOneToOne (none ∷ ps) s one = upsert_peers-IsOneToOne ps s one
    upsert_peers-IsOneToOne (some p ∷ ps) s one =
        upsert_peers-IsOneToOne ps (upsert key_string s p) (upsert-IsOneToOne s p one)

    -- apply_changes keeps users and keys in one-to-one correspondence, whatever it removes and
    -- upserts.
    pub apply_changes-IsOneToOne :
        (s : PeerStore Key) (ks : List String) (ps : List (Option (PeerInfo Key)))
        → IsOneToOne s
        → IsOneToOne (apply_changes key_string s ks ps).0
    unfolding apply_changes
    apply_changes-IsOneToOne s ks ps one =
        upsert_peers-IsOneToOne ps (remove_keys s ks).0 (remove_keys-IsOneToOne ks s one)

  -- In a store that is one to one, a user with a key is found by its name as the owner of the peer
  -- that is returned, and a user without a key is not found.
  pub get_by_email-owner :
      (s : PeerStore Key) (email : String)
      → IsOneToOne s
      → email_of (get_by_email s email) ≡ (if is_some (key_of s email) then some email else none)
  unfolding get_by_email owner key_of
  get_by_email-owner s email one = elim (Option-cases (lookup email s.email_to_key)) [
    | inl out ↦ rw out refl
    | inr (key, found) ↦ rw found ((one email key).0 found)
  ]
