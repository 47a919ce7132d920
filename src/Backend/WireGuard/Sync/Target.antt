-- ===== src/Backend/WireGuard/Sync/Target.antt =====
-- backend/wireguard/user_common.go: the target peers that buildSyncDiff makes of the desired ones.
use hpxnode.Prelude.{
  true, not, [], ◌∷◌, Option, none, some, String, string_eq, arith, ◌≡◌, refl, sym, ap, ◌∙◌, subst,
}
use mathlib.Core.Option.{some-injective}
use hpxnode.Prelude.Dict.{Dict, lookup, IsDict}
use hpxnode.Backend.OpenVpn.Users.{User, Wireguard}
use hpxnode.Backend.WireGuard.PeerStore.{PeerInfo}
use hpxnode.Backend.WireGuard.Sync.Desired.{Wire, Config, DesiredPeer, user_wireguard_proxy}
use hpxnode.Backend.WireGuard.Sync.Diff.{target_of}
use hpxnode.Backend.WireGuard.Sync.DiffExact.{has_nets}
use hpxnode.Backend.WireGuard.Sync.Owners.{AreKeyed, AreDistinct}
use hpxnode.Backend.WireGuard.Sync.Intended.{AreOf}

module _ {Key : Type 0} where
  abbrev pub peer_of_desired : DesiredPeer Key → PeerInfo Key
  peer_of_desired d = record {
    email = d.email;
    public_key = d.parsed_key;
    allowed_ips = d.allowed_ip_nets;
  }

  abbrev pub peer_of : Option (DesiredPeer Key) → Option (PeerInfo Key)
  peer_of none = none
  peer_of (some d) = some (peer_of_desired d)

  pub lookup-target_of :
      (key : String) (desired : Dict String (DesiredPeer Key))
      → lookup key (target_of desired) ≡ peer_of (lookup key desired)
  unfolding lookup target_of
  lookup-target_of key [] = refl
  lookup-target_of key ((j, d) ∷ desired) = ground (arith, lookup-target_of key desired)

  pub target_of-IsDict :
      (desired : Dict String (DesiredPeer Key)) → IsDict desired → IsDict (target_of desired)
  unfolding target_of
  target_of-IsDict [] d = tt
  target_of-IsDict ((j, x) ∷ desired) (new, d) =
      (lookup-target_of j desired ∙ ap peer_of new, target_of-IsDict desired d)

  peer_of-found :
      (o : Option (DesiredPeer Key)) (t : PeerInfo Key)
      → peer_of o ≡ some t
      → (d : DesiredPeer Key) × (o ≡ some d) × (peer_of (some d) ≡ some t)
  peer_of-found none t h = absurd (cc h)
  peer_of-found (some d) t h = (d, refl, h)

  -- A target is the peer of a desired one.
  pub target_of-found :
      (key : String) (desired : Dict String (DesiredPeer Key)) (t : PeerInfo Key)
      → lookup key (target_of desired) ≡ some t
      → (d : DesiredPeer Key) × (lookup key desired ≡ some d) × (peer_of (some d) ≡ some t)
  target_of-found key desired t h =
      peer_of-found (lookup key desired) t (sym (lookup-target_of key desired) ∙ h)

  module _ (w : Wire Key) (c : Config Key) where
    -- The public key of the user, if it has one that parses, is written as it is printed.
    abbrev pub HasCanonicalKey : User → Type 0
    HasCanonicalKey u =
        (p : Wireguard) (parsed : Key)
        → user_wireguard_proxy u c.proxy_field ≡ some p
        → w.parse_key p.public_key ≡ some parsed
        → w.key_string parsed ≡ p.public_key

    module _ (m : Dict String User) (desired : Dict String (DesiredPeer Key))
        (of : AreOf w c m desired) where
      pub target_of-AreKeyed :
          ((email : String) (u : User) → lookup email m ≡ some u → HasCanonicalKey u)
          → AreKeyed w.key_string (target_of desired)
      target_of-AreKeyed canonical key t found =
          let (d, there, is) = target_of-found key desired t found in
          let (u, p, (at, has), (same, parses), some_nets) = of key d there in
          subst (λ x. w.key_string x.public_key ≡ key) (some-injective (peer_of_desired d) t is)
            (canonical d.email u at p d.parsed_key has
                (subst (λ k. w.parse_key k ≡ some d.parsed_key) (sym same) parses)
              ∙ same)

      pub target_of-AreDistinct : AreDistinct w.key_string (target_of desired)
      target_of-AreDistinct j k s t at_j at_k same =
          let (d, there, is) = target_of-found j desired s at_j in
          let (e, there', is') = target_of-found k desired t at_k in
          let (u, p, (at, has), (key, parses), some_nets) = of j d there in
          let (v, q, (at', has'), (key', parses'), some_nets') = of k e there' in
          let names : d.email ≡ e.email =
            ap (λ x. x.email) (some-injective (peer_of_desired d) s is)
            ∙ (same ∙ sym (ap (λ x. x.email) (some-injective (peer_of_desired e) t is'))) in
          let users : u ≡ v =
            some-injective u v (sym at ∙ (ap (λ name. lookup name m) names ∙ at')) in
          let proxies : p ≡ q =
            some-injective p q
              (sym has ∙ (ap (λ x. user_wireguard_proxy x c.proxy_field) users ∙ has')) in
          sym key ∙ (ap (λ x. x.public_key) proxies ∙ key')

      pub target_of-has_nets :
          (key : String) (t : PeerInfo Key)
          → lookup key (target_of desired) ≡ some t
          → has_nets w t ≡ true
      target_of-has_nets key t found =
          let (d, there, is) = target_of-found key desired t found in
          let (u, p, (at, has), (same, parses), some_nets) = of key d there in
          subst (λ x. has_nets w x ≡ true) (some-injective (peer_of_desired d) t is)
            (ap not some_nets)
