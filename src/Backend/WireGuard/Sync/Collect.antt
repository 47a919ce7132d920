-- ===== src/Backend/WireGuard/Sync/Collect.antt =====
-- backend/wireguard/user_common.go, collectDesiredPeers: an induction principle for the loop over the
-- users, and the addresses of the desired peers.
use hpxnode.Prelude.{
  true, false, List, [], ◌∷◌, Option, none, some, String, string_eq, if◌then◌else◌, All, ◌≡◌, ◌≢◌,
  refl, sym, ap, ◌∙◌, subst, inl, inr,
}
use hpxnode.Prelude.Dict.{Dict, lookup, insert}
use hpxnode.Prelude.DictLaws.{insert-cases}
use mathlib.Core.Option.{some-injective}
use hpxnode.Backend.OpenVpn.Users.{User, Wireguard}
use hpxnode.Backend.WireGuard.PeerStore.{IpNet}
use hpxnode.Backend.WireGuard.Sync.Desired.{
  Wire, Config, DesiredPeer, Outcome, done, failed, and_then, other_owner, check_ips, claim_key,
  collect_key, desired_of, interface_networks, place_peer, email_of_desired, Collected,
  collect_proxy, collect_user, collect_loop, collect_desired_peers, user_wireguard_proxy,
  should_include_user_in_interface,
}
use hpxnode.Backend.WireGuard.Sync.Claims.{
  Holds, Holds-and_then, Holds-map, AreClaimed, Grows, AreClaimed-Grows, Promise, check_ips-Promise,
}

module _ {Key : Type 0} (w : Wire Key) where
  -- What a property needs to be kept by the turn of one user: it is kept when the user only notes
  -- claims, and when the user's peer is placed.
  abbrev pub IfKept : (Collected w → Type 0) → Collected w → Type 0
  IfKept P st = (next : Dict String String) → Grows w st.0 next → P (next, st.1)

  abbrev pub IfPlaced : Config Key → User → (Collected w → Type 0) → Collected w → Type 0
  IfPlaced c u P st =
      (next : Dict String String) (p : Wireguard) (parsed : Key) (net : IpNet) (nets : List IpNet)
      → Grows w st.0 next
      → AreClaimed w next u.email (net ∷ nets)
      → user_wireguard_proxy u c.proxy_field ≡ some p
      → w.parse_key p.public_key ≡ some parsed
      → other_owner u.email (email_of_desired w (lookup p.public_key st.1)) ≡ none
      → P (next, insert p.public_key (desired_of w u p.public_key parsed (net ∷ nets)) st.1)

  claim_key-Holds :
      (P : Collected w → Type 0) (u : User) (key : String) (parsed : Key) (nets : List IpNet)
      (seen : Dict String String) (desired : Dict String (DesiredPeer Key)) (o : Option String)
      → (o ≡ none → P (seen, insert key (desired_of w u key parsed nets) desired))
      → Holds P (claim_key w u key parsed nets o (seen, desired))
  claim_key-Holds P u key parsed nets seen desired none h = h refl
  claim_key-Holds P u key parsed nets seen desired (some owner) h = tt

  place_peer-Holds :
      (P : Collected w → Type 0) (c : Config Key) (u : User) (p : Wireguard) (parsed : Key)
      (seen : Dict String String) (desired : Dict String (DesiredPeer Key))
      (r : Dict String String × Option (List IpNet))
      → user_wireguard_proxy u c.proxy_field ≡ some p
      → w.parse_key p.public_key ≡ some parsed
      → IfKept P (seen, desired)
      → IfPlaced c u P (seen, desired)
      → Promise w u.email seen r
      → Holds P (place_peer w u p.public_key parsed desired r)
  unfolding place_peer
  place_peer-Holds P c u p parsed seen desired (next, none) is key kept placed (g, claimed) =
      kept next g
  place_peer-Holds P c u p parsed seen desired (next, some []) is key kept placed (g, claimed) =
      kept next g
  place_peer-Holds P c u p parsed seen desired (next, some (net ∷ nets)) is key kept placed
        (g, claimed) =
      claim_key-Holds P u p.public_key parsed (net ∷ nets) next desired
        (other_owner u.email (email_of_desired w (lookup p.public_key desired)))
        (placed next p parsed net nets g claimed is key)

  collect_key-Holds :
      (P : Collected w → Type 0) (c : Config Key) (u : User) (p : Wireguard) (o : Option Key)
      (seen : Dict String String) (desired : Dict String (DesiredPeer Key))
      → user_wireguard_proxy u c.proxy_field ≡ some p
      → w.parse_key p.public_key ≡ o
      → IfKept P (seen, desired)
      → IfPlaced c u P (seen, desired)
      → Holds P (collect_key w c u p o (seen, desired))
  collect_key-Holds P c u p none seen desired is key kept placed =
      kept seen (λ ip owner found. found)
  collect_key-Holds P c u p (some parsed) seen desired is key kept placed =
      let checked = check_ips w (interface_networks w c) u.email p.peer_ips (seen, []) in
      Holds-and_then P checked (place_peer w u p.public_key parsed desired) (λ r e.
        place_peer-Holds P c u p parsed seen desired r is key kept placed (
          subst (Holds (Promise w u.email seen)) e
            (check_ips-Promise w (interface_networks w c) u.email p.peer_ips (seen, []) tt)))

  collect_proxy-Holds :
      (P : Collected w → Type 0) (c : Config Key) (u : User) (o : Option Wireguard)
      (st : Collected w)
      → user_wireguard_proxy u c.proxy_field ≡ o
      → IfKept P st
      → IfPlaced c u P st
      → Holds P (collect_proxy w c u o st)
  unfolding collect_proxy
  collect_proxy-Holds P c u none (seen, desired) is kept placed =
      kept seen (λ ip owner found. found)
  collect_proxy-Holds P c u (some p) (seen, desired) is kept placed =
      collect_key-Holds P c u p (w.parse_key p.public_key) seen desired is refl kept placed

  collect_user-Holds :
      (P : Collected w → Type 0) (c : Config Key) (u : User) (st : Collected w)
      → IfKept P st
      → IfPlaced c u P st
      → Holds P (collect_user w c u st)
  unfolding collect_user
  collect_user-Holds P c u st kept placed =
      elim (should_include_user_in_interface u c.interface_name)
        as (λ b.
          Holds P (
            if b then collect_proxy w c u (user_wireguard_proxy u c.proxy_field) st else done st)) [
              | true ↦
                  collect_proxy-Holds P c u (user_wireguard_proxy u c.proxy_field) st refl kept
                    placed
              | false ↦ kept st.0 (λ ip owner found. found)
            ]

  -- A property that each user's turn keeps holds of what the loop collects.
  pub collect_loop-Holds :
      (P : Collected w → Type 0) (c : Config Key) (us : List User) (st : Collected w)
      → All (λ u. (st : Collected w) → P st → IfKept P st × IfPlaced c u P st) us
      → P st
      → Holds P (collect_loop w c us st)
  unfolding collect_loop
  collect_loop-Holds P c [] st each h = h
  collect_loop-Holds P c (u ∷ us) st (first, rest) h =
      Holds-and_then P (collect_user w c u st) (collect_loop w c us) (λ next e.
        collect_loop-Holds P c us next rest
          (subst (Holds P) e (collect_user-Holds P c u st (first st h).0 (first st h).1)))

  -- Each desired peer holds the claims to its own addresses.
  abbrev pub OwnsItsIps : Collected w → Type 0
  OwnsItsIps (seen, desired) =
      (key : String) (d : DesiredPeer Key)
      → lookup key desired ≡ some d
      → AreClaimed w seen d.email d.allowed_ip_nets

  OwnsItsIps-kept : (st : Collected w) → OwnsItsIps st → IfKept OwnsItsIps st
  OwnsItsIps-kept (seen, desired) own next g key d found =
      AreClaimed-Grows w seen next d.email d.allowed_ip_nets g (own key d found)

  OwnsItsIps-placed :
      (c : Config Key) (u : User) (st : Collected w) → OwnsItsIps st → IfPlaced c u OwnsItsIps st
  OwnsItsIps-placed c u (seen, desired) own next p parsed net nets g claimed is key free other d
        found =
      elim (insert-cases p.public_key other (desired_of w u p.public_key parsed (net ∷ nets)) d
        desired found) [
          | inl (same, this) ↦ subst (λ x. AreClaimed w next x.email x.allowed_ip_nets) this claimed
          | inr before ↦ OwnsItsIps-kept (seen, desired) own next g other d before
        ]

  -- Of two desired peers of different users, no address of the one is an address of the other.
  abbrev pub NetsApart : List IpNet → List IpNet → Type 0
  NetsApart a b = All (λ m. All (λ n. w.net_string m ≢ w.net_string n) b) a

  net_apart :
      (seen : Dict String String) (d e : String) (m : IpNet) (b : List IpNet)
      → d ≢ e
      → lookup (w.net_string m) seen ≡ some d
      → AreClaimed w seen e b
      → All (λ n. w.net_string m ≢ w.net_string n) b
  net_apart seen d e m [] differ claimed h = tt
  net_apart seen d e m (n ∷ b) differ claimed (first, rest) = (
    (λ same. differ (some-injective d e (sym claimed ∙ (ap (λ t. lookup t seen) same ∙ first)))),
    net_apart seen d e m b differ claimed rest,
  )

  nets_apart :
      (seen : Dict String String) (d e : String) (a b : List IpNet)
      → d ≢ e
      → AreClaimed w seen d a
      → AreClaimed w seen e b
      → NetsApart a b
  nets_apart seen d e [] b differ h k = tt
  nets_apart seen d e (m ∷ a) b differ (first, rest) k =
      (net_apart seen d e m b differ first k, nets_apart seen d e a b differ rest k)

  pub Holds-desired :
      (P : Dict String (DesiredPeer Key) → Type 0) (o : Outcome (Collected w))
      → Holds (λ st. P st.1) o
      → Holds P (and_then o (λ st. done st.1))
  Holds-desired P (done st) h = h
  Holds-desired P (failed e) h = h

  All-users : {P : User → Type 0} → ((u : User) → P u) → (us : List User) → All P us
  All-users h [] = tt
  All-users h (u ∷ us) = (h u, All-users h us)

  abbrev pub AreApart : Dict String (DesiredPeer Key) → Type 0
  AreApart desired =
      (j k : String) (d e : DesiredPeer Key)
      → lookup j desired ≡ some d
      → lookup k desired ≡ some e
      → d.email ≢ e.email
      → NetsApart d.allowed_ip_nets e.allowed_ip_nets

  collect_desired_peers-AreApart :
      (c : Config Key) (us : List User) → Holds AreApart (collect_desired_peers w c us)
  unfolding collect_desired_peers lookup
  collect_desired_peers-AreApart c us = Holds-desired AreApart (collect_loop w c us ([], [])) (
      Holds-map OwnsItsIps (λ st. AreApart st.1) (collect_loop w c us ([], []))
        (λ (seen, desired) own j k d e at_j at_k differ.
          nets_apart seen d.email e.email d.allowed_ip_nets e.allowed_ip_nets differ (own j d at_j)
            (own k e at_k))
        (collect_loop-Holds OwnsItsIps c us ([], [])
          (All-users (λ u st own. (OwnsItsIps-kept st own, OwnsItsIps-placed c u st own)) us)
          (λ key d found. absurd (cc found))))

  -- When the desired peers of a list of users are collected without an error, no address of a peer is
  -- an address of a peer of another user, by the addresses' text.
  pub collect_desired_peers-apart :
      (c : Config Key) (us : List User) (desired : Dict String (DesiredPeer Key)) (j k : String)
      (d e : DesiredPeer Key)
      → collect_desired_peers w c us ≡ done desired
      → lookup j desired ≡ some d
      → lookup k desired ≡ some e
      → d.email ≢ e.email
      → NetsApart d.allowed_ip_nets e.allowed_ip_nets
  collect_desired_peers-apart c us desired j k d e collected =
      subst (Holds AreApart) collected (collect_desired_peers-AreApart c us) j k d e
