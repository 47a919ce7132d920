-- ===== src/Backend/WireGuard/Sync/Intended.antt =====
-- backend/wireguard/user_common.go, normalizeUsers and collectDesiredPeers: which users the desired
-- peers are of.
use hpxnode.Prelude.{
  true, false, not, ◌||◌, List, [], ◌∷◌, none, some, String, string_eq, ◌==◌, if◌then◌else◌, nat_eq,
  length, All, arith, ◌≡◌, refl, ap, subst, inl, inr,
}
use text.Mathlib.TextEquality.{eq_iff}
use hpxnode.Prelude.Dict.{Dict, lookup, insert, IsDict, insert-IsDict, beq_refl, dict_values}
use hpxnode.Prelude.DictLaws.{insert-cases, lookup_rest}
use hpxnode.Backend.OpenVpn.Users.{User, Wireguard}
use hpxnode.Backend.WireGuard.Sync.Desired.{
  Wire, Config, DesiredPeer, usable, user_wireguard_proxy, last_by_email, normalize_users,
  desired_of, Collected, collect_loop, collect_desired_peers,
}
use hpxnode.Backend.WireGuard.Sync.Claims.{Holds}
use hpxnode.Backend.WireGuard.Sync.Collect.{IfPlaced, collect_loop-Holds, Holds-desired}

-- Each user stands under its own name.
abbrev pub AreNamed : Dict String User → Type 0
AreNamed m = (email : String) (u : User) → lookup email m ≡ some u → u.email ≡ email

last_by_email-Kept :
    (P : Dict String User → Type 0) (Q : User → Type 0) (field : String)
    → ((u : User) (m : Dict String User) → Q u → P m → P (insert u.email u m))
    → (us : List User) (m : Dict String User) → All Q us
    → P m
    → P (last_by_email us field m)
unfolding last_by_email
last_by_email-Kept P Q field step [] m q h = h
last_by_email-Kept P Q field step (u ∷ us) m (first, rest) h =
    elim (u.email == "" || not (usable (user_wireguard_proxy u field)))
      as (λ b. P (last_by_email us field (if b then m else insert u.email u m))) [
        | true ↦ last_by_email-Kept P Q field step us m rest h
        | false ↦ last_by_email-Kept P Q field step us (insert u.email u m) rest (step u m first h)
      ]

any_user : (us : List User) → All (λ u. Unit {0}) us
any_user [] = tt
any_user (u ∷ us) = (tt, any_user us)

-- The users of the map have the property, under their names.
abbrev AllNamed : (User → Type 0) → Dict String User → Type 0
AllNamed Q m = (email : String) (u : User) → lookup email m ≡ some u → (u.email ≡ email) × Q u

AllNamed-insert :
    (Q : User → Type 0) (u : User) (m : Dict String User)
    → Q u
    → AllNamed Q m
    → AllNamed Q (insert u.email u m)
AllNamed-insert Q u m q h email v found = elim (insert-cases u.email email u v m found) [
  | inl (named, is) ↦ (subst (λ x. x.email ≡ email) is named, subst Q is q)
  | inr before ↦ h email v before
]

pub last_by_email-All :
    (Q : User → Type 0) (us : List User) (field : String)
    → All Q us
    → AllNamed Q (last_by_email us field [])
unfolding lookup
last_by_email-All Q us field all =
    last_by_email-Kept (AllNamed Q) Q field (AllNamed-insert Q) us [] all
      (λ email u found. absurd (cc found))

pub last_by_email-IsDict : (us : List User) (field : String) → IsDict (last_by_email us field [])
last_by_email-IsDict us field =
    last_by_email-Kept IsDict (λ u. Unit) field (λ u m q d. insert-IsDict u.email u m d) us []
      (any_user us) tt

-- The user is the one of the map under its name.
abbrev pub IsListed : Dict String User → User → Type 0
IsListed m u = lookup u.email m ≡ some u

IsListed-rest :
    (m : Dict String User) (email : String) (v : User) (us : List User)
    → lookup email m ≡ none
    → All (IsListed m) us
    → All (IsListed ((email, v) ∷ m)) us
unfolding lookup
IsListed-rest m email v [] new h = tt
IsListed-rest m email v (u ∷ us) new (first, rest) = (
  ground (arith, first, new, eq_iff email u.email, ap (λ e. lookup e m)),
  IsListed-rest m email v us new rest,
)

IsListed-values : (m : Dict String User) → IsDict m → AreNamed m → All (IsListed m) (dict_values m)
unfolding lookup
IsListed-values [] d named = tt
IsListed-values ((email, u) ∷ m) (new, d) named =
    let is = named email u (rw (beq_refl email) refl) in
    (
      rw (is, beq_refl email) refl,
      IsListed-rest m email u (dict_values m) new
          (IsListed-values m d (λ e v found. named e v (lookup_rest email e u v m new found))),
    )

-- After the normalization each user is the last usable one of its name.
pub normalize_users-IsListed :
    (us : List User) (field : String)
    → All (IsListed (last_by_email us field [])) (normalize_users us field)
unfolding normalize_users
normalize_users-IsListed us field =
    IsListed-values (last_by_email us field []) (last_by_email-IsDict us field)
      (λ email u found. (last_by_email-All (λ v. Unit) us field (any_user us) email u found).0)

module _ {Key : Type 0} (w : Wire Key) (c : Config Key) (m : Dict String User) where
  -- The desired peer is that of the user of its name: under the user's public key, parsed, with
  -- some addresses.
  abbrev pub IsOf : String → DesiredPeer Key → Type 0
  IsOf key d =
      (u : User) × (p : Wireguard) × ((lookup d.email m ≡ some u)
        × (user_wireguard_proxy u c.proxy_field ≡ some p))
      × ((p.public_key ≡ key) × (w.parse_key key ≡ some d.parsed_key))
      × (nat_eq (length d.allowed_ip_nets) 0 ≡ false)

  abbrev pub AreOf : Dict String (DesiredPeer Key) → Type 0
  AreOf desired = (key : String) (d : DesiredPeer Key) → lookup key desired ≡ some d → IsOf key d

  AreOf-placed :
      (u : User) (st : Collected w) → IsListed m u → AreOf st.1 → IfPlaced w c u (λ r. AreOf r.1) st
  AreOf-placed u (seen, desired) listed old next p parsed net nets g claimed is key free other d
        found =
      elim (insert-cases p.public_key other (desired_of w u p.public_key parsed (net ∷ nets)) d
        desired found) [
          | inl (same, this) ↦ subst (IsOf other) this (
            u,
            p,
            (listed, is),
            (same, subst (λ k. w.parse_key k ≡ some parsed) same key),
            ground arith,
          )
          | inr before ↦ old other d before
        ]

  IsDict-placed : (u : User) (st : Collected w) → IsDict st.1 → IfPlaced w c u (λ r. IsDict r.1) st
  IsDict-placed u (seen, desired) d next p parsed net nets g claimed is key free =
      insert-IsDict p.public_key (desired_of w u p.public_key parsed (net ∷ nets)) desired d

  pub All-map :
      {P Q : User → Type 0} (us : List User) → ((u : User) → P u → Q u) → All P us → All Q us
  All-map [] f h = tt
  All-map (u ∷ us) f (first, rest) = (f u first, All-map us f rest)

  pub collect_desired_peers-AreOf :
      (us : List User) → All (IsListed m) us → Holds AreOf (collect_desired_peers w c us)
  unfolding collect_desired_peers lookup
  collect_desired_peers-AreOf us listed = Holds-desired w AreOf (collect_loop w c us ([], [])) (
      collect_loop-Holds w (λ st. AreOf st.1) c us ([], [])
        (All-map us (λ u is st old. ((λ next g. old), AreOf-placed u st is old)) listed)
        (λ key d found. absurd (cc found)))

  pub collect_desired_peers-IsDict : (us : List User) → Holds IsDict (collect_desired_peers w c us)
  unfolding collect_desired_peers
  collect_desired_peers-IsDict us = Holds-desired w IsDict (collect_loop w c us ([], [])) (
      collect_loop-Holds w (λ st. IsDict st.1) c us ([], [])
        (All-map us (λ u is st old. ((λ next g. old), IsDict-placed u st old)) (any_user us)) tt)
