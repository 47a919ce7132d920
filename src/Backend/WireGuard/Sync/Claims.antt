-- ===== src/Backend/WireGuard/Sync/Claims.antt =====
-- backend/wireguard/user_common.go, collectDesiredPeers: whose the addresses are.
use hpxnode.Prelude.{
  true, false, not, List, [], ◌∷◌, ◌++◌, Option, none, some, String, string_eq, if◌then◌else◌, All,
  arith, ◌≡◌, refl, sym,
}
use text.Mathlib.TextEquality.{eq_iff}
use hpxnode.Prelude.Dict.{Dict, lookup, insert, lookup-insert, beq_refl}
use hpxnode.Backend.WireGuard.PeerStore.{IpNet}
use hpxnode.Backend.WireGuard.Sync.Desired.{
  Wire, Outcome, done, failed, and_then, other_owner, check_ips, Claims, Checked, claim_net,
  check_ip, peer_ip_allowed_on_interface,
}
use hpxnode.Prelude.Text.{codes}

-- A result that is no error has the property.
abbrev pub Holds {ℓ κ} : {A : Type ℓ} → (A → Type κ) → Outcome A → Type κ
Holds P (done a) = P a
Holds P (failed e) = Unit

pub Holds-and_then {ℓ κ ι} :
    {A : Type ℓ} {B : Type κ} (P : B → Type ι) (o : Outcome A) (f : A → Outcome B)
    → ((a : A) → o ≡ done a → Holds P (f a))
    → Holds P (and_then o f)
Holds-and_then P (done a) f h = h a refl
Holds-and_then P (failed e) f h = tt

pub Holds-map {ℓ κ ι} :
    {A : Type ℓ} (P : A → Type κ) (Q : A → Type ι) (o : Outcome A)
    → ((a : A) → P a → Q a)
    → Holds P o
    → Holds Q o
Holds-map P Q (done a) f h = f a h
Holds-map P Q (failed e) f h = tt

pub other_owner-none :
    (email : String) (o : Option String)
    → other_owner email o ≡ none
    → (owner : String) → o ≡ some owner
    → owner ≡ email
other_owner-none email none h owner found = absurd (cc found)
other_owner-none email (some x) h owner found = ground (arith, eq_iff x email, h, found)

module _ {Key : Type 0} (w : Wire Key) where
  -- The user's claim to each of the prefixes is noted.
  abbrev pub AreClaimed : Dict String String → String → List IpNet → Type 0
  AreClaimed seen email nets = All (λ n. lookup (w.net_string n) seen ≡ some email) nets

  abbrev pub Grows : Dict String String → Dict String String → Type 0
  Grows seen next = (ip owner : String) → lookup ip seen ≡ some owner → lookup ip next ≡ some owner

  abbrev pub nets_of : Option (List IpNet) → List IpNet
  nets_of none = []
  nets_of (some nets) = nets

  pub AreClaimed-Grows :
      (seen next : Dict String String) (email : String) (nets : List IpNet)
      → Grows seen next
      → AreClaimed seen email nets
      → AreClaimed next email nets
  AreClaimed-Grows seen next email [] g h = tt
  AreClaimed-Grows seen next email (n ∷ nets) g (first, rest) =
      (g (w.net_string n) email first, AreClaimed-Grows seen next email nets g rest)

  AreClaimed-snoc :
      (seen : Dict String String) (email : String) (nets : List IpNet) (n : IpNet)
      → AreClaimed seen email nets
      → lookup (w.net_string n) seen ≡ some email
      → AreClaimed seen email (nets ++ n ∷ [])
  AreClaimed-snoc seen email [] n h last = (last, tt)
  AreClaimed-snoc seen email (m ∷ nets) n (first, rest) last =
      (first, AreClaimed-snoc seen email nets n rest last)

  -- Noting a claim that no other user has keeps the claims that are there.
  Grows-insert :
      (ip email : String) (seen : Dict String String)
      → other_owner email (lookup ip seen) ≡ none
      → Grows seen (insert ip email seen)
  Grows-insert ip email seen free other owner found = ground (
    arith,
    lookup-insert {V = String} ip other email seen,
    eq_iff ip other,
    other_owner-none email (lookup ip seen) free owner,
    found,
  )

  -- What the loop over a user's addresses promises.
  abbrev pub Promise :
      String → Dict String String → Dict String String × Option (List IpNet) → Type 0
  Promise email seen r = Grows seen r.0 × AreClaimed r.0 email (nets_of r.1)

  Promise-Grows :
      (email : String) (seen next : Dict String String)
      (r : Dict String String × Option (List IpNet))
      → Grows seen next
      → Promise email next r
      → Promise email seen r
  Promise-Grows email seen next r g (h, claimed) =
      ((λ ip owner found. h ip owner (g ip owner found)), claimed)

  Holds-Grows :
      (email : String) (seen next : Dict String String) (o : Checked w)
      → Grows seen next
      → Holds (Promise email next) o
      → Holds (Promise email seen) o
  Holds-Grows email seen next (done r) g h = Promise-Grows email seen next r g h
  Holds-Grows email seen next (failed e) g h = tt

  claim_net-Promise :
      (email : String) (net : IpNet) (seen : Dict String String) (nets : List IpNet)
      (next : Claims w → Checked w) (o : Option String)
      → o ≡ other_owner email (lookup (w.net_string net) seen)
      → AreClaimed seen email nets
      → ((st : Claims w) → AreClaimed st.0 email st.1 → Holds (Promise email st.0) (next st))
      → Holds (Promise email seen) (claim_net w email net o (seen, nets) next)
  claim_net-Promise email net seen nets next none is h k =
      let ip = w.net_string net in
      let g = Grows-insert ip email seen (sym is) in
      Holds-Grows email seen (insert ip email seen) (next (insert ip email seen, nets ++ net ∷ []))
        g
        (k (insert ip email seen, nets ++ net ∷ [])
          (AreClaimed-snoc (insert ip email seen) email nets net
            (AreClaimed-Grows seen (insert ip email seen) email nets g h)
            (rw (lookup-insert {V = String} ip ip email seen, beq_refl ip) refl)))
  claim_net-Promise email net seen nets next (some owner) is h k = tt

  check_ip-Promise :
      (pools : List IpNet) (email : String) (parsed : Option IpNet) (seen : Dict String String)
      (nets : List IpNet) (next : Claims w → Checked w)
      → AreClaimed seen email nets
      → ((st : Claims w) → AreClaimed st.0 email st.1 → Holds (Promise email st.0) (next st))
      → Holds (Promise email seen) (check_ip w pools email parsed (seen, nets) next)
  check_ip-Promise pools email none seen nets next h k = ((λ ip owner found. found), tt)
  check_ip-Promise pools email (some net) seen nets next h k =
      elim (peer_ip_allowed_on_interface w net pools)
        as (λ b. Holds (Promise email seen) (
          if not b
          then next (seen, nets)
          else claim_net w email net (other_owner email (lookup (w.net_string net) seen))
              (seen, nets) next)) [
                | true ↦
                    claim_net-Promise email net seen nets next
                      (other_owner email (lookup (w.net_string net) seen)) refl h k
                | false ↦ k (seen, nets) h
              ]

  pub check_ips-Promise :
      (pools : List IpNet) (email : String) (texts : List String) (st : Claims w)
      → AreClaimed st.0 email st.1
      → Holds (Promise email st.0) (check_ips w pools email texts st)
  unfolding check_ips
  check_ips-Promise pools email [] (seen, nets) h = ((λ ip owner found. found), h)
  check_ips-Promise pools email (text ∷ texts) (seen, nets) h =
      check_ip-Promise pools email (w.parse_cidr (codes text)) seen nets
        (check_ips w pools email texts) h (check_ips-Promise pools email texts)
