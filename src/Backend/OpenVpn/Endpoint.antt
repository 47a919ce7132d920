-- ===== src/Backend/OpenVpn/Endpoint.antt =====
-- backend/openvpn/config.go: what a usable list of endpoints is, and that the check decides it.
use hpxnode.Prelude.{
  ℕ, true, false, List, [], ◌∷◌, All, map, arith, ◌↔◌, ◌≡◌, ◌≢◌, refl, sym, ap, subst, inl, inr,
  ◌⊎◌, Bool-cases, if◌then◌else◌,
}
use hpxnode.Prelude.Int.{ℤ, pos, ◌≤ℤ◌, eq_ℤ, eq_of_parts}
use hpxnode.Prelude.Text.{codes, to_lower, trim_space}
use hpxnode.Backend.OpenVpn.Listeners.{
  Listener, Endpoints, accepted, allowed_proto, filled, seen_before, bad_port, codes_eq,
  same_endpoint, normalize_listeners, proto_or,
}
use hpxnode.Backend.OpenVpn.Distinct.{IsChecked, AreUnseen, normalize_listeners-distinct}

-- The port is from 1 to 65535, and the protocol one of the six.
abbrev pub IsUsable : Listener → Type 0
IsUsable l =
    ((pos 1 ≤ℤ l.port) × (l.port ≤ℤ pos 65535))
    × ((l.proto ≡ codes "udp")
        ⊎ ((l.proto ≡ codes "tcp")
            ⊎ ((l.proto ≡ codes "udp4")
                ⊎ ((l.proto ≡ codes "udp6")
                    ⊎ ((l.proto ≡ codes "tcp4") ⊎ (l.proto ≡ codes "tcp6"))))))

-- No two listeners of the list are the same.
abbrev pub AreDistinct : List Listener → Type 0
AreDistinct [] = Unit
AreDistinct (l ∷ ls) = All (λ k. l ≢ k) ls × AreDistinct ls

-- A protocol without spaces and in lower case, or the default for an empty one.
abbrev pub text_or : List ℕ → List ℕ → List ℕ
text_or default [] = default
text_or default (c ∷ text) = c ∷ text

-- A listener with the core's port for port 0 and the core's protocol for an empty one.
abbrev pub completed : Endpoints → Listener → Listener
completed c l = record {
  port = if eq_ℤ l.port (pos 0) then c.port else l.port;
  proto = text_or c.proto (to_lower (trim_space l.proto));
}

codes_eq-same : (s t : List ℕ) → codes_eq s t ≡ true → s ≡ t
unfolding codes_eq
codes_eq-same [] [] h = refl
codes_eq-same [] (d ∷ t) h = absurd (cc h)
codes_eq-same (c ∷ s) [] h = absurd (cc h)
codes_eq-same (c ∷ s) (d ∷ t) h = ground (arith, h, codes_eq-same s t)

codes_eq_refl : (s : List ℕ) → codes_eq s s ≡ true
unfolding codes_eq
codes_eq_refl [] = refl
codes_eq_refl (c ∷ s) = ground (arith, codes_eq_refl s)

codes_eq_iff : (s t : List ℕ) → (codes_eq s t ≡ true) ↔ (s ≡ t)
codes_eq_iff s t = (codes_eq-same s t, λ e. subst (λ x. codes_eq s x ≡ true) e (codes_eq_refl s))

same_endpoint_iff : (l k : Listener) → (same_endpoint l k ≡ true) ↔ (l ≡ k)
unfolding same_endpoint
same_endpoint_iff l k = (
  λ h.
      let protos : l.proto ≡ k.proto = codes_eq-same l.proto k.proto (ground (arith, h)) in
      let ports : l.port ≡ k.port = eq_of_parts l.port k.port (ground (arith, h)) in
      ap (λ (x : ℤ × List ℕ). record { port = x.0; proto = x.1 }) (cc (protos, ports)),
  λ e.
      subst (λ x. same_endpoint l x ≡ true) e
        (unfold same_endpoint in ground (arith, codes_eq_refl l.proto)),
)

IsChecked-IsUsable : (l : Listener) → IsChecked l ↔ IsUsable l
unfolding bad_port allowed_proto
IsChecked-IsUsable l = ground (
  arith,
  codes_eq_iff l.proto (codes "udp"),
  codes_eq_iff l.proto (codes "tcp"),
  codes_eq_iff l.proto (codes "udp4"),
  codes_eq_iff l.proto (codes "udp6"),
  codes_eq_iff l.proto (codes "tcp4"),
  codes_eq_iff l.proto (codes "tcp6"),
)

All-iff :
    (P Q : Listener → Type 0) (ls : List Listener)
    → ((l : Listener) → P l ↔ Q l)
    → All P ls ↔ All Q ls
All-iff P Q [] h = (λ p. p, λ q. q)
All-iff P Q (l ∷ ls) h = (
  λ (p, ps). ((h l).0 p, (All-iff P Q ls h).0 ps),
  λ (q, qs). ((h l).1 q, (All-iff P Q ls h).1 qs),
)

All-both :
    (P Q : Listener → Type 0) (ls : List Listener) → All (λ l. P l × Q l) ls ↔ (All P ls × All Q ls)
All-both P Q [] = (λ h. (tt, tt), λ h. tt)
All-both P Q (l ∷ ls) = (
  λ ((p, q), rest). let (ps, qs) = (All-both P Q ls).0 rest in ((p, ps), (q, qs)),
  λ ((p, ps), (q, qs)). ((p, q), (All-both P Q ls).1 (ps, qs)),
)

seen_before-other :
    (l : Listener) (seen : List Listener) → (seen_before l seen ≡ false) ↔ All (λ k. k ≢ l) seen
unfolding seen_before
seen_before-other l [] = (λ h. tt, λ h. refl)
seen_before-other l (k ∷ seen) = elim (Bool-cases (same_endpoint l k)) [
  | inl same ↦ (
    λ h. absurd (cc (rw same at h)),
    λ (other, rest). absurd (other (sym ((same_endpoint_iff l k).0 same))),
  )
  | inr other ↦ (
    λ h. (
      λ e. absurd (cc ((same_endpoint_iff l k).1 (sym e), other)),
      (seen_before-other l seen).0 (rw other at h),
    ),
    λ (apart, rest). rw other ((seen_before-other l seen).1 rest),
  )
]

-- The listeners are none of those seen.
abbrev AreNew : List Listener → List Listener → Type 0
AreNew seen ls = All (λ l. All (λ k. k ≢ l) seen) ls

unseen-AreDistinct :
    (seen ls : List Listener) → AreUnseen seen ls ↔ (AreNew seen ls × AreDistinct ls)
unseen-AreDistinct seen [] = (λ h. (tt, tt), λ h. tt)
unseen-AreDistinct seen (l ∷ ls) =
    let rest = unseen-AreDistinct (l ∷ seen) ls in
    let both = All-both (λ k. l ≢ k) (λ k. All (λ j. j ≢ k) seen) ls in
    (
      λ (new, later).
          let (fresh, distinct) = rest.0 later in
          let (apart, olds) = both.0 fresh in
          (((seen_before-other l seen).0 new, olds), (apart, distinct)),
      λ ((new, olds), (apart, distinct)).
          ((seen_before-other l seen).1 new, rest.1 (both.1 (apart, olds), distinct)),
    )

nothing_seen : (ls : List Listener) → AreNew [] ls
nothing_seen [] = tt
nothing_seen (l ∷ ls) = (tt, nothing_seen ls)

text_or-same : (default p : List ℕ) → proto_or default p ≡ text_or default p
text_or-same default [] = refl
text_or-same default (c ∷ p) = refl

filled-completed : (c : Endpoints) (l : Listener) → filled c l ≡ completed c l
unfolding filled
filled-completed c l =
    ap (λ p. record { port = if eq_ℤ l.port (pos 0) then c.port else l.port; proto = p })
      (text_or-same c.proto (to_lower (trim_space l.proto)))

map-completed : (c : Endpoints) (ls : List Listener) → map (filled c) ls ≡ map (completed c) ls
map-completed c [] = refl
map-completed c (l ∷ ls) = rw (filled-completed c l, map-completed c ls) refl

-- What the core is configured with: the completed endpoints, the first one as the core's own.
abbrev pub with_all : List Listener → Endpoints → Endpoints
with_all [] c = c
with_all (l ∷ ls) c = record { port = l.port; proto = l.proto; listeners = l ∷ ls }

-- A nonempty list of endpoints is accepted, with the core's port and protocol in place of those left
-- out and the first endpoint as the core's own, exactly when every one then has a port from 1 to
-- 65535 and one of the protocols udp, tcp, udp4, udp6, tcp4 and tcp6, and no two have the same port
-- and protocol.
pub normalize_listeners_lem :
    (c : Endpoints) (l : Listener) (ls : List Listener)
    → c.listeners ≡ l ∷ ls
    → (normalize_listeners c ≡ accepted (with_all (map (completed c) (l ∷ ls)) c))
      ↔ (All IsUsable (map (completed c) (l ∷ ls)) × AreDistinct (map (completed c) (l ∷ ls)))
normalize_listeners_lem c l ls given =
    let all = map (completed c) (l ∷ ls) in
    let usable = All-iff IsChecked IsUsable all IsChecked-IsUsable in
    let distinct = unseen-AreDistinct [] all in
    let decided : (normalize_listeners c ≡ accepted (with_all all c))
        ↔ (All IsChecked all × AreUnseen [] all) =
      subst
        (λ m.
          (normalize_listeners c ≡ accepted (with_all m c)) ↔ (All IsChecked m × AreUnseen [] m))
        (map-completed c (l ∷ ls)) (normalize_listeners-distinct c l ls given) in
    (
      λ h. let (checked, unseen) = decided.0 h in (usable.0 checked, (distinct.0 unseen).1),
      λ (good, apart). decided.1 (usable.1 good, distinct.1 (nothing_seen all, apart)),
    )
