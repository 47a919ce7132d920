-- ===== src/Backend/OpenVpn/Distinct.antt =====
-- backend/openvpn/config.go: which endpoints the check accepts.
use hpxnode.Prelude.{
  true, false, List, [], ◌∷◌, All, map, arith, ◌↔◌, ◌≡◌, refl, sym, ap, ◌∙◌, inl, inr, ◌⊎◌,
}
use hpxnode.Backend.OpenVpn.Listeners.{
  Listener, Endpoints, Refusal, Checked, refused, accepted, allowed_proto, filled, seen_before,
  bad_port, check_listeners, in_sync, normalize_from, normalize_listeners,
}

abbrev pub IsChecked : Listener → Type 0
IsChecked l = (bad_port l.port ≡ false) × (allowed_proto l.proto ≡ true)

abbrev pub AreUnseen : List Listener → List Listener → Type 0
AreUnseen seen [] = Unit
AreUnseen seen (l ∷ ls) = (seen_before l seen ≡ false) × AreUnseen (l ∷ seen) ls

Checked-cases :
    {A : Type 0} (r : Checked A) → ((e : Refusal) × (r ≡ refused e)) ⊎ ((a : A) × (r ≡ accepted a))
Checked-cases (refused e) = inl (e, refl)
Checked-cases (accepted a) = inr (a, refl)

check_listeners-accepted :
    (c : Endpoints) (seen ls out : List Listener)
    → check_listeners c seen ls ≡ accepted out
    → (All IsChecked (map (filled c) ls) × AreUnseen seen (map (filled c) ls))
      × (out ≡ map (filled c) ls)
unfolding check_listeners
check_listeners-accepted c seen [] out h = ground (arith, h)
check_listeners-accepted c seen (l ∷ ls) out h =
    elim (Checked-cases (check_listeners c (filled c l ∷ seen) ls)) [
      | inl (e, stop) ↦ absurd (ground (arith, h, stop))
      | inr (rest, go) ↦
          ground (arith, h, go, check_listeners-accepted c (filled c l ∷ seen) ls rest go)
    ]

check_listeners_complete :
    (c : Endpoints) (seen ls : List Listener)
    → All IsChecked (map (filled c) ls)
    → AreUnseen seen (map (filled c) ls)
    → check_listeners c seen ls ≡ accepted (map (filled c) ls)
unfolding check_listeners
check_listeners_complete c seen [] usable distinct = refl
check_listeners_complete c seen (l ∷ ls) usable distinct =
    rw
      (
        usable.0.0,
        usable.0.1,
        distinct.0,
        check_listeners_complete c (filled c l ∷ seen) ls usable.1 distinct.1,
      )
      refl

-- The result for a nonempty list of endpoints, with the defaults filled in.
abbrev pub all_filled : Endpoints → Listener → List Listener → Endpoints
all_filled c l ls = record {
  port = (filled c l).port;
  proto = (filled c l).proto;
  listeners = map (filled c) (l ∷ ls);
}

normalize_from_complete :
    (c : Endpoints) (l : Listener) (ls : List Listener)
    → All IsChecked (map (filled c) (l ∷ ls))
    → AreUnseen [] (map (filled c) (l ∷ ls))
    → normalize_from c (l ∷ ls) ≡ accepted (all_filled c l ls)
unfolding normalize_from
normalize_from_complete c l ls usable distinct =
    ap (in_sync c) (check_listeners_complete c [] (l ∷ ls) usable distinct)

normalize_from-accepted :
    (c : Endpoints) (l : Listener) (ls : List Listener)
    → normalize_from c (l ∷ ls) ≡ accepted (all_filled c l ls)
    → All IsChecked (map (filled c) (l ∷ ls)) × AreUnseen [] (map (filled c) (l ∷ ls))
unfolding normalize_from
normalize_from-accepted c l ls h = elim (Checked-cases (check_listeners c [] (l ∷ ls))) [
  | inl (e, stop) ↦ absurd (cc (h, ap (in_sync c) stop))
  | inr (out, go) ↦ (check_listeners-accepted c [] (l ∷ ls) out go).0
]

pub normalize_listeners-distinct :
    (c : Endpoints) (l : Listener) (ls : List Listener)
    → c.listeners ≡ l ∷ ls
    → (normalize_listeners c ≡ accepted (all_filled c l ls))
      ↔ (All IsChecked (map (filled c) (l ∷ ls)) × AreUnseen [] (map (filled c) (l ∷ ls)))
unfolding normalize_listeners
normalize_listeners-distinct c l ls given = (
  (λ h. normalize_from-accepted c l ls (sym (ap (normalize_from c) given) ∙ h)),
  (λ (usable, distinct).
      ap (normalize_from c) given ∙ normalize_from_complete c l ls usable distinct),
)
