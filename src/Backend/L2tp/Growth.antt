-- ===== src/Backend/L2tp/Growth.antt =====
-- backend/l2tp/stats.go: what a poll adds to the traffic of a user.
use hpxnode.Prelude.{
  Bool, true, false, ◌||◌, List, [], ◌∷◌, ◌++◌, Option, none, some, String, string_eq, ◌==◌,
  if◌then◌else◌, is_some, arith, ◌≡◌, refl, ap, ◌∙◌, subst, Bool-cases, inl, inr,
}
use hpxnode.Prelude.Int.{ℤ, pos, add64, sub64, ltb_ℤ, sub64_parts, parts_disjoint}
use hpxnode.Stats.Accounting.{IsCounter}
use hpxnode.Prelude.Dict.{Dict, lookup, insert, IsDict, insert-IsDict, lookup-insert}
use hpxnode.Stats.Entry.{Sample}
use text.Mathlib.TextEquality.{eq_iff}
use hpxnode.Backend.Composite.{int_or_zero}
use hpxnode.Backend.L2tp.Users.{UserStore}
use hpxnode.Backend.L2tp.Sessions.{Session}
use hpxnode.Backend.L2tp.Poll.{
  State, Growth, group, list_or_empty, pair_or_zero, grown, add_to, measure, measure_all, forget,
  present_of, credit, credit_all, poll,
}

-- A session of the list belongs to the user.
abbrev pub serves : String → List Session → Bool
serves user [] = false
serves user (s ∷ ss) = s.user == user || serves user ss

-- A session of the list runs on the interface.
abbrev pub on_interface : String → List Session → Bool
on_interface ifname [] = false
on_interface ifname (s ∷ ss) = s.ifname == ifname || on_interface ifname ss

-- No two sessions run on one interface.
abbrev pub IsApart : List Session → Type 0
IsApart [] = Unit
IsApart (s ∷ ss) = ((on_interface s.ifname ss) ≡ false) × IsApart ss

went_back :
    (now last : ℤ)
    → IsCounter now
    → IsCounter last
    → ltb_ℤ now last ≡ true
    → ltb_ℤ (sub64 now last) (pos 0) ≡ true
went_back now last n l back =
    ground (arith, n, l, back, sub64_parts now last, parts_disjoint (sub64 now last))

went_on :
    (now last : ℤ)
    → IsCounter now
    → IsCounter last
    → ltb_ℤ now last ≡ false
    → ltb_ℤ (sub64 now last) (pos 0) ≡ false
went_on now last n l on =
    ground (arith, n, l, on, sub64_parts now last, parts_disjoint (sub64 now last))

-- What a counter has counted since it stood at an earlier value, or since it began anew if it stands
-- below that.
abbrev pub since : ℤ → ℤ → ℤ
since now last = if ltb_ℤ now last then now else sub64 now last

grown-since : (now last : ℤ) → IsCounter now → IsCounter last → grown now last ≡ since now last
grown-since now last (n, n_fits) (l, l_fits) = elim (Bool-cases (ltb_ℤ now last)) [
  | inl back ↦ rw (back, went_back now last (n, n_fits) (l, l_fits) back) refl
  | inr on ↦ rw (on, went_on now last (n, n_fits) (l, l_fits) on) refl
]

-- The bytes of a user's sessions since the last poll, received, added to a number.
abbrev pub received : (String → ℤ × ℤ) → Dict String (ℤ × ℤ) → String → List Session → ℤ → ℤ
received bytes seen user [] sum = sum
received bytes seen user (s ∷ ss) sum = received bytes seen user ss (
    if s.user == user
    then add64 sum (since (bytes s.ifname).0 (pair_or_zero (lookup s.ifname seen)).0)
    else sum)

abbrev growth_of : (String → ℤ × ℤ) → Dict String (ℤ × ℤ) → String → List Session → ℤ → ℤ
growth_of bytes seen user [] sum = sum
growth_of bytes seen user (s ∷ ss) sum = growth_of bytes seen user ss (
    if s.user == user
    then add64 sum (grown (bytes s.ifname).0 (pair_or_zero (lookup s.ifname seen)).0)
    else sum)

unmoved :
    (seen : Dict String (ℤ × ℤ)) (ifname other : String) (b : ℤ × ℤ)
    → (other == ifname) ≡ false
    → lookup other (insert ifname b seen) ≡ lookup other seen
unmoved seen ifname other b apart =
    ground
      (arith, lookup-insert ifname other b seen, eq_iff ifname other, eq_iff other ifname, apart)

growth_of-insert :
    (bytes : String → ℤ × ℤ) (seen : Dict String (ℤ × ℤ)) (ifname user : String) (b : ℤ × ℤ)
    (ss : List Session) (sum : ℤ)
    → on_interface ifname ss ≡ false
    → growth_of bytes (insert ifname b seen) user ss sum ≡ growth_of bytes seen user ss sum
growth_of-insert bytes seen ifname user b [] sum h = refl
growth_of-insert bytes seen ifname user b (s ∷ ss) sum h = elim (Bool-cases (s.ifname == ifname)) [
  | inl same ↦ absurd (ground (arith, h, same))
  | inr other ↦
      growth_of-insert bytes seen ifname user b ss _ (rw other at h)
      ∙ ap
          (λ p. growth_of bytes seen user ss (
            if s.user == user
            then add64 sum (grown (bytes s.ifname).0 (pair_or_zero p).0)
            else sum))
          (unmoved seen ifname s.ifname b other)
]

int_or_zero-add_to :
    (key other : String) (d : ℤ) (m : Dict String ℤ)
    → int_or_zero (lookup other (add_to key d m)) ≡ (
        if key == other
        then add64 (int_or_zero (lookup other m)) d
        else int_or_zero (lookup other m))
int_or_zero-add_to key other d m =
    ground
      (arith, lookup-insert key other (add64 (int_or_zero (lookup key m)) d) m, eq_iff key other)

measure_all-growth_of :
    (bytes : String → ℤ × ℤ) (user : String) (ss : List Session) (g : Growth)
    → IsApart ss
    → int_or_zero (lookup user (measure_all bytes ss g).rx)
      ≡ growth_of bytes g.seen user ss (int_or_zero (lookup user g.rx))
unfolding measure_all
measure_all-growth_of bytes user [] g apart = refl
measure_all-growth_of bytes user (s ∷ ss) g apart =
    measure_all-growth_of bytes user ss (measure bytes s g) apart.1
    ∙ (growth_of-insert bytes g.seen s.ifname user (bytes s.ifname) ss _ apart.0
        ∙ ap (growth_of bytes g.seen user ss) (
            int_or_zero-add_to s.user user
              (grown (bytes s.ifname).0 (pair_or_zero (lookup s.ifname g.seen)).0) g.rx))

serves-group :
    (user : String) (ss : List Session) (per_user : Dict String (List Session))
    → is_some (lookup user (group ss per_user)) ≡ (serves user ss || is_some (lookup user per_user))
unfolding group
serves-group user [] per_user = refl
serves-group user (s ∷ ss) per_user =
    let mine = list_or_empty (lookup s.user per_user) ++ s ∷ [] in
    ground (
      arith,
      serves-group user ss (insert s.user mine per_user),
      lookup-insert s.user user mine per_user,
    )

group-IsDict :
    (ss : List Session) (per_user : Dict String (List Session))
    → IsDict per_user
    → IsDict (group ss per_user)
unfolding group
group-IsDict [] per_user d = d
group-IsDict (s ∷ ss) per_user d =
    let mine = list_or_empty (lookup s.user per_user) ++ s ∷ [] in
    group-IsDict ss (insert s.user mine per_user) (insert-IsDict s.user mine per_user d)

-- What a poll leaves of the sum of a user.
abbrev pub sum_after : Bool → ℤ → Option ℤ → Option ℤ
sum_after false d sum = sum
sum_after true d sum = some (add64 (int_or_zero sum) d)

lookup-add_to :
    (key user : String) (d sum : ℤ) (served : Bool) (m : Dict String ℤ)
    → (key == user) ≡ false
    → sum_after served sum (lookup user (add_to key d m)) ≡ sum_after served sum (lookup user m)
lookup-add_to key user d sum served m other =
    ap (sum_after served sum)
      (lookup-insert key user (add64 (int_or_zero (lookup key m)) d) m ∙ rw other refl)

lookup-credit_all :
    (now : ℤ) (g : Growth) (user : String) (per_user : Dict String (List Session)) (o : State)
    (samples : List Sample)
    → IsDict per_user
    → lookup user (credit_all now g per_user (o, samples)).0.cum_rx
      ≡ sum_after
          (is_some (lookup user per_user))
          (int_or_zero (lookup user g.rx))
          (lookup user o.cum_rx)
unfolding credit_all lookup
lookup-credit_all now g user [] o samples d = refl
lookup-credit_all now g user ((u, mine) ∷ per_user) o samples d =
    let next = credit now g u mine (o, samples) in
    lookup-credit_all now g user per_user next.0 next.1 d.1 ∙ elim (Bool-cases (u == user)) [
      | inl same ↦
          let eq : u ≡ user = (eq_iff u user).0 same in
          rw (same, subst (λ k. lookup k per_user ≡ none) eq d.0)
            (lookup-insert u user
                (add64 (int_or_zero (lookup u o.cum_rx)) (int_or_zero (lookup u g.rx))) o.cum_rx
              ∙ rw (same, eq) refl)
      | inr other ↦ rw other (
          lookup-add_to u user (int_or_zero (lookup u g.rx)) (int_or_zero (lookup user g.rx))
            (is_some (lookup user per_user)) o.cum_rx other)
    ]

or_false : (b : Bool) → (b || false) ≡ b
or_false b = ground arith

-- The counters of the interfaces are not negative and int64 values, now and at the last poll.
abbrev pub AreCounters : (String → ℤ × ℤ) → Dict String (ℤ × ℤ) → Type 0
AreCounters bytes seen =
    (ifname : String) → IsCounter (bytes ifname).0 × IsCounter (pair_or_zero (lookup ifname seen)).0

growth_of-received :
    (bytes : String → ℤ × ℤ) (seen : Dict String (ℤ × ℤ)) (user : String) (ss : List Session)
    (sum : ℤ)
    → AreCounters bytes seen
    → growth_of bytes seen user ss sum ≡ received bytes seen user ss sum
growth_of-received bytes seen user [] sum counters = refl
growth_of-received bytes seen user (s ∷ ss) sum counters =
    let (now, last) = counters s.ifname in
    ap (λ d. growth_of bytes seen user ss (if s.user == user then add64 sum d else sum))
      (grown-since (bytes s.ifname).0 (pair_or_zero (lookup s.ifname seen)).0 now last)
    ∙ growth_of-received bytes seen user ss _ counters

-- When no two sessions run on one interface, and no counter is negative, a poll adds to the received
-- bytes of every user with a session the sum of what its interfaces have counted: what a counter
-- stands above its last value, or all of it if it stands below, with the wrap-around of int64. The
-- sums of the other users stay.
pub lookup-poll :
    (now : ℤ) (bytes : String → ℤ × ℤ) (ss : List Session) (store : UserStore) (o : State)
    (user : String)
    → IsApart ss
    → AreCounters bytes o.if_seen
    → lookup user (poll now bytes ss store o).0.cum_rx
      ≡ sum_after (serves user ss) (received bytes o.if_seen user ss (pos 0)) (lookup user o.cum_rx)
unfolding poll lookup
lookup-poll now bytes ss store o user apart counters =
    let g = measure_all bytes ss (record { seen = o.if_seen; rx = []; tx = [] }) in
    lookup-credit_all now g user (group ss [])
      (record o { if_seen = forget (present_of ss []) g.seen; online_ips = [] }) []
      (group-IsDict ss [] tt)
    ∙ (ap (λ b. sum_after b (int_or_zero (lookup user g.rx)) (lookup user o.cum_rx))
          (serves-group user ss [] ∙ or_false (serves user ss))
        ∙ ap (λ d. sum_after (serves user ss) d (lookup user o.cum_rx))
            (measure_all-growth_of bytes user ss (record { seen = o.if_seen; rx = []; tx = [] })
                apart
              ∙ growth_of-received bytes o.if_seen user ss (pos 0) counters))
