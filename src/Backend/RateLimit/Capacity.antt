-- ===== src/Backend/RateLimit/Capacity.antt =====
-- backend/ratelimit/ratelimit.go: how many marks an Apply needs.
use hpxnode.Prelude.{
  ◌+◌, ◌≤◌, ◌≡◌, refl, ap, sym, subst, ◌∙◌, inl, inr, true, [], ◌∷◌, none, some, String, string_eq,
  ◌==◌, if◌then◌else◌, length, arith, is_some, Bool-cases,
}
use hpxnode.Prelude.Dict.{Dict, lookup, insert, IsDict, lookup-insert, insert-IsDict, beq_refl}
use hpxnode.Prelude.DictLaws.{SubKeys, length-le_of_SubKeys, length-insert}
use hpxnode.Backend.RateLimit.Marks.{max_clients}
use hpxnode.Backend.RateLimit.MarkLaws.{alloc_mark-Allocated}
use hpxnode.Backend.RateLimit.Apply.{
  Client, Manager, apply_addr, apply_addrs, insert_addr, sort_addrs,
}
use hpxnode.Backend.RateLimit.Reconcile.{IsCoherent, apply_addr-IsCoherent}
use text.Mathlib.TextEquality.{eq_iff}

-- A manager whose applied addresses are keys of a map with at most 254 entries.
pub record Fits (u : Dict String Client) (m : Manager) : Type 0 where
  pub coherent : IsCoherent m
  pub dict : IsDict u
  pub few : length u ≤ max_clients
  pub sub : SubKeys m.applied u

room :
    (u : Dict String Client) (addr : String) (m : Manager)
    → Fits u m
    → is_some (lookup addr u) ≡ true
    → lookup addr m.pool.marks ≡ none
    → length m.pool.marks + 1 ≤ max_clients
room u addr m f inside new = omega (
  arith,
  f.few,
  length-insert addr 0 m.pool.marks new,
  length-le_of_SubKeys (insert addr 0 m.pool.marks) u
      (insert-IsDict addr 0 m.pool.marks f.coherent.marks.dict) f.dict within,
)
  where
    within : SubKeys (insert addr 0 m.pool.marks) u
    within k h = elim (Bool-cases (addr == k)) [
      | inl same ↦ subst (λ j. is_some (lookup j u) ≡ true) ((eq_iff addr k).0 same) inside
      | inr other ↦
          f.sub k
            (sym (f.coherent.marked k) ∙ (rw (lookup-insert addr k 0 m.pool.marks, other) at h))
    ]

-- Such a manager has a mark for each key of that map.
lookup-apply_addr :
    (u : Dict String Client) (addr a : String) (c : Client) (m : Manager)
    → Fits u m
    → is_some (lookup addr u) ≡ true
    → lookup a (apply_addr addr c m).applied ≡ (if addr == a then some c else lookup a m.applied)
unfolding apply_addr
lookup-apply_addr u addr a c m f inside = elim (alloc_mark-Allocated addr m.pool f.coherent.marks) [
  | inl (failed, new, full) ↦ absurd (omega (arith, room u addr m f inside new, full))
  | inr (q, mark, got, sound, held) ↦ rw got (lookup-insert addr a c m.applied)
]

apply_addr-Fits :
    (u : Dict String Client) (addr : String) (c : Client) (m : Manager)
    → Fits u m
    → is_some (lookup addr u) ≡ true
    → Fits u (apply_addr addr c m)
apply_addr-Fits u addr c m f inside = record {
  coherent = apply_addr-IsCoherent addr c m f.coherent;
  dict = f.dict;
  few = f.few;
  sub = λ k h. elim (Bool-cases (addr == k)) [
    | inl same ↦ subst (λ j. is_some (lookup j u) ≡ true) ((eq_iff addr k).0 same) inside
    | inr other ↦ f.sub k (rw (lookup-apply_addr u addr k c m f inside, other) at h)
  ];
}

-- All addresses of the list get a mark, and the applied set follows the list.
pub lookup-apply_addrs :
    (u addrs : Dict String Client) (a : String) (m : Manager)
    → IsDict addrs
    → SubKeys addrs u
    → Fits u m
    → lookup a (apply_addrs addrs m).applied
      ≡ (if is_some (lookup a addrs) then lookup a addrs else lookup a m.applied)
unfolding apply_addrs lookup
lookup-apply_addrs u [] a m d sub f = refl
lookup-apply_addrs u ((addr, c) ∷ addrs) a m d sub f =
    lookup-apply_addrs u addrs a (apply_addr addr c m) d.1 below (apply_addr-Fits u addr c m f here)
    ∙ ground (arith, eq_iff addr a, d.0, lookup-apply_addr u addr a c m f here)
  where
    here : is_some (lookup addr u) ≡ true
    here = sub addr (rw (beq_refl addr))

    below : SubKeys addrs u
    below k h = sub k (ground (arith, h))

insert_addr-lookup :
    (addr a : String) (c : Client) (l : Dict String Client)
    → lookup addr l ≡ none
    → lookup a (insert_addr addr c l) ≡ (if addr == a then some c else lookup a l)
unfolding insert_addr lookup
insert_addr-lookup addr a c [] new = refl
insert_addr-lookup addr a c ((b, d) ∷ l) new =
    ground (arith, eq_iff addr a, eq_iff b a, eq_iff b addr, insert_addr-lookup addr a c l)

insert_addr-IsDict :
    (addr : String) (c : Client) (l : Dict String Client)
    → lookup addr l ≡ none
    → IsDict l
    → IsDict (insert_addr addr c l)
unfolding insert_addr lookup
insert_addr-IsDict addr c [] new d = (refl, tt)
insert_addr-IsDict addr c ((b, v) ∷ l) new d = ground (
  arith,
  eq_iff b addr,
  eq_iff addr b,
  insert_addr-lookup addr b c l,
  insert_addr-IsDict addr c l,
)

-- Sorting moves entries, and changes no lookup.
pub sort_addrs_lem :
    (wanted : Dict String Client)
    → IsDict wanted
    → IsDict (sort_addrs wanted) × ((a : String) → lookup a (sort_addrs wanted) ≡ lookup a wanted)
unfolding sort_addrs lookup
sort_addrs_lem [] d = (tt, λ a. refl)
sort_addrs_lem ((addr, c) ∷ wanted) d =
    let (sorted, same) = sort_addrs_lem wanted d.1 in
    (
      insert_addr-IsDict addr c (sort_addrs wanted) (same addr ∙ d.0) sorted,
      λ a.
          insert_addr-lookup addr a c (sort_addrs wanted) (same addr ∙ d.0)
          ∙ ap (λ r. if addr == a then some c else r) (same a),
    )
