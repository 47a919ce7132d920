-- ===== src/Backend/RateLimit/Reconcile.antt =====
-- backend/ratelimit/ratelimit.go: the applied set under Apply.
use hpxnode.Prelude.{
  ◌≡◌, refl, ap, ◌∙◌, inl, inr, true, false, not, ◌&&◌, [], ◌∷◌, none, String, string_eq,
  if◌then◌else◌, arith, is_some, Bool-cases,
}
use hpxnode.Prelude.Dict.{
  Dict, lookup, delete, IsDict, lookup-insert, lookup-delete, insert-IsDict, delete-IsDict,
}
use hpxnode.Backend.RateLimit.Marks.{release_mark}
use hpxnode.Backend.RateLimit.MarkLaws.{
  IsSound, new_pool-IsSound, alloc_mark-Allocated, release_mark-IsSound, lookup-release_mark,
}
use hpxnode.Backend.RateLimit.Apply.{
  Client, Manager, new_manager, drop_departed, apply_addr, apply_addrs,
}
use text.Mathlib.TextEquality.{eq_iff}

-- The marks are sound, and exactly the applied addresses hold one.
pub record IsCoherent (m : Manager) : Type 0 where
  pub marks : IsSound m.pool
  pub dict : IsDict m.applied
  pub marked : (a : String) → is_some (lookup a m.pool.marks) ≡ is_some (lookup a m.applied)

pub new_manager-IsCoherent : IsCoherent new_manager
unfolding lookup
new_manager-IsCoherent = record { marks = new_pool-IsSound; dict = tt; marked = λ a. refl }

drop_one : String → Manager → Manager
drop_one addr m = record m { applied = delete addr m.applied; pool = release_mark addr m.pool }

drop_one-IsCoherent : (addr : String) (m : Manager) → IsCoherent m → IsCoherent (drop_one addr m)
unfolding drop_one
drop_one-IsCoherent addr m c = record {
  marks = release_mark-IsSound addr m.pool c.marks;
  dict = delete-IsDict addr m.applied c.dict;
  marked = λ a.
      ground (arith, c.marked a, lookup-release_mark addr a m.pool, lookup-delete addr a m.applied);
}

pub drop_departed-IsCoherent :
    (l wanted : Dict String Client) (m : Manager)
    → IsCoherent m
    → IsCoherent (drop_departed l wanted m)
unfolding drop_departed drop_one
drop_departed-IsCoherent [] wanted m c = c
drop_departed-IsCoherent ((addr, v) ∷ l) wanted m c =
    elim (Bool-cases (is_some (lookup addr wanted))) [
      | inl keep ↦ rw keep (drop_departed-IsCoherent l wanted m c)
      | inr gone ↦
          rw gone
            (drop_departed-IsCoherent l wanted (drop_one addr m) (drop_one-IsCoherent addr m c))
    ]

module _ (addr : String) (v : Client) (l wanted : Dict String Client) (m : Manager) where
  drop_departed_keep :
      is_some (lookup addr wanted) ≡ true
      → drop_departed ((addr, v) ∷ l) wanted m ≡ drop_departed l wanted m
  unfolding drop_departed
  drop_departed_keep keep = rw keep

  drop_departed_gone :
      is_some (lookup addr wanted) ≡ false
      → drop_departed ((addr, v) ∷ l) wanted m ≡ drop_departed l wanted (drop_one addr m)
  unfolding drop_departed drop_one
  drop_departed_gone gone = rw gone

-- Of the addresses in the list, those that are not wanted leave the applied set.
pub lookup-drop_departed :
    (a : String) (l wanted : Dict String Client) (m : Manager)
    → lookup a (drop_departed l wanted m).applied ≡ (
        if is_some (lookup a l) && not (is_some (lookup a wanted))
        then none
        else lookup a m.applied)
unfolding lookup drop_one
lookup-drop_departed a [] wanted m = unfold drop_departed in refl
lookup-drop_departed a ((addr, v) ∷ l) wanted m = elim (Bool-cases (is_some (lookup addr wanted))) [
  | inl keep ↦
      ap (λ (x : Manager). lookup a x.applied) (drop_departed_keep addr v l wanted m keep)
      ∙ (lookup-drop_departed a l wanted m ∙ ground (arith, eq_iff addr a))
  | inr gone ↦
      ap (λ (x : Manager). lookup a x.applied) (drop_departed_gone addr v l wanted m gone)
      ∙ (lookup-drop_departed a l wanted (drop_one addr m)
          ∙ ground (arith, eq_iff addr a, lookup-delete addr a m.applied))
]

-- An address that fits gets a mark and joins the applied set.
pub apply_addr-IsCoherent :
    (addr : String) (c : Client) (m : Manager) → IsCoherent m → IsCoherent (apply_addr addr c m)
unfolding apply_addr
apply_addr-IsCoherent addr c m h = elim (alloc_mark-Allocated addr m.pool h.marks) [
  | inl (failed, _, _) ↦ rw failed h
  | inr (q, mark, got, sound, held) ↦ rw got (record {
    marks = sound;
    dict = insert-IsDict addr c m.applied h.dict;
    marked = λ a. ground (arith, h.marked a, held a, lookup-insert addr a c m.applied);
  })
]

pub apply_addrs-IsCoherent :
    (addrs : Dict String Client) (m : Manager) → IsCoherent m → IsCoherent (apply_addrs addrs m)
unfolding apply_addrs
apply_addrs-IsCoherent [] m h = h
apply_addrs-IsCoherent ((addr, c) ∷ addrs) m h =
    apply_addrs-IsCoherent addrs (apply_addr addr c m) (apply_addr-IsCoherent addr c m h)
