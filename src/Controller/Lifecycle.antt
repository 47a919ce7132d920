-- ===== src/Controller/Lifecycle.antt =====
-- controller/controller.go: which cores run, along calls of which each ends before the next begins.
use hpxnode.Prelude.{
  ℕ, ◌-◌, leb, Bool, true, false, List, [], ◌∷◌, Option, none, some, String, ◌==◌, if◌then◌else◌,
  is_some, Bool-cases, Option-cases, ◌≡◌, refl, sym, ap, ◌∙◌, subst, inl, inr,
}
use hpxnode.Prelude.Dict.{
  Dict, lookup, IsDict, lookup-insert, lookup-delete, insert-IsDict, delete-IsDict, beq_refl,
  delete_absent,
}
use hpxnode.Controller.Types.{BackendType, BackendKey, backend_key_eq, FieldOf, backend_disabled}
use hpxnode.Controller.Node.{
  StartRequest, StartError, disabled, Attempt, good, bad, Core, Event, launched, stopped, Tracker,
  Controller, key_of_request, new_backend, retire, add_started, start_backend, connect, stop_all,
  disconnect, new_request, tick,
}

-- Whether an instance of the key runs after the events.
unfoldable pub runs : BackendKey → List Event → Bool
runs key [] = false
runs key (launched k ∷ log) = if k == key then true else runs key log
runs key (stopped k ∷ log) = if k == key then false else runs key log

-- Each launch comes when no instance of its key runs, and each stop when one runs.
abbrev pub IsOrderly : List Event → Type 0
IsOrderly [] = Unit
IsOrderly (launched k ∷ log) = (runs k log ≡ false) × IsOrderly log
IsOrderly (stopped k ∷ log) = (runs k log ≡ true) × IsOrderly log

-- The calls, with what each meets: the environment, the decoder, the cores and the clock.
pub data Step (B C : Type 0) : Type 0 where
  start : (String → List ℕ) → FieldOf → (BackendType → Core B C) → StartRequest → Step B C
  connects : ℕ → String → ℕ → Step B C
  disconnects : Step B C
  requests : ℕ → Step B C
  ticks : ℕ → Tracker → Step B C

module _ {B : Type 0} where
  unfoldable pub step : {C : Type 0} → Step B C → Controller B → Controller B
  step (start env field_of cores q) s = (start_backend env field_of cores q s).0
  step (connects now ip keep_alive) s = connect now ip keep_alive s
  step disconnects s = disconnect s
  step (requests now) s = new_request now s
  step (ticks now t) s = tick now t s

  unfoldable pub steps : {C : Type 0} → List (Step B C) → Controller B → Controller B
  steps [] s = s
  steps (x ∷ xs) s = steps xs (step x s)

  -- The table is a map, it holds exactly the keys that run, and the log is orderly.
  abbrev pub IsTracked : Controller B → Type 0
  IsTracked s =
      IsDict s.backends
      × ((key : BackendKey) → runs key s.log ≡ is_some (lookup key s.backends))
      × IsOrderly s.log

  after_stop :
      (here : Bool) (o : Option B) (r : Bool)
      → r ≡ is_some o
      → (if here then false else r) ≡ is_some (if here then none else o)
  after_stop true o r h = refl
  after_stop false o r h = h

  after_launch :
      (here : Bool) (b : B) (o : Option B) (r : Bool)
      → r ≡ is_some o
      → (if here then true else r) ≡ is_some (if here then some b else o)
  after_launch true b o r h = refl
  after_launch false b o r h = h

  retire-IsTracked : (key : BackendKey) (s : Controller B) → IsTracked s → IsTracked (retire key s)
  unfolding retire runs
  retire-IsTracked key s (d, live, orderly) = elim (Option-cases (lookup key s.backends)) [
    | inl out ↦ rw out (
      delete-IsDict key s.backends d,
      (λ k. live k ∙ ap (λ m. is_some (lookup k m)) (sym (delete_absent key s.backends out))),
      orderly,
    )
    | inr (b, found) ↦ rw found (
      delete-IsDict key s.backends d,
      (λ k.
          after_stop (key == k) (lookup k s.backends) (runs k s.log) (live k)
          ∙ ap is_some (sym (lookup-delete key k s.backends))),
      (live key ∙ ap is_some found, orderly),
    )
  ]

  add_started-IsTracked :
      (key : BackendKey) (s : Controller B) (o : Attempt B)
      → lookup key s.backends ≡ none
      → IsTracked s
      → IsTracked (add_started key s o).0
  unfolding add_started runs
  add_started-IsTracked key s (bad e) out h = h
  add_started-IsTracked key s (good b) out (d, live, orderly) = (
    insert-IsDict key b s.backends d,
    (λ k.
        after_launch (key == k) b (lookup k s.backends) (runs k s.log) (live k)
        ∙ ap is_some (sym (lookup-insert key k b s.backends))),
    (live key ∙ ap is_some out, orderly),
  )

  lookup-retire : (key : BackendKey) (s : Controller B) → lookup key (retire key s).backends ≡ none
  unfolding retire
  lookup-retire key s = lookup-delete key key s.backends ∙ rw (beq_refl key) refl

  stop_all_lem :
      (m : Dict BackendKey B) (log : List Event)
      → IsDict m
      → ((k : BackendKey) → runs k log ≡ is_some (lookup k m))
      → IsOrderly log
      → ((k : BackendKey) → runs k (stop_all m log) ≡ false) × IsOrderly (stop_all m log)
  unfolding stop_all runs lookup
  stop_all_lem [] log d live orderly = (live, orderly)
  stop_all_lem ((j, b) ∷ m) log (new, d) live orderly =
      stop_all_lem m (stopped j ∷ log) d
        (λ k. elim (Bool-cases (j == k)) [
          | inl same ↦ rw same (
              ap is_some
                (subst (λ i. none ≡ lookup i m) ((backend_key_eq.same_iff j k).0 same) (sym new)))
          | inr apart ↦ rw apart (live k ∙ rw apart refl)
        ])
        (live j ∙ rw (beq_refl j) refl, orderly)

  pub disconnect-IsTracked : (s : Controller B) → IsTracked s → IsTracked (disconnect s)
  unfolding disconnect lookup
  disconnect-IsTracked s (d, live, orderly) =
      let all = stop_all_lem s.backends s.log d live orderly in (tt, all.0, all.1)

  pub start_backend-IsTracked :
      {C : Type 0} (env : String → List ℕ) (field_of : FieldOf) (cores : BackendType → Core B C)
      (q : StartRequest) (s : Controller B)
      → IsTracked s
      → IsTracked (start_backend env field_of cores q s).0
  unfolding start_backend
  start_backend-IsTracked env field_of cores q s h =
      let key = key_of_request field_of q in
      elim (backend_disabled env q.typ)
        as (λ b.
          let r : Controller B × Option StartError =
            if b
            then (s, some disabled)
            else add_started key (retire key s) (new_backend cores q q.typ) in
          IsTracked r.0) [
            | true ↦ h
            | false ↦
                add_started-IsTracked key (retire key s) (new_backend cores q q.typ)
                  (lookup-retire key s) (retire-IsTracked key s h)
          ]

  step-IsTracked :
      {C : Type 0} (x : Step B C) (s : Controller B) → IsTracked s → IsTracked (step x s)
  unfolding step connect new_request tick
  step-IsTracked (start env field_of cores q) s h = start_backend-IsTracked env field_of cores q s h
  step-IsTracked (connects now ip keep_alive) s h = h
  step-IsTracked disconnects s h = disconnect-IsTracked s h
  step-IsTracked (requests now) s h = h
  step-IsTracked (ticks now t) s h =
      elim (leb t.keep_alive (now - s.last_request))
        as (λ b. IsTracked (if b then disconnect s else s)) [
          | true ↦ disconnect-IsTracked s h
          | false ↦ h
        ]

  -- Along any history of starts, connects, disconnects, requests and ticks of which each ends before the
  -- next begins, and whatever the outcomes of the starts, the table holds exactly the cores that
  -- run, a core is launched only when no instance of its key runs, and stopped only when one runs.
  pub steps-IsTracked :
      {C : Type 0} (xs : List (Step B C)) (s : Controller B) → IsTracked s → IsTracked (steps xs s)
  unfolding steps
  steps-IsTracked [] s h = h
  steps-IsTracked (x ∷ xs) s h = steps-IsTracked xs (step x s) (step-IsTracked x s h)
