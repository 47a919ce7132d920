-- ===== src/Controller/KeepAlive.antt =====
-- controller/controller.go, keepAliveTracker: when a node stops on its own, and what a start leaves in
-- the table.
use hpxnode.Prelude.{
  ℕ, ◌+◌, ◌-◌, ◌≤◌, ◌<◌, leb, Bool, true, false, List, [], ◌∷◌, ◌++◌, Option, none, some, String,
  ◌==◌, if◌then◌else◌, All, arith, Bool-cases, ◌≡◌, refl, sym, ap, ◌∙◌, subst, inl, inr, le→leb,
  leb→le,
}
use hpxnode.Prelude.Dict.{lookup, lookup-insert, lookup-delete}
use hpxnode.Controller.Types.{BackendType, BackendKey, backend_key_eq, FieldOf, backend_disabled}
use hpxnode.Controller.Node.{
  StartRequest, Attempt, good, bad, Core, Tracker, Controller, key_of_request, new_backend, retire,
  add_started, start_backend, connect, disconnect, new_request, tick,
}
use hpxnode.Controller.Lifecycle.{Step, start, connects, disconnects, requests, ticks, step, steps}

abbrev pub good_or_none : {B : Type 0} → Attempt B → Option B
good_or_none (good b) = some b
good_or_none (bad e) = none

module _ {B : Type 0} where
  lookup-add_started :
      (key k : BackendKey) (s : Controller B) (o : Attempt B)
      → lookup key s.backends ≡ none
      → lookup k (add_started key s o).0.backends
        ≡ (if key == k then good_or_none o else lookup k s.backends)
  unfolding add_started
  lookup-add_started key k s (good b) out = lookup-insert key k b s.backends
  lookup-add_started key k s (bad e) out = elim (Bool-cases (key == k)) [
    | inl same ↦
        rw same
          (subst (λ i. lookup i s.backends ≡ none) ((backend_key_eq.same_iff key k).0 same) out)
    | inr apart ↦ rw apart refl
  ]

  added_request :
      (key : BackendKey) (s : Controller B) (o : Attempt B)
      → (add_started key s o).0.last_request ≡ s.last_request
  unfolding add_started
  added_request key s (good b) = refl
  added_request key s (bad e) = refl

module _ {B C : Type 0} where
  -- A start on a type that is not disabled leaves under its key the core that it launched, and nothing
  -- when the launch failed, whatever ran there before; the cores of other keys stay. A start on
  -- a disabled type changes nothing.
  pub lookup-start_backend :
      (env : String → List ℕ) (field_of : FieldOf) (cores : BackendType → Core B C)
      (q : StartRequest) (s : Controller B) (k : BackendKey)
      → lookup k (start_backend env field_of cores q s).0.backends ≡ (
          if backend_disabled env q.typ
          then lookup k s.backends
          else (if key_of_request field_of q == k
              then good_or_none (new_backend cores q q.typ)
              else lookup k s.backends))
  unfolding start_backend retire
  lookup-start_backend env field_of cores q s k =
      let key = key_of_request field_of q in
      let o = new_backend cores q q.typ in
      elim (Bool-cases (backend_disabled env q.typ)) [
        | inl off ↦ rw off refl
        | inr on ↦ rw on (
            lookup-add_started key k (retire key s) o (
              lookup-delete key key s.backends ∙ rw ((backend_key_eq.same_iff key key).1 refl) refl)
            ∙ (ap (λ x. if key == k then good_or_none o else x) (lookup-delete key k s.backends)
                ∙ twice (key == k) (good_or_none o) (lookup k s.backends)))
      ]
    where
      twice :
          (b : Bool) (x y : Option B)
          → (if b then x else (if b then none else y)) ≡ (if b then x else y)
      twice true x y = refl
      twice false x y = refl

  -- Neither a request nor a start.
  abbrev pub IsIdle : Step B C → Type 0
  IsIdle (start env field_of cores q) = ⊥
  IsIdle (connects now ip keep_alive) = ⊥
  IsIdle disconnects = Unit
  IsIdle (requests now) = ⊥
  IsIdle (ticks now t) = Unit

  -- A node that is idle keeps the time of its last request, and an empty table stays empty.
  idle_step :
      (x : Step B C) (s : Controller B)
      → IsIdle x
      → ((step x s).last_request ≡ s.last_request) × (s.backends ≡ [] → (step x s).backends ≡ [])
  unfolding step tick disconnect
  idle_step (start env field_of cores q) s h = absurd h
  idle_step (connects now ip keep_alive) s h = absurd h
  idle_step disconnects s h = (refl, λ e. refl)
  idle_step (requests now) s h = absurd h
  idle_step (ticks now t) s h =
      elim (leb t.keep_alive (now - s.last_request))
        as (λ b.
          let r : Controller B = if b then disconnect s else s in
          (r.last_request ≡ s.last_request) × (s.backends ≡ [] → r.backends ≡ [])) [
            | true ↦ (refl, λ e. refl)
            | false ↦ (refl, λ e. e)
          ]

  idle_empty :
      (xs : List (Step B C)) (s : Controller B)
      → All IsIdle xs
      → s.backends ≡ []
      → (steps xs s).backends ≡ []
  unfolding steps
  idle_empty [] s h e = e
  idle_empty (x ∷ xs) s (first, rest) e = idle_empty xs (step x s) rest ((idle_step x s first).1 e)

  -- When after the last request only ticks and disconnects follow, and one of the ticks comes a full
  -- keep-alive after the request, then no core is left in the table at the end.
  pub steps-empty :
      (before after : List (Step B C)) (now : ℕ) (t : Tracker) (s : Controller B)
      → All IsIdle before
      → All IsIdle after
      → s.last_request + t.keep_alive ≤ now
      → (steps (before ++ ticks now t ∷ after) s).backends ≡ []
  unfolding steps
  steps-empty [] after now t s h k late = idle_empty after (step (ticks now t) s) k (
      unfold step tick disconnect in
      rw (le→leb t.keep_alive (now - s.last_request) (omega (arith, late))) refl)
  steps-empty (x ∷ before) after now t s (first, rest) k late =
      steps-empty before after now t (step x s) rest k
        (subst (λ r. r + t.keep_alive ≤ now) (sym (idle_step x s first).0) late)

  last_request-start_backend :
      (env : String → List ℕ) (field_of : FieldOf) (cores : BackendType → Core B C)
      (q : StartRequest) (s : Controller B)
      → (start_backend env field_of cores q s).0.last_request ≡ s.last_request
  unfolding start_backend retire
  last_request-start_backend env field_of cores q s =
      let key = key_of_request field_of q in
      elim (Bool-cases (backend_disabled env q.typ)) [
        | inl off ↦ rw off refl
        | inr on ↦ rw on (added_request key (retire key s) (new_backend cores q q.typ))
      ]

  -- A tick in time for the latest request, a start under another key, a connect or a request, but no stop.
  abbrev pub Spares : BackendKey → ℕ → Step B C → Type 0
  Spares k last (ticks now t) = now - last < t.keep_alive
  Spares k last (requests now) = Unit
  Spares k last (start env field_of cores q) = (key_of_request field_of q == k) ≡ false
  Spares k last (connects now ip keep_alive) = Unit
  Spares k last disconnects = ⊥

  abbrev pub last_after : ℕ → Step B C → ℕ
  last_after last (requests now) = now
  last_after last (ticks now t) = last
  last_after last (start env field_of cores q) = last
  last_after last (connects now ip keep_alive) = now
  last_after last disconnects = last

  abbrev pub AllSpare : BackendKey → ℕ → List (Step B C) → Type 0
  AllSpare k last [] = Unit
  AllSpare k last (x ∷ xs) = Spares k last x × AllSpare k (last_after last x) xs

  spared :
      (k : BackendKey) (x : Step B C) (s : Controller B)
      → Spares k s.last_request x
      → ((step x s).last_request ≡ last_after s.last_request x)
        × (lookup k (step x s).backends ≡ lookup k s.backends)
  unfolding step tick new_request connect
  spared k (start env field_of cores q) s h = (
    last_request-start_backend env field_of cores q s,
    lookup-start_backend env field_of cores q s k ∙ elim (Bool-cases (backend_disabled env q.typ)) [
      | inl off ↦ rw off refl
      | inr on ↦ rw (on, h) refl
    ],
  )
  spared k (connects now ip keep_alive) s h = (refl, refl)
  spared k disconnects s h = absurd h
  spared k (requests now) s h = (refl, refl)
  spared k (ticks now t) s h = elim (Bool-cases (leb t.keep_alive (now - s.last_request))) [
    | inl late ↦ absurd (omega (arith, leb→le t.keep_alive (now - s.last_request) late, h))
    | inr early ↦ rw early (refl, refl)
  ]

  -- The node keeps the core of a key, or its absence, along any history of connects, requests, starts
  -- under other keys and ticks, without a stop or a start under this key, as long as every tick
  -- comes less than its keep-alive after the latest request or connect. (Each call ends before the
  -- next begins.)
  pub steps-kept :
      (k : BackendKey) (xs : List (Step B C)) (s : Controller B)
      → AllSpare k s.last_request xs
      → lookup k (steps xs s).backends ≡ lookup k s.backends
  unfolding steps
  steps-kept k [] s h = refl
  steps-kept k (x ∷ xs) s (first, rest) =
      let (last, same) = spared k x s first in
      steps-kept k xs (step x s) (subst (λ r. AllSpare k r xs) (sym last) rest) ∙ same
