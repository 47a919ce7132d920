-- ===== src/Controller/Access.antt =====
-- controller/rpc/middleware.go and base.go: who may call, and which cores a start keeps.
use hpxnode.Prelude.{
  ℕ, Bool, true, false, not, ◌&&◌, List, [], ◌∷◌, Option, none, some, String, string_eq, Eq, ◌==◌,
  if◌then◌else◌, is_some, Bool-cases, ◌≡◌, ◌≢◌, refl, sym, ap, ◌∙◌, inl, inr,
}
use text.Mathlib.TextEquality.{eq_iff}
use hpxnode.Prelude.Dict.{Dict, lookup, dict_values}
use hpxnode.Backend.Composite.{new_composite}
use hpxnode.Controller.Types.{BackendType, BackendKey, backend_key_eq, FieldOf, backend_disabled}
use hpxnode.Controller.Node.{
  StartRequest, StartError, Core, Controller, key_of_request, new_backend, start_backend, connect,
  disconnect, new_request, backend, retire, add_started, good, bad, Attempt,
}
use hpxnode.Controller.Lifecycle.{
  runs, IsOrderly, IsTracked, disconnect-IsTracked, start_backend-IsTracked,
}
use hpxnode.Controller.KeepAlive.{lookup-start_backend, good_or_none}
use hpxnode.Controller.Service.{
  Code, invalid_argument, permission_denied, unauthenticated, Reply, refused, validate_api_key,
  check_parsed, conditional_middleware, serves, taken_by, welcome, service_start,
}

module _ {U : Type 0} ⦃e : Eq U⦄ where
  wrong_parsed :
      (api_key : U) (o : Option U)
      → o ≢ some api_key
      → (code : Code) × (check_parsed api_key o ≡ some code)
  wrong_parsed api_key none h = (invalid_argument, refl)
  wrong_parsed api_key (some key) h = elim (Bool-cases (key == api_key)) [
    | inl same ↦ absurd (h (ap some ((e.same_iff key api_key).0 same)))
    | inr other ↦ (permission_denied, rw other refl)
  ]

  wrong_key :
      (parse : String → Option U) (api_key : U) (keys : Option (List String))
      → ((text : String) (rest : List String)
          → keys ≡ some (text ∷ rest)
          → parse text ≢ some api_key)
      → (code : Code) × (validate_api_key parse api_key keys ≡ some code)
  unfolding validate_api_key
  wrong_key parse api_key none h = (unauthenticated, refl)
  wrong_key parse api_key (some []) h = (unauthenticated, refl)
  wrong_key parse api_key (some (text ∷ rest)) h =
      wrong_parsed api_key (parse text) (h text rest refl)

-- A call whose first x-api-key value does not parse to the node's key, or that has none, is refused and
-- changes nothing, whatever the method and the handler are.
pub conditional_middleware-denied :
    {B U R : Type 0} ⦃e : Eq U⦄ (parse : String → Option U) (api_key : U) (up : B → Bool) (now : ℕ)
    (method : String) (keys : Option (List String))
    (handler : Controller B → Controller B × Reply R) (s : Controller B)
    → ((text : String) (rest : List String) → keys ≡ some (text ∷ rest) → parse text ≢ some api_key)
    → (code : Code) × (conditional_middleware parse api_key up now method keys handler s
        ≡ (s, refused code))
unfolding conditional_middleware
conditional_middleware-denied parse api_key up now method keys handler s h =
    let (code, is) = wrong_key parse api_key keys h in (code, rw is refl)

module _ {B : Type 0} where
  after_welcome :
      (now : ℕ) (ip : String) (keep_alive : ℕ) (same : Bool) (s : Controller B)
      (o : Option StartError)
      → (welcome now ip keep_alive same (s, o)).0.backends ≡ s.backends
  unfolding new_request connect
  after_welcome now ip keep_alive same s (some x) = refl
  after_welcome now ip keep_alive true s none = refl
  after_welcome now ip keep_alive false s none = refl

  -- Where the cores of the node stand when a client comes.
  abbrev pub kept_for : String → Controller B → BackendKey → Option B
  kept_for ip s k = if s.client_ip == ip then lookup k s.backends else none

  lookup-taken_by :
      (ip : String) (s : Controller B) (k : BackendKey)
      → lookup k (taken_by ip s).backends ≡ kept_for ip s k
  unfolding disconnect lookup backend
  lookup-taken_by ip s k = elim (Bool-cases (serves s)) [
    | inl up ↦ elim (Bool-cases (s.client_ip == ip)) [
      | inl same ↦ rw (up, same) refl
      | inr other ↦ rw (up, other) refl
    ]
    | inr down ↦ rw down (
        unserved s.backends k down
        ∙ sym (
            ap (λ o. if s.client_ip == ip then o else none) (unserved s.backends k down)
            ∙ either_none (s.client_ip == ip)))
  ]
    where
      unserved :
          (m : Dict BackendKey B) (k : BackendKey)
          → is_some (new_composite (dict_values m)) ≡ false
          → lookup k m ≡ none
      unserved [] k h = refl
      unserved (x ∷ m) k h = absurd (cc h)

      either_none : (b : Bool) → (if◌then◌else◌ {A = Option B} b none none) ≡ none
      either_none true = refl
      either_none false = refl

  added_client :
      (key : BackendKey) (s : Controller B) (o : Attempt B)
      → (add_started key s o).0.client_ip ≡ s.client_ip
  unfolding add_started
  added_client key s (good b) = refl
  added_client key s (bad x) = refl

  welcome_owner :
      (now : ℕ) (ip : String) (keep_alive : ℕ) (same : Bool) (s : Controller B)
      (o : Option StartError)
      → (same ≡ true → s.client_ip ≡ ip)
      → (welcome now ip keep_alive same (s, o)).1 ≡ none
      → (welcome now ip keep_alive same (s, o)).0.client_ip ≡ ip
  unfolding new_request connect
  welcome_owner now ip keep_alive same s (some x) h done = absurd (cc done)
  welcome_owner now ip keep_alive true s none h done = h refl
  welcome_owner now ip keep_alive false s none h done = refl

  same_client :
      (ip : String) (s : Controller B)
      → (serves s && s.client_ip == ip) ≡ true
      → (taken_by ip s).client_ip ≡ ip
  same_client ip s h = elim (Bool-cases (serves s)) [
    | inl up ↦ elim (Bool-cases (s.client_ip == ip)) [
      | inl same ↦ rw (up, same) ((eq_iff s.client_ip ip).0 same)
      | inr other ↦ absurd (cc (rw (up, other) at h))
    ]
    | inr down ↦ absurd (cc (rw down at h))
  ]

  taken_by-IsTracked : (ip : String) (s : Controller B) → IsTracked s → IsTracked (taken_by ip s)
  taken_by-IsTracked ip s h = elim (Bool-cases (serves s && not (s.client_ip == ip))) [
    | inl away ↦ rw away (disconnect-IsTracked s h)
    | inr here ↦ rw here h
  ]

  welcome-IsTracked :
      (now : ℕ) (ip : String) (keep_alive : ℕ) (same : Bool) (s : Controller B)
      (o : Option StartError)
      → IsTracked s
      → IsTracked (welcome now ip keep_alive same (s, o)).0
  unfolding new_request connect
  welcome-IsTracked now ip keep_alive same s (some x) h = h
  welcome-IsTracked now ip keep_alive true s none h = h
  welcome-IsTracked now ip keep_alive false s none h = h

module _ {B C : Type 0} where
  table_after_start :
      (env : String → List ℕ) (field_of : FieldOf) (cores : BackendType → Core B C) (now : ℕ)
      (ip : String) (q : StartRequest) (s : Controller B) (k : BackendKey)
      → backend_disabled env q.typ ≡ false
      → lookup k (service_start env field_of cores now ip q s).0.backends ≡ (
          if key_of_request field_of q == k
          then good_or_none (new_backend cores q q.typ)
          else kept_for ip s k)
  unfolding service_start
  table_after_start env field_of cores now ip q s k on =
      let started = start_backend env field_of cores q (taken_by ip s) in
      ap (lookup k)
        (after_welcome now ip q.keep_alive (serves s && s.client_ip == ip) started.0 started.1)
      ∙ (rw on at (lookup-start_backend env field_of cores q (taken_by ip s) k)
          ∙ ap
              (λ x.
                if key_of_request field_of q == k
                then good_or_none (new_backend cores q q.typ)
                else x)
              (lookup-taken_by ip s k))

  -- A start by a client, with no other call while it is under way, keeps the cores that the node runs for
  -- this client and stops those that it runs for another one; under the key of the request there
  -- runs then the core that the start launched, or nothing when the launch failed. The table holds
  -- exactly the cores that run, before and after, and at no moment was one launched beside a running
  -- one of its key. The type is not disabled.
  pub lookup-service_start :
      (env : String → List ℕ) (field_of : FieldOf) (cores : BackendType → Core B C) (now : ℕ)
      (ip : String) (q : StartRequest) (s : Controller B) (k : BackendKey)
      → backend_disabled env q.typ ≡ false
      → IsTracked s
      → (lookup k (service_start env field_of cores now ip q s).0.backends ≡ (
          if key_of_request field_of q == k
          then good_or_none (new_backend cores q q.typ)
          else kept_for ip s k))
        × ((runs k (service_start env field_of cores now ip q s).0.log
              ≡ is_some (
                  if key_of_request field_of q == k
                  then good_or_none (new_backend cores q q.typ)
                  else kept_for ip s k))
            × IsOrderly (service_start env field_of cores now ip q s).0.log)
  unfolding service_start
  lookup-service_start env field_of cores now ip q s k on tracked =
      let started = start_backend env field_of cores q (taken_by ip s) in
      let table = table_after_start env field_of cores now ip q s k on in
      let after =
        welcome-IsTracked now ip q.keep_alive (serves s && s.client_ip == ip) started.0 started.1 (
          start_backend-IsTracked env field_of cores q (taken_by ip s)
            (taken_by-IsTracked ip s tracked)) in
      (table, (after.1 k ∙ ap is_some table, after.2))

  client_after :
      (env : String → List ℕ) (field_of : FieldOf) (cores : BackendType → Core B C)
      (q : StartRequest) (s : Controller B)
      → (start_backend env field_of cores q s).0.client_ip ≡ s.client_ip
  unfolding start_backend retire
  client_after env field_of cores q s =
      let key = key_of_request field_of q in
      elim (Bool-cases (backend_disabled env q.typ)) [
        | inl off ↦ rw off refl
        | inr on ↦ rw on (added_client key (retire key s) (new_backend cores q q.typ))
      ]

  -- After a start that succeeds the node belongs to the client that asked for it.
  pub client_ip-service_start :
      (env : String → List ℕ) (field_of : FieldOf) (cores : BackendType → Core B C) (now : ℕ)
      (ip : String) (q : StartRequest) (s : Controller B)
      → (service_start env field_of cores now ip q s).1 ≡ none
      → (service_start env field_of cores now ip q s).0.client_ip ≡ ip
  unfolding service_start
  client_ip-service_start env field_of cores now ip q s =
      let started = start_backend env field_of cores q (taken_by ip s) in
      welcome_owner now ip q.keep_alive (serves s && s.client_ip == ip) started.0 started.1
        (λ same. client_after env field_of cores q (taken_by ip s) ∙ same_client ip s same)
