-- ===== src/Controller/NodeTests.antt =====
-- controller/controller.go and rpc on a node with one or two cores. A core is a number, its
-- configuration the text that came.
use hpxnode.Prelude.{
  Bool-cases, inl, inr, is_some, ℕ, true, List, [], ◌∷◌, ◌++◌, Option, none, some, String, ℕ_eq,
  string_eq, ◌==◌, if◌then◌else◌, arith, ◌≡◌, ◌≢◌, refl, ap,
}
use hpxnode.Prelude.Int.{ℤ, pos}
use hpxnode.Prelude.Dict.{insert, Dict, lookup}
use hpxnode.Prelude.Text.{codes, to_lower, trim_space, trim_left}
use hpxnode.Backend.Composite.{Answer, ok, int_or_zero, shaped_clients}
use hpxnode.Backend.RateLimit.Apply.{Client, wanted_from}
use hpxnode.Controller.Types.{
  BackendKey, BackendType, xray, openvpn, backend_key_eq, FieldOf, backend_disabled, disable_names,
  some_on, codes-discrete, BackendKey-discrete, BackendType-discrete,
}
use hpxnode.Controller.Node.{
  launched, take_old, launch, register, StartRequest, good, Core, Controller, key_of_request,
  new_backend, start_backend, disconnect,
}
use hpxnode.Controller.Lifecycle.{
  Step, start, disconnects, requests, ticks, runs, steps, IsTracked, steps-IsTracked, IsOrderly,
}
use hpxnode.Controller.KeepAlive.{good_or_none, lookup-start_backend, steps-empty, steps-kept}
use hpxnode.Controller.Answers.{user_online_ip_list, refresh_shaping}
use hpxnode.Controller.OnlineIps.{user_online_ip_list-IsLatest, IsLatest}
use hpxnode.Controller.Shaping.{applied_by, lookup-refresh_shaping}
use hpxnode.Controller.Service.{
  Code, Reply, replied, refused, conditional_middleware, service_start,
}
use hpxnode.Controller.Access.{conditional_middleware-denied, lookup-service_start, kept_for}

abbrev empty_node : Controller ℕ
empty_node = record {
  backends = [];
  client_ip = "";
  last_request = 0;
  context = 0;
  trackers = [];
  log = [];
}

abbrev env : String → List ℕ
env name = []

abbrev field_of : FieldOf
field_of config field = some (codes config)

abbrev cores : BackendType → Core ℕ String
cores t = record {
  check_deps = none;
  new_config = λ config exclude. good config;
  new = λ config users. good 7;
}

abbrev start_openvpn : StartRequest
start_openvpn = record {
  typ = openvpn;
  config = "udp";
  users = [];
  exclude_inbounds = [];
  keep_alive = 60;
}

abbrev openvpn_udp : BackendKey
openvpn_udp = key_of_request field_of start_openvpn

abbrev one_core : Controller ℕ
one_core = record empty_node {
  backends = (openvpn_udp, 7) ∷ [];
  client_ip = "10.0.0.1";
  last_request = 100;
  context = 1;
  trackers = record { context = 1; keep_alive = 60 } ∷ [];
}

steps-IsTracked_example : IsTracked (
    steps
      (start env field_of cores start_openvpn
        ∷ start env field_of cores start_openvpn
        ∷ disconnects
        ∷ [])
      empty_node)
unfolding runs lookup
steps-IsTracked_example =
    steps-IsTracked
      (start env field_of cores start_openvpn
        ∷ start env field_of cores start_openvpn
        ∷ disconnects
        ∷ [])
      empty_node (tt, (λ k. refl), tt)

lookup-start_backend_example :
    lookup openvpn_udp (start_backend env field_of cores start_openvpn one_core).0.backends ≡ (
      if backend_disabled env openvpn
      then lookup openvpn_udp one_core.backends
      else (if openvpn_udp == openvpn_udp
          then good_or_none (new_backend cores start_openvpn openvpn)
          else lookup openvpn_udp one_core.backends))
lookup-start_backend_example =
    lookup-start_backend env field_of cores start_openvpn one_core openvpn_udp

steps-empty_example :
    (steps {C = String}
      ((ticks 110 (record { context = 1; keep_alive = 60 }) ∷ [])
        ++ ticks 160 (record { context = 1; keep_alive = 60 }) ∷ [])
      one_core).backends
    ≡ []
steps-empty_example =
    steps-empty (ticks 110 (record { context = 1; keep_alive = 60 }) ∷ []) [] 160
      (record { context = 1; keep_alive = 60 }) one_core (tt, tt) tt (omega arith)

abbrev start_xray : StartRequest
start_xray = record start_openvpn { typ = xray }

abbrev kept_calls : List (Step ℕ String)
kept_calls =
    ticks 110 (record { context = 1; keep_alive = 60 })
    ∷ start env field_of cores start_xray
    ∷ requests 150
    ∷ ticks 160 (record { context = 1; keep_alive = 60 })
    ∷ []

steps-kept_example :
    lookup openvpn_udp (steps kept_calls one_core).backends ≡ lookup openvpn_udp one_core.backends
unfolding BackendKey-discrete BackendType-discrete
steps-kept_example =
    steps-kept openvpn_udp kept_calls one_core (omega arith, (refl, (tt, (omega arith, tt))))

abbrev other_name : ℕ → String
other_name n = "unknown"

abbrev ask : ℕ → Answer String (Dict String ℤ)
ask b = ok (("1.2.3.4", pos 5) ∷ [])

user_online_ip_list-IsLatest_example :
    IsLatest other_name ask "1.2.3.4" one_core.backends
      (int_or_zero (lookup "1.2.3.4" (user_online_ip_list other_name ask one_core).ips))
unfolding lookup
user_online_ip_list-IsLatest_example =
    user_online_ip_list-IsLatest other_name ask "1.2.3.4" one_core ((refl, tt), tt)

abbrev client : String → ℕ → Client
client address limit = record { user = "ann"; address = address; limit_kbps = limit }

abbrev shaped : ℕ → Option (List Client)
shaped b = if b == 7 then some (client "10.8.0.2" 500 ∷ []) else none

abbrev two_cores : Dict BackendKey ℕ
two_cores = (openvpn_udp, 6) ∷ (openvpn_udp, 7) ∷ []

lookup-refresh_shaping_example :
    lookup "10.8.0.2" (applied_by (refresh_shaping shaped [] two_cores none))
    ≡ some (client "10.8.0.2" 500)
unfolding shaped_clients wanted_from insert
lookup-refresh_shaping_example =
    lookup-refresh_shaping shaped "10.8.0.2" refl [] two_cores none tt (omega arith)

abbrev parse : String → Option ℕ
parse text = if text == "right" then some 1 else none

abbrev handler : Controller ℕ → Controller ℕ × Reply ℕ
handler s = (disconnect s, replied 0)

first_text : Option (List String) → String
first_text (some (text ∷ rest)) = text
first_text o = ""

wrong_denied :
    (text : String) (rest : List String)
    → some ("wrong" ∷ []) ≡ some (text ∷ rest)
    → parse text ≢ some 1
unfolding first_text
wrong_denied text rest same found =
    let none_found : none ≡ parse text = ap parse (ap first_text same) in
    absurd (cc (none_found, found))

conditional_middleware-denied_example :
    (code : Code) × (conditional_middleware parse 1
        (λ b. true)
        200
        "/service.NodeService/Stop"
        (some ("wrong" ∷ []))
        handler
        one_core
      ≡ (one_core, refused code))
conditional_middleware-denied_example =
    conditional_middleware-denied parse 1 (λ b. true) 200 "/service.NodeService/Stop"
      (some ("wrong" ∷ [])) handler one_core wrong_denied

abbrev running_core : Controller ℕ
running_core = record one_core { log = launched openvpn_udp ∷ [] }

running_core-IsTracked : IsTracked running_core
unfolding runs lookup
running_core-IsTracked = ((refl, tt), (λ k. same k), (refl, tt))
  where
    same :
        (k : BackendKey)
        → runs k (launched openvpn_udp ∷ []) ≡ is_some (lookup k running_core.backends)
    same k = elim (Bool-cases (openvpn_udp == k)) [
      | inl here ↦ rw here refl
      | inr other ↦ rw other refl
    ]

abbrev after_start : Option ℕ
after_start =
    if openvpn_udp == openvpn_udp
    then good_or_none (new_backend cores start_openvpn openvpn)
    else kept_for "10.0.0.2" running_core openvpn_udp

lookup-service_start_example :
    (lookup openvpn_udp
        (service_start env field_of cores 200 "10.0.0.2" start_openvpn running_core).0.backends
      ≡ after_start)
    × ((runs openvpn_udp
            (service_start env field_of cores 200 "10.0.0.2" start_openvpn running_core).0.log
          ≡ is_some after_start)
        × IsOrderly
            (service_start env field_of cores 200 "10.0.0.2" start_openvpn running_core).0.log)
unfolding backend_disabled disable_names some_on to_lower trim_space trim_left codes-discrete
lookup-service_start_example =
    lookup-service_start env field_of cores 200 "10.0.0.2" start_openvpn running_core openvpn_udp
      refl running_core-IsTracked

-- The sections of two starts of one key, the second begun before the first is done: two cores of the
-- key are launched, and none is stopped.
abbrev overlapping : Controller ℕ
overlapping = register openvpn_udp 8 (
    register openvpn_udp 7 (
      launch openvpn_udp
        (launch openvpn_udp (take_old openvpn_udp (take_old openvpn_udp empty_node)))))

overlapping_launches : overlapping.log ≡ launched openvpn_udp ∷ launched openvpn_udp ∷ []
overlapping_launches = refl
