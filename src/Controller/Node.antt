-- ===== src/Controller/Node.antt =====
-- controller/controller.go: the node's state, and the calls that start, stop and keep alive its
-- backends. A core is what its package does on a start; the processes that run are what the log of
-- launches and stops says. A start and a disconnect release the lock while cores are shut down
-- and launched: their sections are definitions of their own, and start_backend and disconnect run
-- them in order with no section of another call in between. Times are nanoseconds. The free ports are
-- left out.
use hpxnode.Prelude.{
  ℕ, ◌+◌, ◌-◌, ◌*◌, List, [], ◌∷◌, Option, none, some, String, ℕ_eq, ◌==◌, if◌then◌else◌, ltb, leb,
}
use hpxnode.Prelude.Dict.{Dict, lookup, insert, delete, dict_values}
use hpxnode.Backend.OpenVpn.Users.{User}
use hpxnode.Backend.Composite.{new_composite}
use hpxnode.Controller.Types.{
  BackendType, xray, unknown, BackendKey, backend_key_eq, FieldOf, backend_disabled,
  backend_instance_id,
}

-- The panel's message that starts a core.
pub record StartRequest : Type 0 where
  pub typ : BackendType
  pub config : String
  pub users : List User
  pub exclude_inbounds : List String
  pub keep_alive : ℕ

pub data StartError : Type 0 where
  disabled invalid_type : StartError
  deps_failed config_failed new_failed : String → StartError

pub data Attempt (A : Type 0) : Type 0 where
  good : A → Attempt A
  bad : StartError → Attempt A

abbrev pub then_try : {A B : Type 0} → Attempt A → (A → Attempt B) → Attempt B
then_try (good a) f = f a
then_try (bad e) f = bad e

-- CheckDeps, NewConfig and New of a backend's package.
pub record Core (B C : Type 0) : Type 0 where
  pub check_deps : Option String
  pub new_config : String → List String → Attempt C
  pub new : C → List User → Attempt B

-- The launches and stops of processes, the last one first.
pub data Event : Type 0 where
  launched stopped : BackendKey → Event

-- The background loops of a Connect, which end when its context is cancelled.
pub record Tracker : Type 0 where
  pub context : ℕ
  pub keep_alive : ℕ

pub record Controller (B : Type 0) : Type 0 where
  pub backends : Dict BackendKey B
  pub client_ip : String
  pub last_request : ℕ
  pub context : ℕ
  pub trackers : List Tracker
  pub log : List Event

abbrev pub key_of_request : FieldOf → StartRequest → BackendKey
key_of_request field_of q = record {
  typ = q.typ;
  instance_id = backend_instance_id field_of q.typ q.config;
}

abbrev pub drop_context : ℕ → List Tracker → List Tracker
drop_context context [] = []
drop_context context (t ∷ ts) =
    let rest = drop_context context ts in if t.context == context then rest else t ∷ rest

abbrev pub deps_ok : Option String → Attempt (Unit {0})
deps_ok none = good tt
deps_ok (some e) = bad (deps_failed e)

-- The switch on the type: xray has no dependencies to check.
unfoldable pub new_backend :
    {B C : Type 0} → (BackendType → Core B C) → StartRequest → BackendType → Attempt B
new_backend cores q xray =
    then_try ((cores xray).new_config q.config q.exclude_inbounds) (λ c. (cores xray).new c q.users)
new_backend cores q (unknown n) = bad invalid_type
new_backend cores q t =
    then_try (deps_ok (cores t).check_deps)
      (λ ok. then_try ((cores t).new_config q.config []) (λ c. (cores t).new c q.users))

module _ {B : Type 0} where
  abbrev pub stop_old : BackendKey → Option B → List Event → List Event
  stop_old key none log = log
  stop_old key (some old) log = stopped key ∷ log

  -- The first section of a start under the lock: the old instance of the key leaves the table.
  abbrev pub take_old : BackendKey → Controller B → Controller B
  take_old key s = record s { backends = delete key s.backends }

  -- Without the lock: the old instance is shut down.
  abbrev pub shut_down_old : BackendKey → Option B → Controller B → Controller B
  shut_down_old key old s = record s { log = stop_old key old s.log }

  -- Without the lock: the package's New has launched the core.
  abbrev pub launch : BackendKey → Controller B → Controller B
  launch key s = record s { log = launched key ∷ s.log }

  -- The last section of a start under the lock.
  abbrev pub register : BackendKey → B → Controller B → Controller B
  register key b s = record s { backends = insert key b s.backends }

  unfoldable pub retire : BackendKey → Controller B → Controller B
  retire key s = shut_down_old key (lookup key s.backends) (take_old key s)

  unfoldable pub add_started :
      BackendKey → Controller B → Attempt B → Controller B × Option StartError
  add_started key s (bad e) = (s, some e)
  add_started key s (good b) = (register key b (launch key s), none)

  -- The sections of a start in their order, with none of another call in between.

  unfoldable pub start_backend :
      {C : Type 0}
      → (String → List ℕ)
      → FieldOf
      → (BackendType → Core B C)
      → StartRequest
      → Controller B
      → Controller B × Option StartError
  start_backend env field_of cores q s =
      if backend_disabled env q.typ
      then (s, some disabled)
      else (let key = key_of_request field_of q in
          add_started key (retire key s) (new_backend cores q q.typ))

  -- Each call makes a new context, whose loops run until it is cancelled; a keep-alive of 0 starts no
  -- keep-alive loop.
  unfoldable pub connect : ℕ → String → ℕ → Controller B → Controller B
  connect now ip keep_alive s = record s {
    last_request = now;
    client_ip = ip;
    context = s.context + 1;
    trackers =
        if ltb 0 keep_alive
        then record { context = s.context + 1; keep_alive = keep_alive * 1000000000 } ∷ s.trackers
        else s.trackers;
  }

  unfoldable pub stop_all : Dict BackendKey B → List Event → List Event
  stop_all [] log = log
  stop_all ((key, b) ∷ backends) log = stop_all backends (stopped key ∷ log)

  -- Without the lock: the loops of the connection are told to end.
  abbrev pub cancel : Controller B → Controller B
  cancel s = record s { trackers = drop_context s.context s.trackers }

  -- Without the lock: the cores that the first section under the lock has listed are shut down.
  abbrev pub shut_down_all : Dict BackendKey B → Controller B → Controller B
  shut_down_all listed s = record s { log = stop_all listed s.log }

  -- The last section of a disconnect under the lock: the table is replaced, whatever it holds by then.
  abbrev pub clear : Controller B → Controller B
  clear s = record s { backends = []; client_ip = "" }

  -- The sections of a disconnect in their order, with none of another call in between.
  unfoldable pub disconnect : Controller B → Controller B
  disconnect s = clear (shut_down_all s.backends (cancel s))

  unfoldable pub new_request : ℕ → Controller B → Controller B
  new_request now s = record s { last_request = now }

  -- One tick of a keep-alive loop. A clock that goes back shows no time since the request.
  unfoldable pub tick : ℕ → Tracker → Controller B → Controller B
  tick now t s = if leb t.keep_alive (now - s.last_request) then disconnect s else s

  -- Backend: nil when no core runs.
  unfoldable pub backend : Controller B → Option (List B)
  backend s = new_composite (dict_values s.backends)
