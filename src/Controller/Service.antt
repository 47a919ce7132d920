-- ===== src/Controller/Service.antt =====
-- controller/rpc/base.go, middleware.go and user.go, controller/rest/base.go and common/helper.go: what
-- stands between the panel's call and the controller. The parser of UUIDs, the handlers and the
-- address of the peer are parameters; log lines are left out.
use hpxnode.Prelude.{
  ℕ, Bool, not, ◌&&◌, List, [], ◌∷◌, Option, none, some, String, string_eq, Eq, ◌==◌, if◌then◌else◌,
  is_some,
}
use hpxnode.Prelude.Dict.{elem}
use hpxnode.Backend.Composite.{started}
use hpxnode.Backend.OpenVpn.Users.{User}
use hpxnode.Controller.Types.{BackendType, FieldOf}
use hpxnode.Controller.Node.{
  StartRequest, StartError, Core, Controller, start_backend, connect, disconnect, new_request,
  backend,
}

-- The codes of gRPC.
pub data Code : Type 0 where
  ok_code canceled unknown_code invalid_argument deadline_exceeded not_found : Code
  already_exists permission_denied resource_exhausted failed_precondition aborted : Code
  out_of_range unimplemented internal unavailable data_loss unauthenticated : Code

-- GrpcCodeToHTTP
unfoldable pub grpc_code_to_http : Code → ℕ
grpc_code_to_http ok_code = 200
grpc_code_to_http canceled = 499
grpc_code_to_http invalid_argument = 400
grpc_code_to_http unauthenticated = 401
grpc_code_to_http permission_denied = 403
grpc_code_to_http not_found = 404
grpc_code_to_http already_exists = 409
grpc_code_to_http resource_exhausted = 429
grpc_code_to_http failed_precondition = 412
grpc_code_to_http aborted = 409
grpc_code_to_http out_of_range = 400
grpc_code_to_http unimplemented = 501
grpc_code_to_http internal = 500
grpc_code_to_http unavailable = 503
grpc_code_to_http deadline_exceeded = 504
grpc_code_to_http unknown_code = 500
grpc_code_to_http data_loss = 500

pub data Reply (R : Type 0) : Type 0 where
  replied : R → Reply R
  refused : Code → Reply R

module _ {U : Type 0} ⦃e : Eq U⦄ where
  abbrev pub check_parsed : U → Option U → Option Code
  check_parsed api_key none = some invalid_argument
  check_parsed api_key (some key) = if not (key == api_key) then some permission_denied else none

  -- The x-api-key values of the call's metadata; none when there is no metadata or no such header.
  unfoldable pub validate_api_key : (String → Option U) → U → Option (List String) → Option Code
  validate_api_key parse api_key none = some unauthenticated
  validate_api_key parse api_key (some []) = some unauthenticated
  validate_api_key parse api_key (some (text ∷ texts)) = check_parsed api_key (parse text)

abbrev pub service_method : List String
service_method =
    "/service.NodeService/GetStats" ∷ "/service.NodeService/GetUserOnlineStats"
    ∷ "/service.NodeService/GetUserOnlineIpListStats" ∷ "/service.NodeService/GetBackendStats"
    ∷ "/service.NodeService/GetSystemStats" ∷ "/service.NodeService/Stop"
    ∷ "/service.NodeService/SyncUser" ∷ "/service.NodeService/SyncUsers"
    ∷ "/service.NodeService/SyncUsersChunked" ∷ "/service.NodeService/GetLogs" ∷ []

unfoldable pub needs_backend : String → Bool
needs_backend method = elem method service_method

module _ {B : Type 0} where
  abbrev pub status_of : (B → Bool) → Option (List B) → Option Code
  status_of up none = some unavailable
  status_of up (some bs) = if not (started up bs) then some unavailable else none

  unfoldable pub check_backend_status : (B → Bool) → Controller B → Option Code
  check_backend_status up s = status_of up (backend s)

  -- An interceptor that lets the call through or refuses it.
  abbrev pub guarded :
      {R : Type 0}
      → Option Code
      → (Controller B → Controller B × Reply R)
      → Controller B
      → Controller B × Reply R
  guarded none handler s = handler s
  guarded (some code) handler s = (s, refused code)

  -- The logging interceptor, which counts a call that succeeds as a request.
  abbrev pub counted : {R : Type 0} → ℕ → Controller B × Reply R → Controller B × Reply R
  counted now (s, replied r) = (new_request now s, replied r)
  counted now (s, refused code) = (s, refused code)

  abbrev pub check_if_needed : (B → Bool) → String → Controller B → Option Code
  check_if_needed up method s = if needs_backend method then check_backend_status up s else none

  -- The chain of interceptors of a unary call.
  unfoldable pub conditional_middleware :
      {U R : Type 0} ⦃e : Eq U⦄
      → (String → Option U)
      → U
      → (B → Bool)
      → ℕ
      → String
      → Option (List String)
      → (Controller B → Controller B × Reply R)
      → Controller B
      → Controller B × Reply R
  conditional_middleware parse api_key up now method keys handler s = counted now (
      guarded (validate_api_key parse api_key keys)
        (λ x. guarded (check_if_needed up method x) handler x) s)

  abbrev pub serves : Controller B → Bool
  serves s = is_some (backend s)

  -- The same client adds a core, another one takes over.
  abbrev pub taken_by : String → Controller B → Controller B
  taken_by ip s = if serves s && not (s.client_ip == ip) then disconnect s else s

  abbrev pub welcome :
      ℕ → String → ℕ → Bool → Controller B × Option StartError → Controller B × Option StartError
  welcome now ip keep_alive same_client (s, some e) = (s, some e)
  welcome now ip keep_alive same_client (s, none) =
      if same_client then (new_request now s, none) else (connect now ip keep_alive s, none)

  -- Service.Start of both services, for a peer with this address.
  unfoldable pub service_start :
      {C : Type 0}
      → (String → List ℕ)
      → FieldOf
      → (BackendType → Core B C)
      → ℕ
      → String
      → StartRequest
      → Controller B
      → Controller B × Option StartError
  service_start env field_of cores now ip q s =
      welcome now ip q.keep_alive (serves s && s.client_ip == ip)
        (start_backend env field_of cores q (taken_by ip s))

-- What a stream of users gives: a user, or its end or an error, which the loop does not tell apart.
pub data SyncReply : Type 0 where
  closed email_required : SyncReply
  sync_failed : String → SyncReply

abbrev pub go_on : {S : Type 0} → S × Option String → (S → S × SyncReply) → S × SyncReply
go_on (s, some e) next = (s, sync_failed e)
go_on (s, none) next = next s

-- Service.SyncUser on the users that the stream gives before it ends.
unfoldable pub sync_user_stream :
    {S : Type 0} → (User → S → S × Option String) → List User → S → S × SyncReply
sync_user_stream sync [] s = (s, closed)
sync_user_stream sync (u ∷ us) s =
    if u.email == "" then (s, email_required) else go_on (sync u s) (sync_user_stream sync us)
