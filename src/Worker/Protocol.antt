-- ===== src/Worker/Protocol.antt =====
-- internal/workerproto/protocol.go: the messages to a worker, and the test that every one of them
-- passes before it is handled. The decoding of parameters (encoding/json) is an argument.
use stacyvm.Base.{
  ℕ, String, Bool, true, false, Option, none, some, List, [], ◌∷◌, if◌then◌else◌, ℤ, is_empty,
  trim_space, Dict, lookup,
}

pub record LeaseToken : Type 0 where
  pub resource_id : String
  pub holder_id : String
  pub generation : ℕ
  pub expires_at : ℕ

-- `params` is the text of the parameters.
pub record Request : Type 0 where
  pub id : String
  pub method : String
  pub worker_id : String
  pub lease : Option LeaseToken
  pub params : String

pub record SpawnParams : Type 0 where
  pub sandbox_id : String
  pub image : String
  pub provider : String
  pub memory_mb : ℤ
  pub vcpus : ℤ
  pub owner_id : String
  pub ttl : String
  pub metadata : Dict String

pub record DestroyParams : Type 0 where
  pub sandbox_id : String
  pub provider : String
  pub runtime_id : String

pub record StatusParams : Type 0 where
  pub sandbox_id : String
  pub provider : String
  pub runtime_id : String

pub record ExecParams : Type 0 where
  pub sandbox_id : String
  pub provider : String
  pub runtime_id : String
  pub command : String
  pub args : List String
  pub exec_mode : String
  pub env : Dict String
  pub workdir : String
  pub timeout : String

pub record FileParams : Type 0 where
  pub sandbox_id : String
  pub provider : String
  pub runtime_id : String
  pub path : String
  pub content : List ℕ
  pub file_mode : String
  pub recursive : Bool
  pub old_path : String
  pub new_path : String
  pub pattern : String

pub record LogsParams : Type 0 where
  pub sandbox_id : String
  pub provider : String
  pub runtime_id : String
  pub lines : ℤ

pub record RenewLeaseParams : Type 0 where
  pub resource_id : String
  pub ttl : String

-- json.Unmarshal into each type of parameters, and time.ParseDuration; `none` where it fails.
pub record Codec : Type 0 where
  pub heartbeat : String → Bool
  pub spawn : String → Option SpawnParams
  pub destroy : String → Option DestroyParams
  pub status : String → Option StatusParams
  pub exec : String → Option ExecParams
  pub file : String → Option FileParams
  pub logs : String → Option LogsParams
  pub renew : String → Option RenewLeaseParams
  pub duration : String → Option ℤ

pub data FileMethod : Type 0 where
  file_write file_read file_list file_delete file_move file_chmod file_stat file_glob : FileMethod

-- The constants of the methods; any other text is `unknown`.
pub data Method : Type 0 where
  heartbeat spawn destroy status exec exec_stream logs renew_lease shutdown unknown : Method
  file : FileMethod → Method

abbrev methods : Dict Method
methods =
    ("worker.heartbeat", Method.heartbeat)
    ∷ ("worker.spawn", Method.spawn)
    ∷ ("worker.destroy", Method.destroy)
    ∷ ("worker.status", Method.status)
    ∷ ("worker.exec", Method.exec)
    ∷ ("worker.exec_stream", exec_stream)
    ∷ ("worker.file_write", Method.file file_write)
    ∷ ("worker.file_read", Method.file file_read)
    ∷ ("worker.file_list", Method.file file_list)
    ∷ ("worker.file_delete", Method.file file_delete)
    ∷ ("worker.file_move", Method.file file_move)
    ∷ ("worker.file_chmod", Method.file file_chmod)
    ∷ ("worker.file_stat", Method.file file_stat)
    ∷ ("worker.file_glob", Method.file file_glob)
    ∷ ("worker.logs", Method.logs)
    ∷ ("worker.renew_lease", renew_lease)
    ∷ ("worker.shutdown", shutdown)
    ∷ []

-- The case of the switch statements on a method.
unfoldable pub method_of : String → Method
unfolding lookup
method_of m = elim (lookup m methods) [ none ↦ unknown | some method ↦ method ]

pub data MessageError : Type 0 where
  id_required worker_id_required lease_required params_required invalid_params : MessageError
  unknown_method : String → MessageError

unfoldable pub is_some {ℓ} : {A : Type ℓ} → Option A → Bool
is_some none = false
is_some (some a) = true

-- validateParams, on whether the text decodes.
unfoldable pub validate_params : String → Bool → Option MessageError
validate_params raw decodes =
    if is_empty raw then some params_required else if decodes then none else some invalid_params

unfoldable pub with_lease : Option LeaseToken → Option MessageError → Option MessageError
with_lease none e = some lease_required
with_lease (some token) e = e

-- The switch of ValidateRequest.
unfoldable pub validate_method : Codec → Request → Method → Option MessageError
unfolding validate_params with_lease is_some
validate_method c req Method.heartbeat = validate_params req.params (c.heartbeat req.params)
validate_method c req Method.spawn =
    with_lease req.lease (validate_params req.params (is_some (c.spawn req.params)))
validate_method c req Method.destroy =
    with_lease req.lease (validate_params req.params (is_some (c.destroy req.params)))
validate_method c req Method.status = validate_params req.params (is_some (c.status req.params))
validate_method c req Method.exec = validate_params req.params (is_some (c.exec req.params))
validate_method c req exec_stream = validate_params req.params (is_some (c.exec req.params))
validate_method c req Method.logs = validate_params req.params (is_some (c.logs req.params))
validate_method c req renew_lease =
    with_lease req.lease (validate_params req.params (is_some (c.renew req.params)))
validate_method c req shutdown = none
validate_method c req unknown = some (unknown_method req.method)
validate_method c req (Method.file m) = validate_params req.params (is_some (c.file req.params))

-- ValidateRequest: `none` where the request is good.
unfoldable pub validate_request : Codec → Request → Option MessageError
unfolding method_of
validate_request c req =
    if is_empty (trim_space req.id)
    then some id_required
    else if is_empty (trim_space req.worker_id)
    then some worker_id_required
    else validate_method c req (method_of req.method)
