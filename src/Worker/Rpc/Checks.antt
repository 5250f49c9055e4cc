-- ===== src/Worker/Rpc/Checks.antt =====
-- internal/worker/rpc.go: the server's state, its replies, and the tests that the handlers share: the
-- lease token, the decoding of parameters, and the provider. A test stops with the status and the
-- text of the reply.
use stacyvm.Base.{
  ℕ, String, ◌≡◌, refl, ◌⊎◌, inl, inr, Bool, not, Option, none, some, List, ◌∷◌, ltb, if◌then◌else◌,
  ℤ, str_eq, is_empty, trim_space, Dict,
}
use stacyvm.Providers.Registry.{Registry, found, missing, registry_get}
use stacyvm.Worker.Protocol.{
  LeaseToken, Request, SpawnParams, DestroyParams, RenewLeaseParams, Codec, FileMethod, FileParams,
  ExecParams,
}

pub data RpcCall : Type 0 where
  asked_status asked_logs destroyed : String → String → RpcCall
  executed streamed : String → String → ExecParams → Bool → RpcCall
  filed : String → String → FileMethod → FileParams → RpcCall
  spawned : String → SpawnParams → RpcCall
  renewed : String → String → RpcCall

pub record RpcServer : Type 0 where
  pub worker_id : String
  pub token : String
  pub signing_key : String
  pub signing_keys : List String
  pub revoked_token_ids : List String
  pub registry : Option Registry
  pub has_renewer : Bool
  pub draining : Bool
  pub calls : List RpcCall

pub record FileInfo : Type 0 where
  pub path : String
  pub size : ℤ
  pub file_mode : String
  pub is_dir : Bool
  pub mod_time : String

pub data RpcResult : Type 0 where
  no_result : RpcResult
  status_result : String → String → String → RpcResult
  exec_result : String → ℤ → String → String → RpcResult
  -- The chunks, each a stream and its data, at once or line by line with the error of the context.
  stream_result : String → List (String × String) → RpcResult
  ndjson_result : List (String × String) → Bool → RpcResult
  read_result : String → List ℕ → RpcResult
  list_result : String → List FileInfo → RpcResult
  stat_result : String → FileInfo → RpcResult
  names_result : String → List String → RpcResult
  spawn_result : String → String → String → String → Dict String → RpcResult
  lease_result : LeaseToken → RpcResult

-- The HTTP status, and the response: its id, and an error or a result.
pub record Reply : Type 0 where
  pub status_code : ℕ
  pub id : String
  pub worker_id : String
  pub error : Option String
  pub result : RpcResult

-- httputil.WriteError, before the request is known.
unfoldable pub refusal : ℕ → String → Reply
refusal status_code text = record {
  status_code = status_code;
  id = "";
  worker_id = "";
  error = some text;
  result = no_result;
}

unfoldable pub failure : ℕ → String → RpcServer → Request → Reply
failure status_code text s req = record {
  status_code = status_code;
  id = req.id;
  worker_id = s.worker_id;
  error = some text;
  result = no_result;
}

unfoldable pub respond : RpcResult → RpcServer → Request → Reply
respond result s req = record {
  status_code = 200;
  id = req.id;
  worker_id = s.worker_id;
  error = none;
  result = result;
}

unfoldable pub note : RpcCall → RpcServer → RpcServer
note c s = record s { calls = c ∷ s.calls }

pub data Checked (A : Type 0) : Type 0 where
  stop : ℕ → String → Checked A
  go : A → Checked A

infixl 5 ◌>>=◌ ◌>>◌
abbrev pub ◌>>=◌ : {A B : Type 0} → Checked A → (A → Checked B) → Checked B
stop n text >>= f = stop n text
go a >>= f = f a

abbrev pub ◌>>◌ : {B : Type 0} → Checked (Unit {0}) → Checked B → Checked B
m >> k = m >>= λ _. k

pub Checked-cases :
    {A : Type 0} (m : Checked A)
    → ((n : ℕ) × (text : String) × (m ≡ stop n text)) ⊎ ((a : A) × (m ≡ go a))
Checked-cases (stop n text) = inl (n, text, refl)
Checked-cases (go a) = inr (a, refl)

pub >>=-eq-go :
    {A B : Type 0} (m : Checked A) (f : A → Checked B) {b : B}
    → (m >>= f) ≡ go b
    → (a : A) × (m ≡ go a) × (f a ≡ go b)
>>=-eq-go (stop n text) f h = cc
>>=-eq-go (go a) f h = (a, refl, h)

-- What a provider's call answers; ErrSandboxNotFound is told from other errors.
pub data Answered (A : Type 0) : Type 0 where
  answered : A → Answered A
  not_found : Answered A
  failed : String → Answered A

unfoldable pub validate_lease_token : Option LeaseToken → String → ℕ → Checked LeaseToken
validate_lease_token none worker now = stop 403 "lease token is required"
validate_lease_token (some token) worker now =
    if not (str_eq token.holder_id worker)
    then stop 403 "lease holder does not match worker"
    else if is_empty (trim_space token.resource_id)
    then stop 403 "lease resource is required"
    else if ltb token.expires_at now
    then stop 403 "lease token is expired"
    else go token

unfoldable pub decoded : {A : Type 0} → Option A → Checked A
decoded none = stop 400 "invalid params"
decoded (some a) = go a

unfoldable pub same_resource : String → String → String → Checked (Unit {0})
same_resource wanted resource text = if str_eq wanted resource then go tt else stop 403 text

unfoldable pub find_provider : RpcServer → String → Checked String
find_provider s name = elim s.registry [
  | none ↦ stop 503 "provider registry unavailable"
  | some r ↦ elim (registry_get name r) [
    | missing e ↦ stop 404 "provider not found"
    | found p ↦ go p
  ]
]

-- What the handlers of a sandbox's runtime do first: the parameters, then the provider that they name.
unfoldable pub prepare : {A : Type 0} → Option A → (A → String) → RpcServer → Checked (A × String)
unfolding decoded find_provider
prepare raw provider_of s = do
  params ← decoded raw
  p ← find_provider s (provider_of params)
  go (params, p)

-- What the handlers of a lease's holder do first: the token, the parameters, and that both are about
-- one resource.
unfoldable pub leased :
    {A : Type 0} → Option LeaseToken → String → ℕ → Option A → (A → String) → String → Checked A
unfolding validate_lease_token decoded same_resource
leased lease worker now raw resource_of text = do
  token ← validate_lease_token lease worker now
  params ← decoded raw
  same_resource (resource_of params) token.resource_id text
  go params

unfoldable pub prepare_spawn : Codec → RpcServer → ℕ → Request → Checked (SpawnParams × String)
unfolding leased find_provider
prepare_spawn codec s now req = do
  let raw = codec.spawn req.params
  let text : String = "lease resource does not match spawn request"
  params ← leased req.lease s.worker_id now raw (λ p. p.sandbox_id) text
  p ← find_provider s params.provider
  go (params, p)

unfoldable pub prepare_destroy : Codec → RpcServer → ℕ → Request → Checked (DestroyParams × String)
unfolding leased find_provider
prepare_destroy codec s now req = do
  let raw = codec.destroy req.params
  let text : String = "lease resource does not match destroy request"
  params ← leased req.lease s.worker_id now raw (λ p. p.sandbox_id) text
  p ← find_provider s params.provider
  go (params, p)

unfoldable pub check_renewer : RpcServer → Checked (Unit {0})
check_renewer s = if s.has_renewer then go tt else stop 503 "lease renewer unavailable"

unfoldable pub prepare_renewal : Codec → RpcServer → ℕ → Request → Checked RenewLeaseParams
unfolding leased check_renewer
prepare_renewal codec s now req = do
  let raw = codec.renew req.params
  let text : String = "lease resource does not match renewal request"
  params ← leased req.lease s.worker_id now raw (λ p. p.resource_id) text
  check_renewer s
  go params

unfoldable pub runtime_of : String → String → String
runtime_of runtime_id sandbox_id =
    if is_empty (trim_space runtime_id) then sandbox_id else trim_space runtime_id
