-- ===== src/Worker/Rpc/Tests.antt =====
-- A worker with one provider, a static token and a toy signature; requests to spawn and to shut down.
use stacyvm.Base.{
  ◌*◌, String, ◌≡◌, refl, ◌⊎◌, true, false, Option, none, some, [], ◌∷◌, if◌then◌else◌, pos, str_eq,
  is_empty, trim_space,
}
use stacyvm.Api.WorkerAuth.{
  WorkerTokenClaims, second, split_dots, token_parts, trim_claims, check_times, check_audience,
  verify_parts, verify_worker_token_for_audience,
}
use stacyvm.Providers.Registry.{registry_get}
use stacyvm.Worker.Protocol.{
  LeaseToken, Request, SpawnParams, Codec, method_of, validate_request, validate_method,
}
use stacyvm.Worker.Rpc.Checks.{
  RpcCall, RpcServer, spawned, failure, note, answered, not_found, find_provider, leased,
  prepare_spawn,
}
use stacyvm.Worker.Rpc.Handlers.{Answers, handle_spawn, spawn_reply}
use stacyvm.Worker.Rpc.{HttpRequest, presented_token, authenticate, dispatch, handle_rpc, serve}
use stacyvm.Worker.Rpc.Leased.{Covered}
use stacyvm.Worker.Rpc.Fencing.{handle_rpc-Covered}
use stacyvm.Worker.Rpc.Draining.{spawns, shutdown-Drained}
use stacyvm.Worker.Rpc.Access.{Admitted, authenticate-Admitted, token_audience_separates}

abbrev sign : String → String → String
sign key text = key

abbrev claims : WorkerTokenClaims
claims = record {
  worker_id = "w-1";
  token_id = "t-1";
  audience = "";
  scopes = [];
  expires_at = pos 700;
  issued_at = pos 100;
  not_before = pos 0;
}

abbrev decode : String → Option WorkerTokenClaims
decode payload = if str_eq payload "p" then some claims else none

abbrev spawn_params : SpawnParams
spawn_params = record {
  sandbox_id = "sb-1";
  image = "alpine";
  provider = "mock";
  memory_mb = pos 512;
  vcpus = pos 1;
  owner_id = "";
  ttl = "";
  metadata = [];
}

abbrev codec : Codec
codec = record {
  heartbeat = λ t. true;
  spawn = λ t. if str_eq t "spawn sb-1" then some spawn_params else none;
  destroy = λ t. none;
  status = λ t. none;
  exec = λ t. none;
  file = λ t. none;
  logs = λ t. none;
  renew = λ t. none;
  duration = λ t. none;
}

abbrev worker : RpcServer
worker = record {
  worker_id = "w-1";
  token = "secret";
  signing_key = "";
  signing_keys = "k" ∷ [];
  revoked_token_ids = [];
  registry = some (record { names = "mock" ∷ []; dflt = "mock" });
  has_renewer = false;
  draining = false;
  calls = [];
}

abbrev answers : Answers
answers = record {
  status = answered "running";
  exec = not_found;
  stream = not_found;
  interrupted = false;
  read = not_found;
  list = not_found;
  stat = not_found;
  glob = not_found;
  change = not_found;
  logs = not_found;
  spawn = answered "rt-1";
  destroy = answered tt;
  renew = none;
}

abbrev lease : LeaseToken
lease = record { resource_id = "sb-1"; holder_id = "w-1"; generation = 3; expires_at = 500 }

abbrev spawn_request : Request
spawn_request = record {
  id = "r-1";
  method = "worker.spawn";
  worker_id = "w-1";
  lease = some lease;
  params = "spawn sb-1";
}

abbrev shutdown_request : Request
shutdown_request = record {
  id = "r-2";
  method = "worker.shutdown";
  worker_id = "w-1";
  lease = none;
  params = "";
}

abbrev post : Request → HttpRequest
post req = record {
  is_post = true;
  worker_id = "w-1";
  worker_token = "";
  authorization = "Bearer secret";
  stream = "";
  body = some req;
}

-- A spawn under the lease reaches the provider.
spawn_runs :
    (handle_rpc codec sign decode worker answers (post spawn_request) 400).1.calls
    ≡ spawned "mock" spawn_params ∷ []
unfolding handle_rpc authenticate validate_request validate_method method_of dispatch handle_spawn
    prepare_spawn registry_get note presented_token leased find_provider trim_space spawn_reply
spawn_runs = refl

-- The same spawn when its lease has expired.
spawn_expired :
    (handle_rpc codec sign decode worker answers (post spawn_request) 501).0
    ≡ failure 403 "lease token is expired" worker spawn_request
unfolding handle_rpc authenticate validate_request validate_method method_of dispatch handle_spawn
    prepare_spawn registry_get note presented_token leased find_provider trim_space
spawn_expired = refl

handle_rpc-Covered_example :
    let s' = (handle_rpc codec sign decode worker answers (post spawn_request) 400).1 in
    (s'.calls ≡ [])
    ⊎ ((c : RpcCall) × (req : Request) × (s'.calls ≡ c ∷ [])
        × (authenticate sign decode worker (post spawn_request) 400 ≡ true)
        × ((post spawn_request).body ≡ some req)
        × (req.worker_id ≡ "w-1")
        × (validate_request codec req ≡ none)
        × Covered codec "w-1" 400 req c)
handle_rpc-Covered_example =
    handle_rpc-Covered codec sign decode worker answers (post spawn_request) 400

shutdown-Drained_example :
    let s' =
      serve codec sign decode
        ((answers, post shutdown_request, 400) ∷ (answers, post spawn_request, 401) ∷ [])
        worker in
    (s'.draining ≡ true) × (spawns s'.calls ≡ 0)
unfolding authenticate validate_request validate_method method_of presented_token trim_space
shutdown-Drained_example =
    shutdown-Drained codec sign decode worker answers (post shutdown_request) 400 shutdown_request
      refl refl refl refl refl refl ((answers, post spawn_request, 401) ∷ [])

authenticate-Admitted_example :
    (is_empty (trim_space "w-1") ≡ false)
    × ("w-1" ≡ trim_space "w-1")
    × (is_empty (presented_token (post spawn_request)) ≡ false)
    × Admitted sign decode worker (presented_token (post spawn_request)) 400
unfolding authenticate presented_token trim_space
authenticate-Admitted_example =
    authenticate-Admitted sign decode worker (post spawn_request) 400 refl

token_audience_separates_instance : (claims ≡ claims) × (claims.audience ≡ "")
unfolding split_dots token_parts trim_claims check_times check_audience verify_parts
    verify_worker_token_for_audience trim_space
token_audience_separates_instance =
    token_audience_separates sign decode "k" "k" "stacyvm-worker-v1.p.k" (200 * second)
      (300 * second) claims claims refl refl
