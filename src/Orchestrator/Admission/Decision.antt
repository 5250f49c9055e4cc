-- ===== src/Orchestrator/Admission/Decision.antt =====
-- internal/orchestrator/manager.go: the decision on a spawn request (evaluateSpawnAdmission).
mod Laws
mod Tests
use stacyvm.Base.{
  ℕ, suc, String, Bool, true, false, not, ◌&&◌, Option, none, some, List, [], ◌∷◌, if◌then◌else◌, ℤ,
  pos, ltb_ℤ, leb_ℤ, is_pos, str_eq, is_empty, trim_space, equal_fold, Dict,
}
use stacyvm.Store.Records.{SandboxRecord, WorkerRecord, OwnerQuotaRecord}
use stacyvm.Orchestrator.Placement.{
  WorkerPlacement, PlacementReason, remote_worker_selected, evaluate_worker_placement,
  worker_rpc_url, state_destroyed, local_placement,
}
use stacyvm.Orchestrator.Admission.Quota.{
  OperationalLimits, ManagerError, store_failed, resource_limit, Result, ok, err,
  owner_limit_overrides, Parsed, absent, malformed, parsed, bad_duration, invalid_input,
  normalize_optional_owner_id,
}

-- The manager's settings and what it reads from the store: `none` where the store fails.
pub record Env : Type 0 where
  pub own : String
  pub worker_token : String
  pub worker_signing_key : String
  pub default_ttl : ℤ
  pub limits : OperationalLimits
  pub quotas : Dict OwnerQuotaRecord
  pub workers : Option (List WorkerRecord)
  pub sandboxes : Option (List SandboxRecord)

pub data Reason : Type 0 where
  no_reason max_ttl max_sandboxes max_sandboxes_per_owner : Reason
  worker_unavailable remote_worker_rpc_unavailable : Reason

pub record SpawnAdmissionDecision : Type 0 where
  pub allowed : Bool
  pub queueable : Bool
  pub reason : Reason
  pub active_sandboxes : ℕ
  pub max_sandboxes : ℤ
  pub active_owner_sandboxes : ℕ
  pub max_owner_sandboxes : ℤ
  pub max_ttl : ℤ
  pub selected_worker_id : String
  pub eligible_workers : ℕ
  pub worker_reason : PlacementReason

pub find_worker : String → List WorkerRecord → Option WorkerRecord
find_worker id [] = none
find_worker id (worker ∷ workers) =
    if str_eq worker.id id then some worker else find_worker id workers

pub get_worker : String → Option (List WorkerRecord) → Option WorkerRecord
unfolding find_worker
get_worker id none = none
get_worker id (some workers) = find_worker id workers

-- remoteWorkerRPCClient, as far as it can fail: credentials, the worker's row, and its URL.
pub can_use_remote_worker : Env → String → Bool
unfolding get_worker
can_use_remote_worker env id =
    not (is_empty (trim_space env.worker_token) && is_empty (trim_space env.worker_signing_key))
    && (elim (get_worker id env.workers) [
      | none ↦ false
      | some worker ↦ not (is_empty (worker_rpc_url worker))
    ])

pub count_active : List SandboxRecord → ℕ
count_active [] = 0
count_active (rec ∷ records) =
    let rest = count_active records in if str_eq rec.state state_destroyed then rest else suc rest

pub count_owned : String → List SandboxRecord → ℕ
count_owned owner [] = 0
count_owned owner (rec ∷ records) =
    let rest = count_owned owner records in
    if not (str_eq rec.state state_destroyed) && (not (is_empty owner) && str_eq rec.owner_id owner)
    then suc rest
    else rest

-- The decision before the store is read.
pub fresh_decision : Env → String → SpawnAdmissionDecision
fresh_decision env owner =
    let overrides = owner_limit_overrides env.limits env.quotas owner in
    record {
      allowed = true;
      queueable = false;
      reason = no_reason;
      active_sandboxes = 0;
      max_sandboxes = env.limits.max_sandboxes;
      active_owner_sandboxes = 0;
      max_owner_sandboxes = overrides.1;
      max_ttl = overrides.0;
      selected_worker_id = "";
      eligible_workers = 0;
      worker_reason = PlacementReason.no_reason;
    }

abbrev pub deny : SpawnAdmissionDecision → Reason → Bool → SpawnAdmissionDecision
deny d reason queueable = record d { allowed = false; reason = reason; queueable = queueable }

-- The decision with the placement filled in.
pub place : WorkerPlacement → SpawnAdmissionDecision → SpawnAdmissionDecision
place placement d = record d {
  selected_worker_id = placement.selected_id;
  eligible_workers = placement.eligible;
  worker_reason = placement.reason;
}

-- The two limits on the number of sandboxes.
pub check_counts : String → List SandboxRecord → SpawnAdmissionDecision → SpawnAdmissionDecision
unfolding count_active count_owned
check_counts owner records d =
    let counted = record d {
      active_sandboxes = count_active records;
      active_owner_sandboxes = count_owned owner records;
    } in
    if is_pos d.max_sandboxes && leb_ℤ d.max_sandboxes (pos (count_active records))
    then deny counted max_sandboxes true
    else if not (is_empty owner)
        && (is_pos d.max_owner_sandboxes
            && leb_ℤ d.max_owner_sandboxes (pos (count_owned owner records)))
    then deny counted max_sandboxes_per_owner true
    else counted

pub check_placement :
    Env
    → String
    → WorkerPlacement
    → List SandboxRecord
    → SpawnAdmissionDecision
    → SpawnAdmissionDecision
unfolding place check_counts can_use_remote_worker
check_placement env owner placement records d =
    let placed = place placement d in
    if is_empty placement.selected_id
    then deny placed worker_unavailable false
    else if str_eq placement.selected_id env.own
    then check_counts owner records placed
    else (let remote = record placed { worker_reason = remote_worker_selected } in
        if can_use_remote_worker env placement.selected_id
        then check_counts owner records remote
        else deny remote remote_worker_rpc_unavailable false)

pub evaluate_spawn_admission : Env → ℕ → String → ℤ → String → Result SpawnAdmissionDecision
evaluate_spawn_admission env now owner ttl provider =
    let d = fresh_decision env owner in
    if is_pos d.max_ttl && ltb_ℤ d.max_ttl ttl
    then ok (deny d max_ttl false)
    else elim env.sandboxes [
      | none ↦ err store_failed
      | some records ↦ ok (
          check_placement env owner
            (evaluate_worker_placement env.own now provider env.workers records) records d)
    ]

pub current_spawn_placement : Env → ℕ → String → WorkerPlacement
current_spawn_placement env now provider = elim env.sandboxes [
  | none ↦ local_placement env.own
  | some records ↦ evaluate_worker_placement env.own now provider env.workers records
]

unfoldable pub queues : OperationalLimits → Bool
queues limits = equal_fold limits.spawn_overflow "queue"

pub spawn_admission_error : SpawnAdmissionDecision → ManagerError
spawn_admission_error d = elim d.reason [
  | max_ttl ↦ resource_limit "ttl exceeds max ttl"
  | max_sandboxes ↦ resource_limit "max sandboxes reached"
  | max_sandboxes_per_owner ↦ resource_limit "max sandboxes per owner reached"
  | worker_unavailable ↦ resource_limit "no eligible worker available"
  | remote_worker_rpc_unavailable ↦ resource_limit "selected worker requires remote worker RPC"
  | no_reason ↦ resource_limit "spawn admission denied"
]

pub unqueue : OperationalLimits → Result SpawnAdmissionDecision → Result SpawnAdmissionDecision
unfolding queues
unqueue limits (err e) = err e
unqueue limits (ok d) =
    ok (if d.queueable && not (queues limits) then record d { queueable = false } else d)

pub admit_request : Env → ℕ → Result String → ℤ → String → Result SpawnAdmissionDecision
unfolding unqueue
admit_request env now (err e) ttl provider = err e
admit_request env now (ok owner) ttl provider =
    unqueue env.limits (evaluate_spawn_admission env now owner ttl provider)

-- EvaluateSpawnRequestAdmission: the decision without its effects, for a request.
pub evaluate_request_admission : Env → ℕ → String → Parsed → String → Result SpawnAdmissionDecision
unfolding admit_request
evaluate_request_admission env now raw_owner malformed provider = err (invalid_input "parsing TTL")
evaluate_request_admission env now raw_owner absent provider =
    admit_request env now (normalize_optional_owner_id raw_owner) env.default_ttl provider
evaluate_request_admission env now raw_owner (parsed ttl) provider =
    admit_request env now (normalize_optional_owner_id raw_owner) ttl provider
