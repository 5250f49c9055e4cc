-- ===== src/Store/Records.antt =====
-- internal/store/store.go: the rows of the database. Times are nanoseconds since the epoch, 0 for
-- Go's zero time. A column that holds JSON is the value that it decodes to.
use stacyvm.Base.{ℕ, String, Option, List, ℤ, Dict}

pub record SandboxRecord : Type 0 where
  pub id : String
  pub state : String
  pub provider : String
  pub image : String
  pub memory_mb : ℤ
  pub vcpus : ℤ
  pub metadata : Dict String
  pub owner_id : String
  pub tenant_id : String
  pub vm_id : String
  pub worker_id : String
  pub created_at : ℕ
  pub expires_at : ℕ
  pub updated_at : ℕ

-- What the control plane reads of a worker's `capacity` (orchestrator/scheduler.go); zero values
-- where the JSON does not decode.
pub record WorkerCapacity : Type 0 where
  pub max_sandboxes : ℤ
  pub rpc_url : String
  pub preview_domain : String

-- `providers` is `none` where the JSON does not decode.
pub record WorkerRecord : Type 0 where
  pub id : String
  pub hostname : String
  pub status : String
  pub providers : Option (List String)
  pub capacity : WorkerCapacity
  pub last_heartbeat : ℕ

pub record OwnerQuotaRecord : Type 0 where
  pub owner_id : String
  pub max_sandboxes : ℤ
  pub max_ttl_seconds : ℤ
  pub max_exec_timeout_seconds : ℤ
  pub created_at : ℕ
  pub updated_at : ℕ

pub record LeaseRecord : Type 0 where
  pub resource_id : String
  pub resource_type : String
  pub holder_id : String
  pub generation : ℕ
  pub expires_at : ℕ
  pub created_at : ℕ
  pub updated_at : ℕ

pub record PolicyRecord : Type 0 where
  pub id : String
  pub tenant_id : String
  pub resource_type : String
  pub effect : String
  pub pattern : String
  pub priority : ℤ
  pub created_at : ℕ
