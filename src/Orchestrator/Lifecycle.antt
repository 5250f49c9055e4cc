-- ===== src/Orchestrator/Lifecycle.antt =====
-- internal/orchestrator/manager.go: the manager's state, and the parts that its operations share. An
-- operation is a function from the state to an answer and the state after it. It reads the clock once.
-- Calls of a provider and of a worker are noted in `calls`, what the event bus is given in
-- `published`, what the operation audit is given in `audits`, each newest first; `notices`
-- counts the calls of notifySpawnCapacity. What those calls answer is an argument. The mutex of the cache is held for single reads and writes of it.
pub mod Leasing
mod Request
mod Spawn
pub mod Access
pub mod Paths
mod Destroy
pub mod Files
pub mod Exec
mod Tests
use stacyvm.Base.{
  ℕ, zero, suc, ◌+◌, ◌-◌, ◌*◌, ◌/◌, ◌%◌, ◌^◌, ◌≤◌, ◌<◌, String, ◌≡◌, refl, sym, ap, subst, ◌∙◌, ◌≢◌,
  ◌↔◌, ◌⊎◌, inl, inr, Bool, true, false, not, ◌&&◌, ◌||◌, Option, none, some, List, [], ◌∷◌, ◌++◌,
  map, arith, eq_iff, eq_refl, ltb, leb, ◌==◌, if◌then◌else◌, ltb→lt, lt→ltb, leb→le, ==_iff,
  Bool-cases, Option-cases, length, get_elem?, set, get_or, take, drop, replicate, length-append,
  length-set, take-append-drop, length-take, length-drop, append_assoc_list, drop-set, ℤ, pos,
  negsuc, pos_part, neg_part, sub_ℕ, ◌+ℤ◌, ◌≤ℤ◌, ◌<ℤ◌, ltb_ℤ, leb_ℤ, is_pos, +ℤ_parts, str_eq,
  is_empty, codes, is_space, trim_space, fold, equal_fold, equal_fold_refl, Dict, lookup, insert,
  delete, lookup-insert, lookup-delete, length-insert, length-delete, length-insert_found,
}
use stacyvm.Store.Records.{SandboxRecord, LeaseRecord, WorkerRecord}
use stacyvm.Store.Leases.{Leases, acquire_lease, release_lease}
use stacyvm.Store.Sandboxes.{Sandboxes, create_sandbox}
use stacyvm.Orchestrator.Events.{EventType}
use stacyvm.Orchestrator.VmPool.{VmPool}
use stacyvm.Orchestrator.Admission.Quota.{
  ManagerError, operation_failed, store_failed, resource_limit, provider_not_found, Result, ok, err,
}
use stacyvm.Store.Leases

-- A sandbox as the manager holds it (types.go).
pub record Sandbox : Type 0 where
  pub id : String
  pub state : String
  pub provider : String
  pub image : String
  pub memory_mb : ℤ
  pub vcpus : ℤ
  pub owner_id : String
  pub tenant_id : String
  pub vm_id : String
  pub worker_id : String
  pub created_at : ℕ
  pub expires_at : ℕ
  pub metadata : Dict String
  pub preview_domain : String

-- What a provider or a worker is asked to do with the files of a runtime.
pub data FileAction : Type 0 where
  write_to : String → String → String → FileAction
  read_from list_in stat_of glob_by : String → FileAction
  delete_at : String → Bool → FileAction
  move_to chmod_at : String → String → FileAction

-- A command as a provider or a worker is given it (providers.ExecOptions).
pub record ExecOptions : Type 0 where
  pub command : String
  pub args : List String
  pub exec_mode : String
  pub env : Dict String
  pub workdir : String

pub data ProviderCall : Type 0 where
  spawned destroyed : String → ProviderCall
  executed removed : String → String → ProviderCall
  remote_spawned : String → String → ProviderCall
  remote_destroyed : String → String → String → ProviderCall
  filed : String → FileAction → ProviderCall
  remote_filed : String → String → String → FileAction → ProviderCall
  ran : String → ExecOptions → ℤ → ProviderCall
  remote_ran : String → String → String → ExecOptions → ℤ → ProviderCall
  logs_read : String → ℤ → ProviderCall
  remote_logs_read : String → String → String → ℤ → ProviderCall
  stats_read : String → ProviderCall

pub record Settings : Type 0 where
  pub worker_id : String
  pub preview_domain : String
  pub default_image : String
  pub default_memory : ℤ
  pub default_vcpus : ℤ
  pub default_ttl : ℤ
  pub providers : List String
  pub default_provider : String

-- A row that CreateExecLog writes: the sandbox, the command, its exit code and what it printed.
pub record ExecLog : Type 0 where
  pub sandbox_id : String
  pub command : String
  pub exit_code : ℤ
  pub stdout : String
  pub stderr : String

pub record World : Type 0 where
  pub sandboxes : Dict Sandbox
  pub records : Sandboxes
  pub leases : Leases
  pub vm_pool : Option VmPool
  pub calls : List ProviderCall
  pub published : List (EventType × String)
  pub audits : List (String × Bool)
  pub notices : ℕ
  pub exec_logs : List ExecLog

abbrev pub state_running : String
state_running = "running"

-- recordToSandbox.
unfoldable pub record_to_sandbox : SandboxRecord → Sandbox
record_to_sandbox rec = record {
  id = rec.id;
  state = rec.state;
  provider = rec.provider;
  image = rec.image;
  memory_mb = rec.memory_mb;
  vcpus = rec.vcpus;
  owner_id = rec.owner_id;
  tenant_id = rec.tenant_id;
  vm_id = rec.vm_id;
  worker_id = rec.worker_id;
  created_at = rec.created_at;
  expires_at = rec.expires_at;
  metadata = rec.metadata;
  preview_domain = "";
}

-- The row that the spawning operations write for a sandbox.
unfoldable pub record_of : String → ℕ → Sandbox → SandboxRecord
record_of tenant now sb = record {
  id = sb.id;
  state = sb.state;
  provider = sb.provider;
  image = sb.image;
  memory_mb = sb.memory_mb;
  vcpus = sb.vcpus;
  metadata = sb.metadata;
  owner_id = sb.owner_id;
  tenant_id = tenant;
  vm_id = sb.vm_id;
  worker_id = sb.worker_id;
  created_at = sb.created_at;
  expires_at = sb.expires_at;
  updated_at = now;
}

unfoldable pub is_remote_owned_sandbox : Settings → Sandbox → Bool
is_remote_owned_sandbox s sb =
    not (is_empty (trim_space sb.worker_id)) && not (str_eq sb.worker_id s.worker_id)

unfoldable pub resolve_vm_id : Sandbox → String
resolve_vm_id sb = if is_empty sb.vm_id then sb.id else sb.vm_id

-- registry.Get (internal/providers/registry.go): the provider's name.
unfoldable pub registered : String → List String → Bool
registered name [] = false
registered name (p ∷ ps) = str_eq p name || registered name ps

unfoldable pub get_provider_named : Settings → String → Result String
unfolding registered
get_provider_named s name =
    let wanted = if is_empty name then s.default_provider else name in
    if is_empty wanted
    then err (operation_failed "no provider specified and no default set")
    else if registered wanted s.providers
    then ok wanted
    else err (provider_not_found wanted)

abbrev pub sandbox_lease_grace : ℕ
sandbox_lease_grace = 300000000000

-- `now.Add(ttl)`; a time before the epoch is the epoch.
unfoldable pub add_ttl : ℕ → ℤ → ℕ
add_ttl now ttl = pos_part (pos now +ℤ ttl)

-- acquireSandboxLeaseFor, `up` telling whether the database answers.
unfoldable pub acquire_sandbox_lease_for :
    Bool → String → String → ℕ → ℕ → World → Result LeaseRecord × World
acquire_sandbox_lease_for up id worker expires now w =
    let left = sub_ℕ (expires + sandbox_lease_grace) now in
    let ttl = if leb_ℤ left (pos 0) then pos sandbox_lease_grace else left in
    if up
    then (let granted = acquire_lease id "sandbox" worker ttl now w.leases in
        (
          elim granted.0 [
            | Leases.Result.ok rec ↦ ok rec
            | Leases.Result.err e ↦ err (operation_failed "acquiring sandbox lease")
          ],
          record w { leases = granted.1 },
        ))
    else (err store_failed, w)

unfoldable pub release_lease_of : String → String → World → World
release_lease_of id worker w = record w { leases = (release_lease id worker w.leases).1 }

unfoldable pub create_row : Bool → SandboxRecord → World → Bool × World
create_row up rec w =
    let created = create_sandbox rec w.records in
    if up
    then (
      elim created.0 [ Leases.Result.ok u ↦ true | Leases.Result.err e ↦ false ],
      record w { records = created.1 },
    )
    else (false, w)

unfoldable pub note_call : ProviderCall → World → World
note_call c w = record w { calls = c ∷ w.calls }

unfoldable pub publish : EventType → String → World → World
publish kind id w = record w { published = (kind, id) ∷ w.published }

unfoldable pub audit : String → Bool → World → World
audit id success w = record w { audits = (id, success) ∷ w.audits }

-- The kind of event that publishFailureForError publishes.
unfoldable pub failure_event : ManagerError → EventType
failure_event (resource_limit text) = EventType.resource_limit
failure_event (provider_not_found name) = EventType.provider_failed
failure_event e = EventType.operation_failed

unfoldable pub cache : Sandbox → World → World
cache sb w = record w { sandboxes = insert sb.id sb w.sandboxes }

unfoldable pub uncache : String → World → World
uncache id w = record w { sandboxes = delete id w.sandboxes }

unfoldable pub notify_spawn_capacity : World → World
notify_spawn_capacity w = record w { notices = w.notices + 1 }
