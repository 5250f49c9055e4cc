-- ===== src/Orchestrator/Lifecycle/Tests.antt =====
-- The manager's operations on a concrete state.
use stacyvm.Base.{
  ◌≡◌, refl, Bool, true, false, none, some, [], ◌∷◌, length, pos, ◌+ℤ◌, trim_space, lookup, insert,
  delete,
}
use stacyvm.Store.Leases.{acquire_lease, release_lease, upsert_lease, new_lease, after, get_lease}
use stacyvm.Orchestrator.VmPool.{
  VmPool, claim, find_slot, finish_acquire, register, new_vm_pool, release,
}
use stacyvm.Orchestrator.Admission.Quota.{absent, ok, normalize_optional_owner_id}
use stacyvm.Orchestrator.Lifecycle.{
  Settings, World, spawned, executed, registered, get_provider_named, add_ttl,
  acquire_sandbox_lease_for, release_lease_of, create_row, note_call, publish, cache, record_of,
}
use stacyvm.Orchestrator.Lifecycle.Request.{
  SpawnRequest, Resolved, resolve_request, resolve_ttl, nonzero_or,
}
use stacyvm.Orchestrator.Lifecycle.Spawn.{
  Answers, new_sandbox, spawn_runtime, spawn_local, settle_pooled, give_back, spawn, spawn_pooled,
  spawn_direct, acquire_vm, pool_request, spawned_vm, publish_failure,
}
use stacyvm.Orchestrator.Lifecycle.Spawn.Outcome.{
  LocalOutcome, RemoteOutcome, spawn_local-all_or_nothing, spawn_remote-outcome,
}
use stacyvm.Orchestrator.Lifecycle.Destroy.{DestroyAnswers}
use stacyvm.Store.Sandboxes.{
  create_sandbox, list_sandboxes, newest_first, insert_by_age, where_rows, is_live, worker_or_local,
}

abbrev settings : Settings
settings = record {
  worker_id = "local";
  preview_domain = "p.example";
  default_image = "alpine";
  default_memory = pos 512;
  default_vcpus = pos 1;
  default_ttl = pos 100;
  providers = "docker" ∷ [];
  default_provider = "docker";
}

abbrev start : World
start = record {
  sandboxes = [];
  records = [];
  leases = [];
  vm_pool = none;
  calls = [];
  published = [];
  audits = [];
  notices = 0;
  exec_logs = [];
}

abbrev resolved : Resolved
resolved = record {
  provider = "docker";
  image = "alpine";
  memory_mb = pos 512;
  vcpus = pos 1;
  ttl = pos 100;
  owner_id = "alice";
  tenant_id = "acme";
  metadata = [];
}

abbrev answers : Bool → Answers
answers up = record {
  order = "vm-1" ∷ [];
  provider_spawn = ok "sb-1";
  vm_lease_up = up;
  vm_create_up = up;
  lease_up = up;
  create_up = up;
  exec_ok = up;
  sandbox_id = "sb-1";
  client_ok = true;
  remote_spawn = some ("docker", "rt-1");
  remote_preview = "";
}

abbrev request : SpawnRequest
request = record {
  image = "";
  provider = "";
  memory_mb = pos 0;
  vcpus = pos 0;
  ttl = absent;
  owner_id = "";
  tenant_id = "acme";
  metadata = [];
}

defaults_filled : resolve_request settings request ≡ ok (record resolved { owner_id = "" })
unfolding resolve_request get_provider_named registered nonzero_or resolve_ttl
    normalize_optional_owner_id trim_space
defaults_filled = refl

spawn_local-all_or_nothing_example : LocalOutcome settings resolved (answers true) 5 start
spawn_local-all_or_nothing_example =
    spawn_local-all_or_nothing settings resolved (answers true) 5 start

spawn_remote-outcome_example : RemoteOutcome settings resolved (answers true) "w-2" 5 start
spawn_remote-outcome_example = spawn_remote-outcome settings resolved (answers true) "w-2" 5 start

-- A pool with one machine, which one sandbox uses.
abbrev pool : VmPool
pool = register "vm-1" "docker" 3 (
    new_vm_pool
      (record { max_vms = 1; max_users_per_vm = 1; image = "alpine"; memory_mb = 512; vcpus = 1 }))

abbrev pooled : World
pooled = record start { vm_pool = some pool }

abbrev destroy_answers : DestroyAnswers
destroy_answers = record {
  lease_up = true;
  state_up = true;
  provider_ok = true;
  client_ok = true;
  remote_ok = true;
}

abbrev running : World
running = (spawn_local settings resolved (answers true) 5 start).1

-- A new machine of the pool on which the workspace cannot be made.
abbrev lost_vm : World
lost_vm =
    (spawn settings resolved (record (answers true) { provider_spawn = ok "vm-9"; exec_ok = false })
      "" 5 (record start { vm_pool = some (new_vm_pool pool.config) })).1

-- It is in the pool no more, its row is live, and it was not destroyed.
vm_is_lost :
    (length (list_sandboxes lost_vm.records) ≡ 1)
    × (lost_vm.vm_pool ≡ some (new_vm_pool pool.config))
    × (lost_vm.calls ≡ executed "vm-9" "mkdir -p /workspace/sb-1" ∷ spawned "vm-9" ∷ [])
unfolding ◌+ℤ◌ claim find_slot register finish_acquire release new_vm_pool spawn spawn_pooled
    acquire_vm spawn_direct pool_request spawned_vm settle_pooled give_back publish_failure cache
    release_lease_of get_provider_named registered list_sandboxes newest_first insert_by_age
    where_rows is_live worker_or_local add_ttl trim_space acquire_sandbox_lease_for acquire_lease
    upsert_lease new_lease after get_lease release_lease spawn_runtime create_row create_sandbox
    publish insert lookup delete note_call new_sandbox record_of nonzero_or
vm_is_lost = (refl, refl, refl)
