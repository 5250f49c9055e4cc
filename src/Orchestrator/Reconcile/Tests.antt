-- ===== src/Orchestrator/Reconcile/Tests.antt =====
-- A restart with a row that runs, a destroyed row, and a provider that lists a runtime for each and
-- a third one.
use stacyvm.Base.{
  String, ◌≡◌, refl, true, none, [], ◌∷◌, map, pos, ◌+ℤ◌, trim_space, lookup, insert,
}
use stacyvm.Store.Records.{SandboxRecord}
use stacyvm.Store.Sandboxes.{
  list_sandboxes, newest_first, insert_by_age, where_rows, is_live, update_sandbox_state,
  create_sandbox, worker_or_local,
}
use stacyvm.Store.Leases.{acquire_lease, upsert_lease, get_lease}
use stacyvm.Orchestrator.Lifecycle.{
  Settings, World, registered, get_provider_named, publish, cache, add_ttl,
  acquire_sandbox_lease_for,
}
use stacyvm.Orchestrator.Reconcile.{
  set_state_if_new, is_remote_row, reconcile_local, reconcile_record, reconcile,
}
use stacyvm.Orchestrator.Reconcile.Told.{Answers, RuntimeSandbox, in_state, runtimes}
use stacyvm.Orchestrator.Reconcile.Runtimes.{adopt_runtime, adopt_runtimes}
use stacyvm.Orchestrator.Reconcile.Coherent.{Coherent}

abbrev settings : Settings
settings = record {
  worker_id = "local";
  preview_domain = "p.example";
  default_image = "alpine";
  default_memory = pos 512;
  default_vcpus = pos 1;
  default_ttl = pos 100;
  providers = "docker" ∷ [];
  default_provider = "docker";
}

abbrev row : String → String → SandboxRecord
row id state = record {
  id = id;
  state = state;
  provider = "docker";
  image = "alpine";
  memory_mb = pos 512;
  vcpus = pos 1;
  metadata = [];
  owner_id = "";
  tenant_id = "";
  vm_id = "";
  worker_id = "local";
  created_at = 1;
  expires_at = 900;
  updated_at = 1;
}

abbrev start : World
start = record {
  sandboxes = [];
  records = ("sb-1", row "sb-1" "running") ∷ ("sb-2", row "sb-2" "destroyed") ∷ [];
  leases = [];
  vm_pool = none;
  calls = [];
  published = [];
  audits = [];
  notices = 0;
  exec_logs = [];
}

abbrev runtime : String → RuntimeSandbox
runtime id = record {
  id = id;
  state = "running";
  provider = "";
  image = "";
  created_at = 0;
  metadata = [];
}

abbrev answers : Answers
answers = record {
  worker_row = λ id. none;
  reported = λ id. none;
  status = λ provider id. in_state "idle";
  inventory = λ name. runtimes (runtime "sb-1" ∷ runtime "sb-2" ∷ runtime "sb-3" ∷ []);
  row_up = λ id. true;
  lease_up = λ id. true;
}

-- The row that runs is idle after the reconciliation, and the third runtime is adopted.
reconciled :
    map {B = String × String}
      (λ p. (p.0, p.1.state))
      (reconcile settings answers 500 start).1.records
    ≡ ("sb-1", "idle") ∷ ("sb-2", "destroyed") ∷ ("sb-3", "running") ∷ []
unfolding reconcile reconcile_local is_remote_row list_sandboxes newest_first insert_by_age
    where_rows is_live set_state_if_new get_provider_named registered trim_space
    update_sandbox_state insert lookup publish adopt_runtime create_sandbox worker_or_local
    acquire_sandbox_lease_for acquire_lease upsert_lease get_lease add_ttl ◌+ℤ◌ reconcile_record
    adopt_runtimes cache
reconciled = refl
