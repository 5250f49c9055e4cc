-- ===== src/Orchestrator/Lifecycle/Exec/Tests.antt =====
-- A command in a sandbox that shares the machine `vm-1`.
use stacyvm.Base.{String, ◌≡◌, refl, true, none, [], ◌∷◌, pos, trim_space, lookup}
use stacyvm.Orchestrator.Admission.Quota.{
  OperationalLimits, parsed, resolve_exec_timeout, owner_max_exec_timeout, check_exec_timeout,
  quota_of,
}
use stacyvm.Orchestrator.Lifecycle.{
  Sandbox, Settings, World, ran, registered, get_provider_named, is_remote_owned_sandbox,
  resolve_vm_id, note_call, audit, publish,
}
use stacyvm.Orchestrator.Lifecycle.Access.{find_sandbox, get_sandbox_and_provider}
use stacyvm.Orchestrator.Lifecycle.Paths.{cat}
use stacyvm.Orchestrator.Lifecycle.Exec.{ExecRequest, finished, admit_exec, exec}

abbrev settings : Settings
settings = record {
  worker_id = "local";
  preview_domain = "p.example";
  default_image = "alpine";
  default_memory = pos 512;
  default_vcpus = pos 1;
  default_ttl = pos 100;
  providers = "docker" ∷ [];
  default_provider = "docker";
}

abbrev pooled : String → Sandbox
pooled id = record {
  id = id;
  state = "running";
  provider = "docker";
  image = "alpine";
  memory_mb = pos 512;
  vcpus = pos 1;
  owner_id = "";
  tenant_id = "";
  vm_id = "vm-1";
  worker_id = "local";
  created_at = 0;
  expires_at = 0;
  metadata = [];
  preview_domain = "";
}

abbrev start : World
start = record {
  sandboxes = ("sb-1", pooled "sb-1") ∷ [];
  records = [];
  leases = [];
  vm_pool = none;
  calls = [];
  published = [];
  audits = [];
  notices = 0;
  exec_logs = [];
}

abbrev limits : OperationalLimits
limits = record {
  max_sandboxes = pos 2;
  max_sandboxes_per_owner = pos 1;
  default_exec_timeout = pos 10;
  max_exec_timeout = pos 20;
  max_ttl = pos 100;
  spawn_overflow = "queue";
  spawn_queue_timeout = pos 30;
  max_spawn_queue = pos 2;
}

abbrev request : ExecRequest
request = record {
  command = "ls";
  args = [];
  exec_mode = "shell";
  env = [];
  workdir = "";
  timeout = parsed (pos 20);
}

-- The command runs on the machine, in the sandbox's workspace.
exec_pooled :
    (exec settings limits [] true "sb-1" request (finished (pos 0, "x", "")) start).1.calls
    ≡ ran "vm-1"
        (record {
          command = "ls";
          args = [];
          exec_mode = "shell";
          env = [];
          workdir = "/workspace/sb-1";
        })
        (pos 20)
      ∷ []
unfolding exec admit_exec get_sandbox_and_provider find_sandbox get_provider_named registered
    is_remote_owned_sandbox trim_space lookup resolve_exec_timeout owner_max_exec_timeout
    check_exec_timeout quota_of resolve_vm_id note_call audit publish cat
exec_pooled = refl
