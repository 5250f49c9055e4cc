-- ===== src/Orchestrator/Lifecycle/Files/Tests.antt =====
-- File operations of a sandbox that shares the machine `vm-1`.
use stacyvm.Base.{
  String, ◌≡◌, refl, ◌⊎◌, true, false, none, [], ◌∷◌, arith, pos, trim_space, lookup,
}
use stacyvm.Orchestrator.Admission.Quota.{invalid_input, ok, err}
use stacyvm.Orchestrator.Lifecycle.{
  Sandbox, Settings, World, FileAction, filed, write_to, registered, get_provider_named,
  is_remote_owned_sandbox, resolve_vm_id, audit, publish,
}
use stacyvm.Orchestrator.Lifecycle.Access.{find_sandbox, get_sandbox_and_provider}
use stacyvm.Orchestrator.Lifecycle.Paths.{
  cat, split_slash, push, go_up, clean_step, clean_all, join_kept, render, clean, join, has_prefix,
  workspace, is_inside, cleaned_path, scoped_path_for_operation,
}
use stacyvm.Orchestrator.Lifecycle.Files.{write_file, read_file}
use stacyvm.Orchestrator.Lifecycle.Files.Confined.{
  FileAnswers, moving, serve_file, paths_of, AllInWorkspace, NoneInWorkspace, serve_file-apart,
}

abbrev settings : Settings
settings = record {
  worker_id = "local";
  preview_domain = "p.example";
  default_image = "alpine";
  default_memory = pos 512;
  default_vcpus = pos 1;
  default_ttl = pos 100;
  providers = "docker" ∷ [];
  default_provider = "docker";
}

abbrev pooled : String → Sandbox
pooled id = record {
  id = id;
  state = "running";
  provider = "docker";
  image = "alpine";
  memory_mb = pos 512;
  vcpus = pos 1;
  owner_id = "";
  tenant_id = "";
  vm_id = "vm-1";
  worker_id = "local";
  created_at = 0;
  expires_at = 0;
  metadata = [];
  preview_domain = "";
}

abbrev start : World
start = record {
  sandboxes = ("sb-1", pooled "sb-1") ∷ [];
  records = [];
  leases = [];
  vm_pool = none;
  calls = [];
  published = [];
  audits = [];
  notices = 0;
  exec_logs = [];
}

abbrev answers : FileAnswers
answers = record {
  change = ok tt;
  content = ok [];
  readable = true;
  files = ok [];
  info = ok (record { path = ""; size = pos 0; file_mode = ""; is_dir = false; mod_time = "" });
  names = ok [];
}

serve_file-apart_example :
    let w' = serve_file settings true answers "sb-1" (moving "a" "b/../c") start in
    (w'.calls ≡ [])
    ⊎ ((action : FileAction) × (w'.calls ≡ filed "vm-1" action ∷ [])
        × AllInWorkspace (pooled "sb-1") (paths_of action)
        × NoneInWorkspace (pooled "sb-2") (paths_of action))
unfolding get_sandbox_and_provider find_sandbox get_provider_named registered
    is_remote_owned_sandbox trim_space lookup
serve_file-apart_example =
    serve_file-apart settings true (pooled "sb-1") refl refl "sb-1" start refl answers
      (moving "a" "b/../c") (pooled "sb-2") refl refl (λ e. ground (arith, e))

written :
    (write_file settings true "sb-1" "a/../b" "x" "" (ok tt) start).1.calls
    ≡ filed "vm-1" (write_to "/workspace/sb-1/b" "x" "0644") ∷ []
unfolding write_file get_sandbox_and_provider find_sandbox get_provider_named registered
    is_remote_owned_sandbox trim_space lookup scoped_path_for_operation cleaned_path clean join cat
    resolve_vm_id split_slash push go_up clean_all clean_step join_kept render is_inside has_prefix
    workspace audit publish
written = refl

escaping :
    (read_file settings true "sb-1" "../sb-2/a" true (ok []) start).0
    ≡ err (invalid_input "path escapes sandbox workspace")
unfolding read_file get_sandbox_and_provider find_sandbox get_provider_named registered
    is_remote_owned_sandbox trim_space lookup scoped_path_for_operation cleaned_path clean join cat
    split_slash push go_up clean_all clean_step join_kept render is_inside has_prefix workspace
escaping = refl
