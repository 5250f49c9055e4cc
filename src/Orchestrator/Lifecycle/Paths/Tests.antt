-- ===== src/Orchestrator/Lifecycle/Paths/Tests.antt =====
-- Paths of a pooled sandbox.
use stacyvm.Base.{◌≡◌, refl, ◌⊎◌, true, [], ◌∷◌, pos, trim_space}
use stacyvm.Orchestrator.Lifecycle.{Sandbox, Settings, is_remote_owned_sandbox}
use stacyvm.Orchestrator.Lifecycle.Paths.{
  cat, split_slash, push, go_up, clean_step, clean_all, join_kept, render, clean, join, has_prefix,
  workspace, is_inside, cleaned_path, scoped_path, scoped_path_for_operation,
}
use stacyvm.Orchestrator.Lifecycle.Paths.Scoped.{Absolute, scoped_path_for_operation-inside}

abbrev settings : Settings
settings = record {
  worker_id = "local";
  preview_domain = "";
  default_image = "alpine";
  default_memory = pos 512;
  default_vcpus = pos 1;
  default_ttl = pos 100;
  providers = "docker" ∷ [];
  default_provider = "docker";
}

abbrev pooled_sandbox : Sandbox
pooled_sandbox = record {
  id = "sb-1";
  state = "running";
  provider = "docker";
  image = "alpine";
  memory_mb = pos 512;
  vcpus = pos 1;
  owner_id = "alice";
  tenant_id = "";
  vm_id = "vm-1";
  worker_id = "local";
  created_at = 5;
  expires_at = 100;
  metadata = [];
  preview_domain = "";
}

path_escapes : scoped_path settings pooled_sandbox "../sb-2/x" ≡ "/workspace/sb-1"
unfolding scoped_path is_remote_owned_sandbox is_inside workspace cleaned_path join clean cat
    split_slash push clean_all clean_step go_up join_kept render has_prefix trim_space
path_escapes = refl

scoped_path_for_operation-inside_instance :
    Absolute "/workspace/sb-1/b.txt"
    × (("/workspace/sb-1/b.txt" ≡ workspace pooled_sandbox)
        ⊎ (has_prefix "/workspace/sb-1/b.txt" (cat (workspace pooled_sandbox) "/") ≡ true))
unfolding scoped_path_for_operation is_remote_owned_sandbox is_inside workspace cleaned_path join
    clean cat split_slash push clean_all clean_step go_up join_kept render has_prefix trim_space
scoped_path_for_operation-inside_instance =
    scoped_path_for_operation-inside settings pooled_sandbox "a/../b.txt" "/workspace/sb-1/b.txt"
      refl refl refl
