-- ===== src/Orchestrator/Admission/Decision/Tests.antt =====
-- Runs of the admission decision, and the theorems about it at concrete inputs.
use stacyvm.Base.{String, ◌≡◌, refl, ◌⊎◌, true, false, some, List, [], ◌∷◌, pos, lookup}
use stacyvm.Store.Records.{SandboxRecord}
use stacyvm.Orchestrator.Placement.{evaluate_worker_placement}
use stacyvm.Orchestrator.Admission.Quota.{owner_limit_overrides}
use stacyvm.Orchestrator.Admission.Decision.{
  Env, SpawnAdmissionDecision, evaluate_spawn_admission, count_active, count_owned, fresh_decision,
  check_placement,
}
use stacyvm.Orchestrator.Admission.Decision.Laws.{
  Admissible, Reached, allowed_sound, allowed_complete, queueable_only_full,
}

abbrev sandbox : String → SandboxRecord
sandbox owner = record {
  id = "sb-1";
  state = "running";
  provider = "docker";
  image = "alpine";
  memory_mb = pos 512;
  vcpus = pos 1;
  metadata = [];
  owner_id = owner;
  tenant_id = "";
  vm_id = "";
  worker_id = "local";
  created_at = 1;
  expires_at = 2;
  updated_at = 1;
}

abbrev env : List SandboxRecord → Env
env records = record {
  own = "local";
  worker_token = "";
  worker_signing_key = "";
  default_ttl = pos 10;
  limits = record {
    max_sandboxes = pos 2;
    max_sandboxes_per_owner = pos 1;
    default_exec_timeout = pos 10;
    max_exec_timeout = pos 20;
    max_ttl = pos 100;
    spawn_overflow = "queue";
    spawn_queue_timeout = pos 30;
    max_spawn_queue = pos 2;
  };
  quotas = [];
  workers = some [];
  sandboxes = some records;
}

-- What is decided for a request by an owner who has no sandbox, and for one by an owner at the limit.
abbrev decision : String → SpawnAdmissionDecision
decision owner =
    check_placement (env (sandbox "alice" ∷ [])) owner
      (evaluate_worker_placement "local" 5 "docker" (some []) (sandbox "alice" ∷ []))
      (sandbox "alice" ∷ []) (fresh_decision (env (sandbox "alice" ∷ [])) owner)

allowed_sound_example :
    Admissible
      (env (sandbox "alice" ∷ []))
      "bob"
      (pos 50)
      (evaluate_worker_placement "local" 5 "docker" (some []) (sandbox "alice" ∷ []))
      (sandbox "alice" ∷ [])
unfolding evaluate_spawn_admission fresh_decision check_placement owner_limit_overrides lookup
    evaluate_worker_placement
allowed_sound_example =
    allowed_sound (env (sandbox "alice" ∷ [])) 5 "bob" (pos 50) "docker" (sandbox "alice" ∷ []) refl
      (decision "bob") refl refl

allowed_complete_example : (decision "bob").allowed ≡ true
unfolding evaluate_spawn_admission fresh_decision check_placement owner_limit_overrides lookup
    evaluate_worker_placement
allowed_complete_example =
    allowed_complete (env (sandbox "alice" ∷ [])) 5 "bob" (pos 50) "docker" (sandbox "alice" ∷ [])
      refl (decision "bob") allowed_sound_example refl

queueable_only_full_instance :
    ((decision "alice").allowed ≡ false)
    × (Reached (count_active (sandbox "alice" ∷ [])) (pos 2)
        ⊎ Reached
            (count_owned "alice" (sandbox "alice" ∷ []))
            (owner_limit_overrides (env (sandbox "alice" ∷ [])).limits [] "alice").1)
unfolding evaluate_spawn_admission fresh_decision check_placement owner_limit_overrides lookup
    evaluate_worker_placement
queueable_only_full_instance =
    queueable_only_full (env (sandbox "alice" ∷ [])) 5 "alice" (pos 50) "docker"
      (sandbox "alice" ∷ []) refl (decision "alice") refl refl
