-- ===== src/Orchestrator/Placement/Tests.antt =====
-- Runs of the scheduler, and the theorems about it at concrete inputs.
use stacyvm.Base.{
  ◌≤◌, ◌<◌, String, ◌≡◌, refl, ◌⊎◌, inl, some, List, [], ◌∷◌, arith, eq_iff, ◌==◌, pos, is_empty,
  trim_space, equal_fold, lookup, insert,
}
use stacyvm.Store.Records.{SandboxRecord, WorkerRecord}
use stacyvm.Orchestrator.Placement.{is_eligible, active_by_worker, evaluate_worker_placement}
use stacyvm.Orchestrator.Placement.Counts.{load}
use stacyvm.Orchestrator.Placement.Loop.{count_eligible}
use stacyvm.Orchestrator.Placement.Choice.{selected_own_or_less, selected_least, placement-eligible}

abbrev worker : String → WorkerRecord
worker id = record {
  id = id;
  hostname = id;
  status = "Online";
  providers = some ("docker" ∷ []);
  capacity = record { max_sandboxes = pos 2; rpc_url = "http://w"; preview_domain = "" };
  last_heartbeat = 1000;
}

abbrev sandbox : String → String → SandboxRecord
sandbox id worker_id = record {
  id = id;
  state = "running";
  provider = "docker";
  image = "alpine";
  memory_mb = pos 512;
  vcpus = pos 1;
  metadata = [];
  owner_id = "";
  tenant_id = "";
  vm_id = "";
  worker_id = worker_id;
  created_at = 1;
  expires_at = 2;
  updated_at = 1;
}

abbrev busy : List SandboxRecord
busy = sandbox "sb-1" "" ∷ []

abbrev two : List WorkerRecord
two = worker "b" ∷ []

placed :
    (evaluate_worker_placement "a" 1500 "Docker" (some (worker "a" ∷ two)) busy).selected_id ≡ "b"
unfolding evaluate_worker_placement is_eligible equal_fold trim_space lookup insert
placed = refl

-- With the same load and the workers the other way round the own worker is placed on: the
-- preference for it depends on the order of the ids.
placed_in_other_order :
    (evaluate_worker_placement "c" 1500 "docker"
      (some (worker "b" ∷ worker "c" ∷ []))
      (sandbox "sb-1" "c" ∷ [])).selected_id
    ≡ "c"
unfolding evaluate_worker_placement is_eligible equal_fold trim_space lookup insert
placed_in_other_order = refl

selected_own_or_less_instance : (◌≡◌ {A = String} "b" "a") ⊎ (load "a" busy "b" < load "a" busy "a")
unfolding evaluate_worker_placement is_eligible equal_fold trim_space lookup insert
selected_own_or_less_instance =
    selected_own_or_less "a" 1500 "docker" (worker "a") two busy (inl (refl, refl))

selected_least_example : load "z" busy "b" ≤ load "z" busy "b"
unfolding evaluate_worker_placement is_eligible equal_fold trim_space lookup insert
selected_least_example =
    selected_least "z" 1500 "docker" (worker "b") [] busy "b" (ground (arith, eq_iff "b" "z"), tt)
      (inl (refl, refl))

eligible_counted :
    let placement = evaluate_worker_placement "a" 1500 "docker" (some (worker "a" ∷ two)) busy in
    (placement.eligible
      ≡ count_eligible "a" 1500 "docker" (active_by_worker "a" [] busy) (worker "a" ∷ two))
    × (is_empty placement.selected_id ≡ (placement.eligible == 0))
eligible_counted = placement-eligible "a" 1500 "docker" (worker "a") two busy
