-- ===== src/Orchestrator/Placement.antt =====
-- internal/orchestrator/scheduler.go: which worker a new sandbox is placed on. The manager's own
-- worker id, the clock and the rows of the store are arguments.
mod Counts
mod Loop
mod Choice
mod Tests
use stacyvm.Base.{
  ℕ, ◌+◌, String, Bool, true, false, not, ◌&&◌, ◌||◌, Option, none, some, List, [], ◌∷◌, ltb,
  if◌then◌else◌, ℤ, pos, leb_ℤ, is_pos, str_eq, is_empty, trim_space, equal_fold, Dict, lookup,
  insert,
}
use stacyvm.Store.Records.{SandboxRecord, WorkerRecord, WorkerCapacity}

-- Two minutes, in nanoseconds.
abbrev pub worker_heartbeat_stale_after : ℕ
worker_heartbeat_stale_after = 120000000000

abbrev pub state_destroyed : String
state_destroyed = "destroyed"

abbrev pub state_expired : String
state_expired = "expired"

-- The reasons of a placement; `no_reason` stands for the empty text.
pub data PlacementReason : Type 0 where
  no_reason local_fallback no_eligible_worker remote_worker_selected : PlacementReason

pub record WorkerPlacement : Type 0 where
  pub selected_id : String
  pub eligible : ℕ
  pub reason : PlacementReason

-- The worker that a sandbox counts for; a blank one is the manager's own.
pub sandbox_worker : String → SandboxRecord → String
sandbox_worker own sb =
    let worker_id = trim_space sb.worker_id in if is_empty worker_id then own else worker_id

pub holds_place : SandboxRecord → Bool
holds_place sb = not (str_eq sb.state state_destroyed || str_eq sb.state state_expired)

-- m[k]++ on a map of counters.
pub bump : String → Dict ℕ → Dict ℕ
bump k m = insert k (elim (lookup k m) [ none ↦ 1 | some n ↦ n + 1 ]) m

pub active_by_worker : String → Dict ℕ → List SandboxRecord → Dict ℕ
unfolding sandbox_worker holds_place bump
active_by_worker own counts [] = counts
active_by_worker own counts (sb ∷ sandboxes) =
    active_by_worker own (if holds_place sb then bump (sandbox_worker own sb) counts else counts)
      sandboxes

-- A read of a map of counters: 0 where the key is missing.
pub count_at : String → Dict ℕ → ℕ
count_at k m = elim (lookup k m) [ none ↦ 0 | some n ↦ n ]

pub any_provider : String → List String → Bool
any_provider provider [] = false
any_provider provider (name ∷ names) =
    equal_fold (trim_space name) provider || any_provider provider names

pub worker_supports_provider : WorkerRecord → String → Bool
unfolding any_provider
worker_supports_provider worker provider = elim worker.providers [
  | none ↦ false
  | some [] ↦ true
  | some (name ∷ names) ↦ any_provider provider (name ∷ names)
]

pub worker_max_sandboxes : WorkerRecord → ℤ
worker_max_sandboxes worker = worker.capacity.max_sandboxes

pub worker_rpc_url : WorkerRecord → String
worker_rpc_url worker = trim_space worker.capacity.rpc_url

pub worker_preview_domain : WorkerRecord → String
worker_preview_domain worker = trim_space worker.capacity.preview_domain

-- The guards of the loop: the worker passes all of them.
unfoldable pub is_eligible : ℕ → String → Dict ℕ → WorkerRecord → Bool
unfolding worker_supports_provider worker_max_sandboxes count_at
is_eligible now provider counts worker =
    let worker_id = trim_space worker.id in
    let cap = worker_max_sandboxes worker in
    not (is_empty worker_id || not (equal_fold worker.status "online"))
    && not (ltb (worker.last_heartbeat + worker_heartbeat_stale_after) now)
    && not (not (is_empty provider) && not (worker_supports_provider worker provider))
    && not (is_pos cap && leb_ℤ cap (pos (count_at worker_id counts)))

-- The variables of the loop.
pub record Best : Type 0 where
  pub best_id : String
  pub best_count : ℕ
  pub eligible : ℕ

-- The body of the loop for an eligible worker.
pub consider : String → Dict ℕ → String → Best → Best
unfolding count_at
consider own counts worker_id best =
    if str_eq worker_id own
      || (is_empty best.best_id || ltb (count_at worker_id counts) best.best_count)
    then record {
      best_id = worker_id;
      best_count = count_at worker_id counts;
      eligible = best.eligible + 1;
    }
    else record best { eligible = best.eligible + 1 }

pub best_worker : String → ℕ → String → Dict ℕ → Best → List WorkerRecord → Best
unfolding is_eligible consider
best_worker own now provider counts best [] = best
best_worker own now provider counts best (worker ∷ workers) =
    best_worker own now provider counts
      (if is_eligible now provider counts worker
        then consider own counts (trim_space worker.id) best
        else best)
      workers

abbrev pub no_best : Best
no_best = record { best_id = ""; best_count = 0; eligible = 0 }

pub chosen : Best → WorkerPlacement
chosen best =
    if is_empty best.best_id
    then record { selected_id = ""; eligible = 0; reason = no_eligible_worker }
    else record { selected_id = best.best_id; eligible = best.eligible; reason = no_reason }

abbrev pub local_placement : String → WorkerPlacement
local_placement own = record { selected_id = own; eligible = 1; reason = local_fallback }

-- `workers` is `none` where the store fails to list them.
unfoldable pub evaluate_worker_placement :
    String → ℕ → String → Option (List WorkerRecord) → List SandboxRecord → WorkerPlacement
unfolding active_by_worker best_worker chosen
evaluate_worker_placement own now provider none sandboxes = local_placement own
evaluate_worker_placement own now provider (some []) sandboxes = local_placement own
evaluate_worker_placement own now provider (some (worker ∷ workers)) sandboxes =
    chosen
      (best_worker own now provider (active_by_worker own [] sandboxes) no_best (worker ∷ workers))
