-- ===== src/Orchestrator/Reconcile/Told.antt =====
-- What is answered to Reconcile of internal/orchestrator/manager.go.
use stacyvm.Base.{ℕ, String, Bool, Option, List, Dict}
use stacyvm.Store.Records.{WorkerRecord}

-- What Provider.Status answers: a state, that there is no such runtime, or another error.
pub data StatusAnswer : Type 0 where
  in_state : String → StatusAnswer
  no_runtime status_failed : StatusAnswer

-- A runtime that a provider lists; zero values where the provider tells nothing.
pub record RuntimeSandbox : Type 0 where
  pub id : String
  pub state : String
  pub provider : String
  pub image : String
  pub created_at : ℕ
  pub metadata : Dict String

-- What a provider's inventory answers: it has none, it fails, or it lists runtimes.
pub data Inventory : Type 0 where
  no_inventory inventory_failed : Inventory
  runtimes : List RuntimeSandbox → Inventory

-- What is answered to a reconciliation: the row of a worker, the state that a remote worker reports for
-- a sandbox (`none` where the call fails), a provider's status of a runtime, its inventory, and
-- whether the database takes the writes for an id (its row, its lease).
pub record Answers : Type 0 where
  pub worker_row : String → Option WorkerRecord
  pub reported : String → Option String
  pub status : String → String → StatusAnswer
  pub inventory : String → Inventory
  pub row_up : String → Bool
  pub lease_up : String → Bool
