-- ===== src/Orchestrator/Reconcile/Adoption.antt =====
-- A runtime that a reconciliation finds but does not adopt (manager.go, reconcileProviderRuntimes).
use stacyvm.Base.{String, ◌≡◌, insert}
use stacyvm.Store.Records.{LeaseRecord}
use stacyvm.Store.Leases
use stacyvm.Orchestrator.Admission.Quota.{Result, ok}
use stacyvm.Orchestrator.Lifecycle.{World}

-- What acquireSandboxLeaseFor leaves where it is granted a lease on a resource that had none.
record Granted (id worker : String) (w : World) (r : Result LeaseRecord × World) : Type 0 where
  lease : LeaseRecord
  granted : r.0 ≡ ok lease
  holder : lease.holder_id ≡ worker
  leases : r.1.leases ≡ insert id lease w.leases
