-- ===== src/Orchestrator/Lifecycle/Leasing.antt =====
-- What asking for a sandbox's lease leaves as it was (manager.go, acquireSandboxLeaseFor).
use stacyvm.Base.{ℕ, String, ◌≡◌, refl, ◌⊎◌, inl, inr, Bool, true, false}
use stacyvm.Orchestrator.Admission.Quota.{ManagerError, Result, ok, err}
use stacyvm.Orchestrator.Lifecycle.{World, acquire_sandbox_lease_for}

-- Everything but the leases.
pub record SameButLeases (w u : World) : Type 0 where
  pub sandboxes : u.sandboxes ≡ w.sandboxes
  pub records : u.records ≡ w.records
  pub vm_pool : u.vm_pool ≡ w.vm_pool
  pub calls : u.calls ≡ w.calls

pub acquire-SameButLeases :
    (up : Bool) (id worker : String) (expires now : ℕ) (w : World)
    → SameButLeases w (acquire_sandbox_lease_for up id worker expires now w).1
unfolding acquire_sandbox_lease_for
acquire-SameButLeases true id worker expires now w = record {
  sandboxes = refl;
  records = refl;
  vm_pool = refl;
  calls = refl;
}
acquire-SameButLeases false id worker expires now w = record {
  sandboxes = refl;
  records = refl;
  vm_pool = refl;
  calls = refl;
}

pub Result-cases :
    {A : Type 0} → (r : Result A) → ((e : ManagerError) × (r ≡ err e)) ⊎ ((a : A) × (r ≡ ok a))
Result-cases (ok a) = inr (a, refl)
Result-cases (err e) = inl (e, refl)
