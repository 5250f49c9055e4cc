-- ===== src/Orchestrator/Lifecycle/Exec/Accounted.antt =====
-- What Exec does to the state, and under which deadline a command runs (manager.go).
use stacyvm.Base.{String, ◌≡◌, ◌∷◌, ℤ, Dict}
use stacyvm.Store.Records.{OwnerQuotaRecord}
use stacyvm.Orchestrator.Admission.Quota.{OperationalLimits, Result, ok}
use stacyvm.Orchestrator.Lifecycle.{Sandbox, Settings, World}
use stacyvm.Orchestrator.Lifecycle.Access.{get_sandbox_and_provider}
use stacyvm.Orchestrator.Lifecycle.Exec.{ExecRequest, exec_options, Outcome}
use stacyvm.Orchestrator.Lifecycle.Exec.Steps.{exec_call, Bounded, Reported}

-- A command was run: for a sandbox that is there, in its options, under a good timeout.
abbrev pub Ran :
    Settings
    → OperationalLimits
    → Dict OwnerQuotaRecord
    → String
    → ExecRequest
    → World
    → Result Outcome × World
    → Type 0
Ran s limits quotas id req w r =
    (sb : Sandbox) × (t : ℤ) × ((provider : String) × (get_sandbox_and_provider s id w
        ≡ ok (sb, provider)))
    × Bounded limits quotas req.timeout sb.owner_id t
    × (r.1.calls ≡ exec_call s sb (exec_options s sb id req) t ∷ w.calls)
    × Reported id req w r
