-- ===== src/Orchestrator/Lifecycle/Destroy/Gone.antt =====
-- What Destroy leaves (manager.go): nothing of a sandbox that it reports destroyed, and everything
-- where it fails.
use stacyvm.Base.{
  ℕ, String, ◌≡◌, refl, sym, ap, ◌⊎◌, inl, inr, Option, none, some, eq_refl, Option-cases, Dict,
  lookup, lookup-insert, lookup-delete,
}
use stacyvm.Store.Records.{SandboxRecord}
use stacyvm.Store.Sandboxes.{update_sandbox_state}
use stacyvm.Orchestrator.Admission.Quota.{ManagerError, Result, ok, err}
use stacyvm.Orchestrator.Lifecycle.{World, release_lease_of, uncache}
use stacyvm.Orchestrator.Lifecycle.Destroy.{mark_destroyed, forget}

-- No cached sandbox, and no row but a destroyed one.
pub record Gone (id : String) (w : World) : Type 0 where
  pub uncached : lookup id w.sandboxes ≡ none
  pub dead : (rec : SandboxRecord) → lookup id w.records ≡ some rec → rec.state ≡ "destroyed"

state_at : Option SandboxRecord → String
state_at none = "destroyed"
state_at (some rec) = rec.state

mark-dead :
    (id : String) (now : ℕ) (rows : Dict SandboxRecord) (rec : SandboxRecord)
    → lookup id (update_sandbox_state id "destroyed" now rows).1 ≡ some rec
    → rec.state ≡ "destroyed"
unfolding state_at update_sandbox_state lookup
mark-dead id now rows rec e = elim (Option-cases (lookup id rows)) [
  | inl missing ↦ ap state_at (sym (rw (update_sandbox_state, missing, missing) at e))
  | inr (old, found) ↦
      sym (ap state_at (rw (update_sandbox_state, found, lookup-insert, eq_refl) at e))
]

pub forget-Gone : (id holder : String) (now : ℕ) (w : World) → Gone id (forget id holder now w)
unfolding forget uncache release_lease_of mark_destroyed update_sandbox_state
forget-Gone id holder now w = record {
  uncached = rw (lookup-delete, eq_refl) refl;
  dead = λ rec e. mark-dead id now w.records rec e;
}

-- What an operation that fails keeps, so that it can be tried again.
pub record Kept (w u : World) : Type 0 where
  pub sandboxes : u.sandboxes ≡ w.sandboxes
  pub records : u.records ≡ w.records
  pub vm_pool : u.vm_pool ≡ w.vm_pool

-- The two ways that Destroy ends.
pub Ended : String → World → Result (Unit {0}) × World → Type 0
Ended id w r = ((r.0 ≡ ok tt) × Gone id r.1) ⊎ (((e : ManagerError) × (r.0 ≡ err e)) × Kept w r.1)

done : Result (Unit {0})
done = ok tt
