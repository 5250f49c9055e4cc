-- ===== src/Orchestrator/Lifecycle/Spawn/Cleanup.antt =====
-- What a spawn leaves behind, where it succeeds and where it fails (manager.go).
use stacyvm.Base.{
  ℕ, String, ◌≡◌, refl, sym, ap, ◌∙◌, ◌⊎◌, inl, inr, Bool, true, false, none, ◌∷◌, Option-cases,
  lookup, insert,
}
use stacyvm.Store.Records.{SandboxRecord}
use stacyvm.Store.Sandboxes.{create_sandbox, worker_or_local}
use stacyvm.Orchestrator.Admission.Quota.{ManagerError, Result, ok, err}
use stacyvm.Orchestrator.Lifecycle.{
  Sandbox, Settings, World, spawned, destroyed, record_of, add_ttl, acquire_sandbox_lease_for,
  release_lease_of, create_row, note_call,
}
use stacyvm.Orchestrator.Lifecycle.Leasing.{acquire-SameButLeases, Result-cases}
use stacyvm.Orchestrator.Lifecycle.Request.{Resolved}
use stacyvm.Orchestrator.Lifecycle.Spawn.{new_sandbox, spawn_runtime}

-- The row as it is written: its worker is "local" where none is given.
abbrev pub written : SandboxRecord → SandboxRecord
written rec = record rec { worker_id = worker_or_local rec.worker_id }

-- A row that is not written leaves everything as it was; one that is was not there before.
pub create_row-cases :
    (up : Bool) (rec : SandboxRecord) (w : World)
    → (create_row up rec w ≡ (false, w))
      ⊎ ((lookup rec.id w.records ≡ none)
          × (create_row up rec w
              ≡ (true, record w { records = insert rec.id (written rec) w.records })))
unfolding create_row create_sandbox
create_row-cases false rec w = inl refl
create_row-cases true rec w = elim (Option-cases (lookup rec.id w.records)) [
  | inl missing ↦ inr (missing, rw (create_sandbox, missing) refl)
  | inr (old, found) ↦ inl (rw (create_sandbox, found) refl)
]

-- What spawn_runtime does: it fails, leaves the rows and the cache, and destroys what it spawned; or
-- it makes a sandbox, with a row that was not there, and a call that spawns it.
pub data Runtime (w : World) (make : String → Sandbox) (tenant : String) (now : ℕ)
    (r : Result Sandbox × World) : Type 0 where
  failed :
      (e : ManagerError)
      → r.0 ≡ err e
      → r.1.sandboxes ≡ w.sandboxes
      → r.1.records ≡ w.records
      → (r.1.calls ≡ w.calls) ⊎ ((id : String) × (r.1.calls ≡ destroyed id ∷ spawned id ∷ w.calls))
      → Runtime w make tenant now r
  made :
      (id : String)
      → r.0 ≡ ok (make id)
      → r.1.sandboxes ≡ w.sandboxes
      → lookup id w.records ≡ none
      → r.1.records ≡ insert id (written (record_of tenant now (make id))) w.records
      → r.1.calls ≡ spawned id ∷ w.calls
      → Runtime w make tenant now r

pub spawn_runtime-Runtime :
    (s : Settings) (r : Resolved) (tenant : String) (answer : Result String)
    (lease_up create_up : Bool) (now : ℕ) (w : World)
    → Runtime w
        (λ id. new_sandbox r id tenant "" s.worker_id r.provider now s.preview_domain)
        tenant
        now
        (spawn_runtime s r tenant answer lease_up create_up now w)
unfolding spawn_runtime note_call new_sandbox release_lease_of record_of
spawn_runtime-Runtime s r tenant (err e) lease_up create_up now w =
    failed e refl refl refl (inl refl)
spawn_runtime-Runtime s r tenant (ok id) lease_up create_up now w =
    let expires = add_ttl now r.ttl in
    let start = record w { calls = spawned id ∷ w.calls } in
    let leased = acquire_sandbox_lease_for lease_up id s.worker_id expires now start in
    let same = acquire-SameButLeases lease_up id s.worker_id expires now start in
    let sb = new_sandbox r id tenant "" s.worker_id r.provider now s.preview_domain in
    elim (Result-cases leased.0) [
      | inl (e, denied) ↦
          rw (spawn_runtime, denied)
            (failed e refl same.sandboxes same.records
              (inr (id, ap (λ cs. destroyed id ∷ cs) same.calls)))
      | inr (lease, granted) ↦
          elim (create_row-cases create_up (record_of tenant now sb) leased.1) [
            | inl lost ↦
                rw (spawn_runtime, granted, lost)
                  (failed _ refl same.sandboxes same.records
                    (inr (id, ap (λ cs. destroyed id ∷ cs) same.calls)))
            | inr (fresh, kept) ↦
                rw (spawn_runtime, granted, kept)
                  (made id refl same.sandboxes (ap (lookup id) (sym same.records) ∙ fresh)
                    (ap (insert id _) same.records) same.calls)
          ]
    ]
