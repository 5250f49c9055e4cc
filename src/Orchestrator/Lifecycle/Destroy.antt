-- ===== src/Orchestrator/Lifecycle/Destroy.antt =====
-- internal/orchestrator/manager.go: Destroy, for a sandbox of this worker, of the pool and of a remote
-- worker, and the reaper. What the database, the provider and the worker answer is an argument.
pub mod Gone
use stacyvm.Base.{
  ℕ, ◌+◌, String, Bool, true, false, not, none, some, List, [], ◌∷◌, ltb, if◌then◌else◌, str_eq,
  is_empty, trim_space, lookup,
}
use stacyvm.Store.Records.{SandboxRecord, LeaseRecord}
use stacyvm.Store.Sandboxes.{
  update_sandbox_state, delete_sandbox, list_sandboxes, list_expired_sandboxes,
}
use stacyvm.Orchestrator.Events.{EventType}
use stacyvm.Orchestrator.VmPool.{VmPool, release}
use stacyvm.Orchestrator.Admission.Quota.{ManagerError, operation_failed, Result, ok, err}
use stacyvm.Orchestrator.Lifecycle.{
  Sandbox, Settings, World, destroyed, removed, remote_destroyed, is_remote_owned_sandbox,
  get_provider_named, acquire_sandbox_lease_for, release_lease_of, note_call, publish, audit,
  uncache, notify_spawn_capacity,
}
use stacyvm.Orchestrator.Lifecycle.Access.{find_sandbox, get_provider}
use Prim.Native.String

-- Whether the database grants leases and writes the state of a remote sandbox, whether the provider
-- destroys, and whether the worker can be called and destroys.
pub record DestroyAnswers : Type 0 where
  pub lease_up : Bool
  pub state_up : Bool
  pub provider_ok : Bool
  pub client_ok : Bool
  pub remote_ok : Bool

unfoldable pub mark_destroyed : String → ℕ → World → World
mark_destroyed id now w = record w {
  records = (update_sandbox_state id "destroyed" now w.records).1;
}

-- The row, the lease and the cached sandbox of a sandbox that is gone.
unfoldable pub forget : String → String → ℕ → World → World
forget id holder now w = uncache id (release_lease_of id holder (mark_destroyed id now w))

-- The end of each way to destroy: the event, and the signal to the queue.
unfoldable pub conclude : String → World → World
conclude id w = notify_spawn_capacity (publish EventType.sandbox_destroyed id w)

unfoldable pub destroy_remote :
    DestroyAnswers → String → Sandbox → ℕ → World → Result (Unit {0}) × World
destroy_remote a id sb now w =
    let runtime = if is_empty (trim_space sb.vm_id) then id else trim_space sb.vm_id in
    let called = note_call (remote_destroyed sb.worker_id id runtime) w in
    if not a.client_ok
    then (err (operation_failed "remote worker RPC"), w)
    else elim (lookup id w.leases) [
      | none ↦ (err (operation_failed "getting remote sandbox lease"), w)
      | some lease ↦
          if not (str_eq lease.holder_id sb.worker_id)
          then (err (operation_failed "remote sandbox lease holder"), w)
          else if not a.remote_ok
          then (err (operation_failed "remote worker destroy"), called)
          else if not a.state_up
          then (err (operation_failed "updating sandbox state"), called)
          else elim (lookup id called.records) [
            | none ↦ (err (operation_failed "updating sandbox state"), called)
            | some rec ↦ (ok tt, conclude id (forget id sb.worker_id now called))
          ]
    ]

-- The machine of the pool that the last user leaves: it is destroyed, and forgotten.
unfoldable pub drop_vm : Settings → Result String → String → ℕ → World → World
drop_vm s (ok provider) vm_id now w = forget vm_id s.worker_id now (note_call (destroyed vm_id) w)
drop_vm s (err e) vm_id now w = forget vm_id s.worker_id now w

unfoldable pub clean_workspace : Result String → String → String → World → World
clean_workspace (ok provider) vm_id id w =
    note_call (removed vm_id (String.◌++◌ "/workspace/" id)) w
clean_workspace (err e) vm_id id w = w

unfoldable pub destroy_pooled : Settings → String → Sandbox → ℕ → VmPool → World → World
destroy_pooled s id sb now p w =
    let provider = get_provider_named s sb.provider in
    let cleaned = clean_workspace provider sb.vm_id id w in
    let freed = release sb.vm_id p in
    let left = record cleaned { vm_pool = some freed.1 } in
    let emptied = (if freed.0 then drop_vm s provider sb.vm_id now left else left) in
    conclude id (forget id s.worker_id now emptied)

-- Destroy for a sandbox of this worker on its own runtime. Where there is no provider, the sandbox is
-- forgotten with no event.
unfoldable pub destroy_local : Settings → DestroyAnswers → String → ℕ → World → World
destroy_local s a id now w =
    let called = note_call (destroyed id) w in
    let reported =
      (if a.provider_ok then called else publish EventType.provider_failed id called) in
    elim (get_provider s id w) [
      | err e ↦ notify_spawn_capacity (forget id s.worker_id now w)
      | ok provider ↦ conclude id (forget id s.worker_id now reported)
    ]

-- A failure of Destroy is published and audited, and a success is audited.
unfoldable pub audited : String → Result (Unit {0}) × World → Result (Unit {0}) × World
audited id (ok u, w) = (ok u, audit id true w)
audited id (err e, w) = (err e, audit id false (publish EventType.operation_failed id w))

-- Destroy for a sandbox of this worker, under its lease: in the pool, or on its own runtime.
unfoldable pub destroy_owned :
    Settings → DestroyAnswers → String → Sandbox → ℕ → World → Result (Unit {0}) × World
destroy_owned s a id sb now w =
    let leased = acquire_sandbox_lease_for a.lease_up id s.worker_id sb.expires_at now w in
    let alone = destroy_local s a id now leased.1 in
    elim leased.0 [
      | err e ↦ (err e, leased.1)
      | ok lease ↦ elim w.vm_pool [
        | none ↦ (ok tt, alone)
        | some p ↦
            if is_empty sb.vm_id
            then (ok tt, alone)
            else (ok tt, destroy_pooled s id sb now p leased.1)
      ]
    ]

unfoldable pub destroy : Settings → DestroyAnswers → String → ℕ → World → Result (Unit {0}) × World
destroy s a id now w = elim (find_sandbox id w) [
  | none ↦ audited id (ok tt, destroy_local s a id now w)
  | some sb ↦
      if is_remote_owned_sandbox s sb
      then audited id (destroy_remote a id sb now w)
      else audited id (destroy_owned s a id sb now w)
]

-- Prune and pruneExpired destroy the rows that they are given, each with the answers for it.
unfoldable pub destroy_each :
    Settings → (String → DestroyAnswers) → List SandboxRecord → ℕ → World → ℕ × World
destroy_each s answers [] now w = (0, w)
destroy_each s answers (rec ∷ recs) now w =
    let done = destroy s (answers rec.id) rec.id now w in
    let rest = destroy_each s answers recs now done.1 in
    elim done.0 [ ok u ↦ (rest.0 + 1, rest.1) | err e ↦ rest ]

unfoldable pub expired_of : ℕ → List SandboxRecord → List SandboxRecord
expired_of now [] = []
expired_of now (rec ∷ recs) =
    let rest = expired_of now recs in if ltb rec.expires_at now then rec ∷ rest else rest

unfoldable pub prune : Settings → (String → DestroyAnswers) → ℕ → World → ℕ × World
prune s answers now w = destroy_each s answers (expired_of now (list_sandboxes w.records)) now w

unfoldable pub prune_expired : Settings → (String → DestroyAnswers) → ℕ → World → ℕ × World
prune_expired s answers now w = destroy_each s answers (list_expired_sandboxes now w.records) now w
