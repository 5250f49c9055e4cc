-- ===== src/Orchestrator/Lifecycle/Spawn/Outcome.antt =====
-- All or nothing: the outcomes of spawning on this worker, in a pool and on a remote worker
-- (manager.go, Spawn, spawnPooled, spawnRemote).
use stacyvm.Base.{
  ℕ, String, ◌≡◌, refl, sym, ap, ◌∙◌, ◌⊎◌, inl, inr, not, none, some, List, ◌∷◌, eq_refl,
  if◌then◌else◌, Bool-cases, Option-cases, is_empty, Dict, lookup, insert, lookup-insert,
}
use Prim.Native.String
use stacyvm.Store.Sandboxes.{worker_or_local}
use stacyvm.Orchestrator.VmPool.{VmPool}
use stacyvm.Orchestrator.Admission.Quota.{ManagerError, Result, ok, err}
use stacyvm.Orchestrator.Lifecycle.{
  Sandbox, Settings, World, ProviderCall, spawned, destroyed, remote_spawned, state_running,
  record_of, add_ttl, acquire_sandbox_lease_for, release_lease_of, note_call, publish, audit, cache,
}
use stacyvm.Orchestrator.Lifecycle.Request.{Resolved}
use stacyvm.Orchestrator.Lifecycle.Spawn.{
  Answers, new_sandbox, announce, spawn_runtime, spawn_local, local_failure, spawn_remote,
}
use stacyvm.Orchestrator.Lifecycle.Leasing.{SameButLeases, acquire-SameButLeases, Result-cases}
use stacyvm.Orchestrator.Lifecycle.Spawn.Cleanup.{
  written, create_row-cases, failed, made, spawn_runtime-Runtime,
}

lookup-insert_here {ℓ} :
    {V : Type ℓ} (k : String) (v : V) (m : Dict V) → lookup k (insert k v m) ≡ some v
lookup-insert_here k v m = rw (lookup-insert, eq_refl) refl

moved :
    {cs ds es : List ProviderCall}
    → ds ≡ cs
    → (cs ≡ es) ⊎ ((id : String) × (cs ≡ destroyed id ∷ spawned id ∷ es))
    → (ds ≡ es) ⊎ ((id : String) × (ds ≡ destroyed id ∷ spawned id ∷ es))
moved e (inl same) = inl (e ∙ same)
moved e (inr (id, undone)) = inr (id, e ∙ undone)

local_failure-Same :
    (answer : Result String) (e : ManagerError) (w : World)
    → SameButLeases w (local_failure answer e w)
unfolding local_failure publish
local_failure-Same (ok id) e w = record {
  sandboxes = refl;
  records = refl;
  vm_pool = refl;
  calls = refl;
}
local_failure-Same (err e') e w = record {
  sandboxes = refl;
  records = refl;
  vm_pool = refl;
  calls = refl;
}

-- The outcome of a spawn on this worker: all undone, or all done.
pub LocalOutcome : Settings → Resolved → Answers → ℕ → World → Type 0
LocalOutcome s r a now w =
    let out = spawn_local s r a now w in
    (((e : ManagerError) × (out.0 ≡ err e))
      × (out.1.sandboxes ≡ w.sandboxes)
      × (out.1.records ≡ w.records)
      × ((out.1.calls ≡ w.calls)
          ⊎ ((id : String) × (out.1.calls ≡ destroyed id ∷ spawned id ∷ w.calls))))
    ⊎ ((sb : Sandbox) × (out.0 ≡ ok sb)
        × (sb.state ≡ state_running)
        × (lookup sb.id w.records ≡ none)
        × (lookup sb.id out.1.records ≡ some (written (record_of r.tenant_id now sb)))
        × (lookup sb.id out.1.sandboxes ≡ some sb)
        × (out.1.calls ≡ spawned sb.id ∷ w.calls))

-- A spawn on this worker is all or nothing. Where it fails, the cache and the rows are as before, and
-- a runtime that the provider spawned is destroyed. Where it succeeds, the sandbox is running, its id
-- was free, it is cached and has a row with the tenant of the request, and one runtime was spawned.
pub spawn_local-all_or_nothing :
    (s : Settings) (r : Resolved) (a : Answers) (now : ℕ) (w : World) → LocalOutcome s r a now w
unfolding announce audit publish cache new_sandbox spawn_local LocalOutcome
spawn_local-all_or_nothing s r a now w =
    elim (spawn_runtime-Runtime s r r.tenant_id a.provider_spawn a.lease_up a.create_up now w) [
      | failed e bad sbs rows calls ↦
          let same =
            local_failure-Same a.provider_spawn e
              (spawn_runtime s r r.tenant_id a.provider_spawn a.lease_up a.create_up now w).1 in
          inl (
            rw (spawn_local, bad)
              ((e, refl), same.sandboxes ∙ sbs, same.records ∙ rows, moved same.calls calls))
      | made id good sbs fresh rows calls ↦ inr (
          rw (spawn_local, good)
            (
              new_sandbox r id r.tenant_id "" s.worker_id r.provider now s.preview_domain,
              refl,
              refl,
              fresh,
              rw (rows, lookup-insert_here) refl,
              lookup-insert_here id _ _,
              calls,
            ))
    ]

-- The outcome of a spawn on a remote worker.
pub RemoteOutcome : Settings → Resolved → Answers → String → ℕ → World → Type 0
RemoteOutcome s r a worker now w =
    let out = spawn_remote s r a worker now w in
    (((e : ManagerError) × (out.0 ≡ err e))
      × (out.1.sandboxes ≡ w.sandboxes)
      × (out.1.records ≡ w.records)
      × ((out.1.calls ≡ w.calls)
          ⊎ ((runtime : String) × (out.1.calls ≡ remote_spawned worker runtime ∷ w.calls))))
    ⊎ ((sb : Sandbox) × (out.0 ≡ ok sb)
        × (sb.tenant_id ≡ "")
        × (lookup sb.id w.records ≡ none)
        × (lookup sb.id out.1.records ≡ some (written (record_of "" now sb)))
        × (lookup sb.id out.1.sandboxes ≡ some sb)
        × (out.1.calls ≡ remote_spawned worker sb.vm_id ∷ w.calls))

-- A spawn on a remote worker: where it fails, the cache and the rows are as before, and a runtime
-- that the worker spawned is not destroyed. Where it succeeds, the sandbox is cached and has a row,
-- neither of which names the tenant of the request.
pub spawn_remote-outcome :
    (s : Settings) (r : Resolved) (a : Answers) (worker : String) (now : ℕ) (w : World)
    → RemoteOutcome s r a worker now w
unfolding announce audit publish cache new_sandbox note_call release_lease_of spawn_remote lookup
    RemoteOutcome record_of worker_or_local
spawn_remote-outcome s r a worker now w =
    let id = a.sandbox_id in
    let leased = acquire_sandbox_lease_for a.lease_up id worker (add_ttl now r.ttl) now w in
    let same = acquire-SameButLeases a.lease_up id worker (add_ttl now r.ttl) now w in
    elim (Bool-cases (not a.client_ok)) [
      | inl no_client ↦ rw (spawn_remote, no_client) (inl ((_, refl), refl, refl, inl refl))
      | inr client ↦ elim (Result-cases leased.0) [
        | inl (e, denied) ↦
            rw (spawn_remote, client, denied)
              (inl ((e, refl), same.sandboxes, same.records, inl same.calls))
        | inr (lease, granted) ↦ elim (Option-cases a.remote_spawn) [
          | inl none_spawned ↦
              rw (spawn_remote, client, granted, none_spawned)
                (inl ((_, refl), same.sandboxes, same.records, inl same.calls))
          | inr ((provider, runtime), answered) ↦
              let started = note_call (remote_spawned worker runtime) leased.1 in
              let ran = ap (λ cs. remote_spawned worker runtime ∷ cs) same.calls in
              let named = if is_empty provider then r.provider else provider in
              let sb = new_sandbox r id "" runtime worker named now a.remote_preview in
              elim (create_row-cases a.create_up (record_of "" now sb) started) [
                | inl lost ↦
                    rw (spawn_remote, client, granted, answered, lost)
                      (inl ((_, refl), same.sandboxes, same.records, inr (runtime, ran)))
                | inr (fresh, kept) ↦
                    rw (spawn_remote, client, granted, answered, kept)
                      (inr (
                        sb,
                        refl,
                        refl,
                        ap (lookup id) (sym same.records) ∙ fresh,
                        lookup-insert_here id _ _,
                        lookup-insert_here id _ _,
                        ran,
                      ))
              ]
        ]
      ]
    ]
