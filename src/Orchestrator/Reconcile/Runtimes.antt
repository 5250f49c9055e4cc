-- ===== src/Orchestrator/Reconcile/Runtimes.antt =====
-- reconcileProviderRuntimes of internal/orchestrator/manager.go: the runtimes that no row is about are
-- adopted.
use stacyvm.Base.{
  ℕ, String, Bool, true, false, ◌||◌, List, [], ◌∷◌, ltb, ◌==◌, if◌then◌else◌, str_eq, is_empty,
}
use stacyvm.Store.Records.{SandboxRecord}
use stacyvm.Store.Sandboxes.{create_sandbox}
use stacyvm.Store.Leases
use stacyvm.Orchestrator.Events.{EventType}
use stacyvm.Orchestrator.Admission.Quota.{ok, err}
use stacyvm.Orchestrator.Lifecycle.{
  Settings, World, record_to_sandbox, add_ttl, acquire_sandbox_lease_for, publish, cache,
  state_running,
}
use stacyvm.Orchestrator.Reconcile.Told.{
  RuntimeSandbox, no_inventory, inventory_failed, runtimes, Answers,
}

unfoldable pub is_known : String → List String → Bool
is_known id [] = false
is_known id (k ∷ known) = str_eq k id || is_known id known

-- The row that an adopted runtime gets.
unfoldable pub adopted_record : Settings → ℕ → String → RuntimeSandbox → SandboxRecord
adopted_record s now provider r =
    let created = if r.created_at == 0 then now else r.created_at in
    let expires = add_ttl created s.default_ttl in
    record {
      id = r.id;
      state = if is_empty r.state then state_running else r.state;
      provider = if is_empty r.provider then provider else r.provider;
      image = if is_empty r.image then s.default_image else r.image;
      memory_mb = s.default_memory;
      vcpus = s.default_vcpus;
      metadata = r.metadata;
      owner_id = "";
      tenant_id = "";
      vm_id = "";
      worker_id = s.worker_id;
      created_at = created;
      expires_at = if ltb expires now then add_ttl now s.default_ttl else expires;
      updated_at = now;
    }

-- The row, the cached sandbox and the event of an adoption whose lease is held. A row that is there
-- already is left alone, and the loop goes on; the ids that are known are answered too.
unfoldable pub adopt_leased :
    Settings → Answers → SandboxRecord → List String → World → Bool × List String × World
adopt_leased s a rec known w =
    let created = create_sandbox rec w.records in
    let sb = record (record_to_sandbox rec) { preview_domain = s.preview_domain } in
    if a.row_up rec.id
    then elim created.0 [
      | Leases.Result.err e ↦ (true, known, w)
      | Leases.Result.ok u ↦ (
        true,
        rec.id ∷ known,
        publish EventType.reconcile_action rec.id (cache sb (record w { records = created.1 })),
      )
    ]
    else (false, known, w)

unfoldable pub adopt_runtime :
    Settings
    → Answers
    → ℕ
    → String
    → RuntimeSandbox
    → List String
    → World
    → Bool × List String × World
unfolding adopt_leased adopted_record is_known
adopt_runtime s a now provider r known w =
    let rec = adopted_record s now provider r in
    let leased =
      acquire_sandbox_lease_for (a.lease_up r.id) r.id s.worker_id rec.expires_at now w in
    if is_known r.id known || str_eq rec.state "destroyed"
    then (true, known, w)
    else elim leased.0 [
      | err e ↦ (true, known, leased.1)
      | ok lease ↦ adopt_leased s a rec known leased.1
    ]

unfoldable pub adopt_runtimes :
    Settings
    → Answers
    → ℕ
    → String
    → List RuntimeSandbox
    → List String
    → World
    → Bool × List String × World
adopt_runtimes s a now provider [] known w = (true, known, w)
adopt_runtimes s a now provider (r ∷ rs) known w =
    let done = adopt_runtime s a now provider r known w in
    let rest = adopt_runtimes s a now provider rs done.1 done.2 in
    if done.0 then rest else (false, done.1, done.2)

-- reconcileProviderRuntimes.
unfoldable pub reconcile_provider_runtimes :
    Settings → Answers → ℕ → List String → List String → World → Bool × World
reconcile_provider_runtimes s a now [] known w = (true, w)
reconcile_provider_runtimes s a now (name ∷ names) known w =
    let listed : List RuntimeSandbox = elim (a.inventory name) [
      | no_inventory ↦ []
      | inventory_failed ↦ []
      | runtimes rs ↦ rs
    ] in
    let noted : World = elim (a.inventory name) [
      | no_inventory ↦ w
      | inventory_failed ↦ publish EventType.provider_failed "" w
      | runtimes rs ↦ w
    ] in
    let done = adopt_runtimes s a now name listed known noted in
    let rest = reconcile_provider_runtimes s a now names done.1 done.2 in
    if done.0 then rest else (false, done.2)
