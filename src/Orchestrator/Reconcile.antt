-- ===== src/Orchestrator/Reconcile.antt =====
-- internal/orchestrator/manager.go: Reconcile, by which a manager that starts again brings the rows and
-- its cache in line with what the providers and the remote workers run. A step answers whether the
-- database took its writes: where it did not, the reconciliation stops.
pub mod Told
pub mod Runtimes
mod Rows
mod Steps
mod Turns
mod Records
mod Coherent
mod Adoption
mod Tests
use stacyvm.Base.{
  ℕ, zero, suc, ◌+◌, ◌-◌, ◌*◌, ◌/◌, ◌%◌, ◌^◌, ◌≤◌, ◌<◌, String, ◌≡◌, refl, sym, ap, subst, ◌∙◌, ◌≢◌,
  ◌↔◌, ◌⊎◌, inl, inr, Bool, true, false, not, ◌&&◌, ◌||◌, Option, none, some, List, [], ◌∷◌, ◌++◌,
  map, arith, eq_iff, eq_refl, ltb, leb, ◌==◌, if◌then◌else◌, ltb→lt, lt→ltb, leb→le, ==_iff,
  Bool-cases, Option-cases, length, get_elem?, set, get_or, take, drop, replicate, length-append,
  length-set, take-append-drop, length-take, length-drop, append_assoc_list, drop-set, ℤ, pos,
  negsuc, pos_part, neg_part, sub_ℕ, ◌+ℤ◌, ◌≤ℤ◌, ◌<ℤ◌, ltb_ℤ, leb_ℤ, is_pos, +ℤ_parts, str_eq,
  is_empty, codes, is_space, trim_space, fold, equal_fold, equal_fold_refl, Dict, lookup, insert,
  delete, lookup-insert, lookup-delete, length-insert, length-delete, length-insert_found,
}
use stacyvm.Orchestrator.Reconcile.Told.{StatusAnswer, in_state, no_runtime, status_failed, Answers}
use stacyvm.Orchestrator.Reconcile.Runtimes.{reconcile_provider_runtimes}
use stacyvm.Store.Records.{SandboxRecord, WorkerRecord}
use stacyvm.Store.Sandboxes.{Sandboxes, list_sandboxes, update_sandbox_state, create_sandbox}
use stacyvm.Store.Leases
use stacyvm.Orchestrator.Events.{EventType}
use stacyvm.Orchestrator.Placement.{worker_heartbeat_stale_after}
use stacyvm.Orchestrator.Admission.Quota.{Result, ok, err}
use stacyvm.Orchestrator.Lifecycle.{
  Sandbox, Settings, World, record_to_sandbox, get_provider_named, add_ttl,
  acquire_sandbox_lease_for, release_lease_of, publish, cache, uncache, state_running,
}
use stacyvm.Orchestrator.Lifecycle.Access.{apply_preview_domain, refresh_remote_sandbox_status}

-- UpdateSandboxState, and whether it succeeds.
unfoldable pub set_state : Bool → String → String → ℕ → World → Bool × World
set_state up id state now w =
    if up
    then (let written = update_sandbox_state id state now w.records in
        (
          elim written.0 [ Leases.Result.ok u ↦ true | Leases.Result.err e ↦ false ],
          record w { records = written.1 },
        ))
    else (false, w)

-- `if state != rec.State { UpdateSandboxState }`.
unfoldable pub set_state_if_new : Bool → SandboxRecord → String → ℕ → World → Bool × World
unfolding set_state
set_state_if_new up rec state now w =
    if str_eq state rec.state then (true, w) else set_state up rec.id state now w

unfoldable pub is_remote_row : Settings → SandboxRecord → Bool
is_remote_row s rec = not (is_empty (trim_space rec.worker_id) || str_eq rec.worker_id s.worker_id)

-- What the row of the owning worker says of a remote sandbox.
pub data Ownership : Type 0 where
  lost draining online : Ownership

unfoldable pub ownership : Option WorkerRecord → ℕ → Ownership
ownership none now = lost
ownership (some row) now =
    if ltb (row.last_heartbeat + worker_heartbeat_stale_after) now
    then lost
    else if equal_fold row.status "draining"
    then draining
    else if equal_fold row.status "online"
    then online
    else lost

-- The sandbox of a row, as the cache keeps it, in a state.
unfoldable pub cached_as : Settings → Option WorkerRecord → SandboxRecord → String → Sandbox
cached_as s row rec state =
    apply_preview_domain s row (record (record_to_sandbox rec) { state = state })

-- The policy for a remote sandbox whose worker cannot tell of it: it is unhealthy, or expired, and
-- then its lease is released.
unfoldable pub mark_remote : Settings → Answers → ℕ → SandboxRecord → World → Bool × World
unfolding cached_as set_state_if_new
mark_remote s a now rec w =
    let over = not (rec.expires_at == 0) && ltb rec.expires_at now in
    let state = if over then "expired" else "unhealthy" in
    let released = (if over then release_lease_of rec.id rec.worker_id w else w) in
    let written = set_state_if_new (a.row_up rec.id) rec state now released in
    let sb = cached_as s (a.worker_row rec.worker_id) rec state in
    if written.0
    then (true, publish EventType.reconcile_action rec.id (cache sb written.1))
    else (false, written.1)

-- The refreshed sandbox, put into the cache.
unfoldable pub adopt_reported : Settings → Answers → ℕ → SandboxRecord → String → World → World
adopt_reported s a now rec state w =
    let sb = apply_preview_domain s (a.worker_row rec.worker_id) (record_to_sandbox rec) in
    let refreshed = refresh_remote_sandbox_status s (some state) now sb w in
    record refreshed.1 { sandboxes = insert rec.id refreshed.0 refreshed.1.sandboxes }

-- A remote sandbox whose worker is there, on the state that it reports for it: where it reports none,
-- `otherwise` is done.
unfoldable pub refresh_or :
    Settings → Answers → ℕ → SandboxRecord → Option String → Bool × World → World → Bool × World
unfolding adopt_reported
refresh_or s a now rec none otherwise w = otherwise
refresh_or s a now rec (some state) otherwise w = (true, adopt_reported s a now rec state w)

unfoldable pub reconcile_owned :
    Settings → Answers → ℕ → SandboxRecord → Ownership → World → Bool × World
unfolding refresh_or mark_remote
reconcile_owned s a now rec lost w = mark_remote s a now rec w
reconcile_owned s a now rec draining w =
    let told = publish EventType.reconcile_action rec.id w in
    refresh_or s a now rec (a.reported rec.id) (true, told) told
reconcile_owned s a now rec online w =
    refresh_or s a now rec (a.reported rec.id) (mark_remote s a now rec w) w

-- reconcileRemoteOwnedSandbox, for a row that another worker owns.
unfoldable pub reconcile_remote : Settings → Answers → ℕ → SandboxRecord → World → Bool × World
unfolding reconcile_owned ownership
reconcile_remote s a now rec w =
    reconcile_owned s a now rec (ownership (a.worker_row rec.worker_id) now) w

-- A row of this worker in a state that its provider reports.
unfoldable pub keep_in_state :
    Settings → Answers → ℕ → SandboxRecord → String → World → Bool × World
unfolding cached_as set_state_if_new
keep_in_state s a now rec state w =
    let written = set_state_if_new (a.row_up rec.id) rec state now w in
    let sb = cached_as s (a.worker_row rec.worker_id) rec state in
    if written.0
    then (true, record written.1 { sandboxes = insert rec.id sb written.1.sandboxes })
    else (false, written.1)

-- A row of this worker whose provider has no runtime for it: destroyed, and cached no more.
unfoldable pub mark_stale : Answers → ℕ → SandboxRecord → World → Bool × World
unfolding set_state
mark_stale a now rec w =
    let written = set_state (a.row_up rec.id) rec.id "destroyed" now w in
    if written.0
    then (true, publish EventType.reconcile_action rec.id (uncache rec.id written.1))
    else (false, written.1)

unfoldable pub mark_error : Answers → ℕ → SandboxRecord → World → Bool × World
unfolding set_state
mark_error a now rec w =
    set_state (a.row_up rec.id) rec.id "error" now (publish EventType.provider_failed rec.id w)

-- What Reconcile does with the answer of the provider of a row of this worker.
unfoldable pub reconcile_status :
    Settings → Answers → ℕ → SandboxRecord → StatusAnswer → World → Bool × World
unfolding keep_in_state mark_stale mark_error
reconcile_status s a now rec status_failed w = mark_error a now rec w
reconcile_status s a now rec no_runtime w = mark_stale a now rec w
reconcile_status s a now rec (in_state told) w =
    let state = if is_empty told then state_running else told in
    if str_eq state "destroyed"
    then set_state (a.row_up rec.id) rec.id "destroyed" now w
    else keep_in_state s a now rec state w

-- What Reconcile does with a row of this worker.
unfoldable pub reconcile_local : Settings → Answers → ℕ → SandboxRecord → World → Bool × World
unfolding reconcile_status mark_error
reconcile_local s a now rec w = elim (get_provider_named s rec.provider) [
  | err e ↦ mark_error a now rec w
  | ok provider ↦ reconcile_status s a now rec (a.status provider rec.id) w
]

-- The loop over the rows.
unfoldable pub reconcile_record : Settings → Answers → ℕ → SandboxRecord → World → Bool × World
unfolding is_remote_row
reconcile_record s a now rec w =
    if str_eq rec.state "destroyed"
    then (true, w)
    else if is_remote_row s rec
    then reconcile_remote s a now rec w
    else reconcile_local s a now rec w

unfoldable pub reconcile_records :
    Settings → Answers → ℕ → List SandboxRecord → World → Bool × World
reconcile_records s a now [] w = (true, w)
reconcile_records s a now (rec ∷ recs) w =
    let done = reconcile_record s a now rec w in
    let rest = reconcile_records s a now recs done.1 in if done.0 then rest else (false, done.1)

unfoldable pub ids_of : List SandboxRecord → List String
ids_of [] = []
ids_of (rec ∷ recs) = rec.id ∷ ids_of recs

unfoldable pub reconcile : Settings → Answers → ℕ → World → Bool × World
unfolding reconcile_records reconcile_provider_runtimes ids_of
reconcile s a now w =
    let rows = list_sandboxes w.records in
    let done = reconcile_records s a now rows w in
    let rest = reconcile_provider_runtimes s a now s.providers (ids_of rows) done.1 in
    if done.0 then rest else (false, done.1)
