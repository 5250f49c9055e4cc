-- ===== src/Orchestrator/Reconcile/Turns.antt =====
-- The turn of each kind of row in a reconciliation (manager.go).
use stacyvm.Base.{
  ℕ, String, ◌≡◌, refl, ap, ◌∙◌, inl, inr, Bool, true, false, not, ◌&&◌, none, some, eq_refl, ltb,
  ◌==◌, if◌then◌else◌, Bool-cases, str_eq, is_empty, lookup, insert, lookup-insert, lookup-delete,
}
use stacyvm.Store.Records.{SandboxRecord}
use stacyvm.Orchestrator.Events.{EventType}
use stacyvm.Orchestrator.Lifecycle.{
  Settings, World, record_to_sandbox, get_provider_named, release_lease_of, publish, cache, uncache,
  state_running,
}
use stacyvm.Orchestrator.Lifecycle.Leasing.{Result-cases}
use stacyvm.Orchestrator.Lifecycle.Access.{apply_preview_domain}
use stacyvm.Orchestrator.Reconcile.{
  set_state, set_state_if_new, cached_as, mark_remote, keep_in_state, mark_stale, mark_error,
  reconcile_status, reconcile_local,
}
use stacyvm.Orchestrator.Reconcile.Told.{Answers, StatusAnswer, in_state, no_runtime, status_failed}
use stacyvm.Orchestrator.Reconcile.Steps.{
  SameRows, Touches, uncached, put, none-some, set_state-SameRows, set_state_if_new-frame,
  set_state_if_new-there,
}

module _ (s : Settings) (a : Answers) (now : ℕ) (rec : SandboxRecord) where
  -- The row is in the table, and the sandbox is not cached yet.
  abbrev pub Waiting : World → Type 0
  Waiting w = (lookup rec.id w.records ≡ some rec) × (lookup rec.id w.sandboxes ≡ none)

  keep_in_state-Touches :
      (state : String) (w : World)
      → Waiting w
      → Touches rec.id w (keep_in_state s a now rec state w).1
  unfolding keep_in_state cached_as apply_preview_domain
  keep_in_state-Touches state w (there, gone) =
      let written = set_state_if_new (a.row_up rec.id) rec state now w in
      let (rows, same) = set_state_if_new-frame (a.row_up rec.id) rec state now w in
      elim (Bool-cases written.0) [
        | inl done ↦
            let (new, here, fits) =
              set_state_if_new-there (a.row_up rec.id) rec state now w there done in
            let sb = cached_as s (a.worker_row rec.worker_id) rec state in
            let seen : (j : String)
                → lookup j (insert rec.id sb written.1.sandboxes)
                  ≡ (if str_eq rec.id j then some sb else lookup j w.sandboxes) =
              λ j. rw (lookup-insert, same) refl in
            rw (done) (put rec.id sb w _ new rows seen here fits)
        | inr silent ↦ rw (silent) (uncached rec.id w written.1 rows same gone)
      ]

  mark_stale-Touches : (w : World) → Waiting w → Touches rec.id w (mark_stale a now rec w).1
  unfolding mark_stale publish uncache
  mark_stale-Touches w (there, gone) =
      let written = set_state (a.row_up rec.id) rec.id "destroyed" now w in
      let (rows, same) = set_state-SameRows (a.row_up rec.id) rec.id "destroyed" now w in
      elim (Bool-cases written.0) [
        | inl done ↦ rw (done) (record {
          rows = rows;
          cached = λ j other. lookup-delete rec.id j _ ∙ rw (other, same) refl;
          agree = λ sb e. absurd (none-some (rw (lookup-delete, eq_refl) at e));
        })
        | inr silent ↦ rw (silent) (uncached rec.id w written.1 rows same gone)
      ]

  mark_error-Touches : (w : World) → Waiting w → Touches rec.id w (mark_error a now rec w).1
  unfolding mark_error publish
  mark_error-Touches w (there, gone) =
      let u = publish EventType.provider_failed rec.id w in
      let (rows, same) = set_state-SameRows (a.row_up rec.id) rec.id "error" now u in
      uncached rec.id w _ rows same gone

  reconcile_status-Touches :
      (answer : StatusAnswer) (w : World)
      → Waiting w
      → Touches rec.id w (reconcile_status s a now rec answer w).1
  unfolding reconcile_status
  reconcile_status-Touches status_failed w h = mark_error-Touches w h
  reconcile_status-Touches no_runtime w h = mark_stale-Touches w h
  reconcile_status-Touches (in_state told) w h =
      let state = if is_empty told then state_running else told in
      let (rows, same) = set_state-SameRows (a.row_up rec.id) rec.id "destroyed" now w in
      elim (Bool-cases (str_eq state "destroyed")) [
        | inl gone ↦ rw (gone) (uncached rec.id w _ rows same h.1)
        | inr alive ↦ rw (alive) (keep_in_state-Touches state w h)
      ]

  pub reconcile_local-Touches :
      (w : World) → Waiting w → Touches rec.id w (reconcile_local s a now rec w).1
  unfolding reconcile_local
  reconcile_local-Touches w h = elim (Result-cases (get_provider_named s rec.provider)) [
    | inl (e, no_provider) ↦ rw (no_provider, reconcile_local) (mark_error-Touches w h)
    | inr (provider, found) ↦
        rw (found, reconcile_local) (reconcile_status-Touches (a.status provider rec.id) w h)
  ]

  -- A lease that is released or not leaves the rows and the cache alone.
  maybe_released :
      (over : Bool) (w : World)
      → let u = if over then release_lease_of rec.id rec.worker_id w else w in
        (u.records ≡ w.records) × (u.sandboxes ≡ w.sandboxes)
  unfolding release_lease_of
  maybe_released true w = (refl, refl)
  maybe_released false w = (refl, refl)

  pub mark_remote-Touches : (w : World) → Waiting w → Touches rec.id w (mark_remote s a now rec w).1
  unfolding mark_remote cached_as apply_preview_domain publish cache record_to_sandbox
  mark_remote-Touches w (there, gone) =
      let over = not (rec.expires_at == 0) && ltb rec.expires_at now in
      let state : String = if over then "expired" else "unhealthy" in
      let v : World = if over then release_lease_of rec.id rec.worker_id w else w in
      let (rows_v, same_v) = maybe_released over w in
      let written = set_state_if_new (a.row_up rec.id) rec state now v in
      let (rows, same) = set_state_if_new-frame (a.row_up rec.id) rec state now v in
      let rows_w : SameRows rec.id w written.1 = λ j other. rows j other ∙ ap (lookup j) rows_v in
      let same_w : written.1.sandboxes ≡ w.sandboxes = same ∙ same_v in
      elim (Bool-cases written.0) [
        | inl done ↦
            let (new, here, fits) =
              set_state_if_new-there (a.row_up rec.id) rec state now v
                (ap (lookup rec.id) rows_v ∙ there) done in
            let sb = cached_as s (a.worker_row rec.worker_id) rec state in
            let seen : (j : String)
                → lookup j (insert rec.id sb written.1.sandboxes)
                  ≡ (if str_eq rec.id j then some sb else lookup j w.sandboxes) =
              λ j. rw (lookup-insert, same_w) refl in
            rw (done) (put rec.id sb w _ new rows_w seen here fits)
        | inr silent ↦ rw (silent) (uncached rec.id w written.1 rows_w same_w gone)
      ]
