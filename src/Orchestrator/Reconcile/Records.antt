-- ===== src/Orchestrator/Reconcile/Records.antt =====
-- The turn of a row in a reconciliation, whoever owns the sandbox (manager.go, Reconcile).
use stacyvm.Base.{
  ℕ, String, ◌≡◌, refl, inl, inr, Bool, true, not, ◌||◌, Option, none, some, arith, if◌then◌else◌,
  Bool-cases, str_eq, is_empty, lookup, insert, lookup-insert,
}
use stacyvm.Store.Records.{SandboxRecord}
use stacyvm.Orchestrator.Lifecycle.{
  Sandbox, Settings, World, record_to_sandbox, is_remote_owned_sandbox, cache, publish,
}
use stacyvm.Orchestrator.Lifecycle.Access.{apply_preview_domain, refresh_remote_sandbox_status}
use stacyvm.Orchestrator.Events.{EventType}
use stacyvm.Orchestrator.Reconcile.{
  Ownership, lost, draining, online, ownership, is_remote_row, adopt_reported, refresh_or,
  reconcile_owned, reconcile_remote, reconcile_record,
}
use stacyvm.Orchestrator.Reconcile.Told.{Answers}
use stacyvm.Orchestrator.Reconcile.Steps.{Touches, uncached, put, update-frame, update-there}
use stacyvm.Orchestrator.Reconcile.Turns.{Waiting, reconcile_local-Touches, mark_remote-Touches}

module _ (s : Settings) (a : Answers) (now : ℕ) (rec : SandboxRecord) where
  keeps :
      (w : World) (sb : Sandbox)
      → lookup rec.id w.records ≡ some rec
      → rec.state ≡ sb.state
      → Touches rec.id w (record w { sandboxes = insert rec.id sb w.sandboxes })
  keeps w sb there fits =
      put rec.id sb w _ rec (λ j other. refl) (λ j. lookup-insert rec.id j sb w.sandboxes) there
        fits

  adopt_reported-Touches :
      (state : String) (w : World)
      → Waiting s a now rec w
      → Touches rec.id w (adopt_reported s a now rec state w)
  unfolding adopt_reported refresh_remote_sandbox_status apply_preview_domain record_to_sandbox
      cache
  adopt_reported-Touches state w (there, gone) =
      let sb = apply_preview_domain s (a.worker_row rec.worker_id) (record_to_sandbox rec) in
      elim (Bool-cases (not (is_remote_owned_sandbox s sb))) [
        | inl own ↦ rw (own) (keeps w sb there refl)
        | inr remote ↦ elim (Bool-cases (is_empty state || str_eq state rec.state)) [
          | inl old ↦ rw (remote, old) (keeps w sb there refl)
          | inr new ↦
              let fresh = record sb { state = state } in
              let (row, here, fits) = update-there rec.id state now w.records rec there in
              let seen : (j : String)
                  → lookup j (insert rec.id fresh (insert rec.id fresh w.sandboxes))
                    ≡ (if str_eq rec.id j then some fresh else lookup j w.sandboxes) =
                λ j. ground (
                  arith,
                  lookup-insert rec.id j fresh (insert rec.id fresh w.sandboxes),
                  lookup-insert rec.id j fresh w.sandboxes,
                ) in
              rw (remote, new, gone)
                (put rec.id fresh w _ row
                  (λ j other. update-frame rec.id state now w.records j other) seen here fits)
        ]
      ]

  refresh_or-Touches :
      (reported : Option String) (otherwise : Bool × World) (w : World)
      → Waiting s a now rec w
      → Touches rec.id w otherwise.1
      → Touches rec.id w (refresh_or s a now rec reported otherwise w).1
  unfolding refresh_or
  refresh_or-Touches none otherwise w h t = t
  refresh_or-Touches (some state) otherwise w h t = adopt_reported-Touches state w h

  reconcile_owned-Touches :
      (o : Ownership) (w : World)
      → Waiting s a now rec w
      → Touches rec.id w (reconcile_owned s a now rec o w).1
  unfolding reconcile_owned publish
  reconcile_owned-Touches lost w h = mark_remote-Touches s a now rec w h
  reconcile_owned-Touches draining w h =
      let told = publish EventType.reconcile_action rec.id w in
      let idle = uncached rec.id told told (λ j other. refl) refl h.1 in
      let t = refresh_or-Touches (a.reported rec.id) (true, told) told h idle in
      record { rows = t.rows; cached = t.cached; agree = t.agree }
  reconcile_owned-Touches online w h =
      refresh_or-Touches (a.reported rec.id) _ w h (mark_remote-Touches s a now rec w h)

  pub reconcile_record-Touches :
      (w : World) → Waiting s a now rec w → Touches rec.id w (reconcile_record s a now rec w).1
  unfolding reconcile_record reconcile_remote
  reconcile_record-Touches w h = elim (Bool-cases (str_eq rec.state "destroyed")) [
    | inl over ↦ rw (over) (uncached rec.id w w (λ j other. refl) refl h.1)
    | inr live ↦ elim (Bool-cases (is_remote_row s rec)) [
      | inl remote ↦
          rw (live, remote)
            (reconcile_owned-Touches (ownership (a.worker_row rec.worker_id) now) w h)
      | inr own ↦ rw (live, own) (reconcile_local-Touches s a now rec w h)
    ]
  ]
