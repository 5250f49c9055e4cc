-- ===== src/Orchestrator/Lifecycle/Access.antt =====
-- internal/orchestrator/manager.go: Get, ExtendTTL, getSandboxAndProvider, and how a sandbox is found
-- in the cache or among the rows.
use stacyvm.Base.{
  ℕ, String, not, ◌||◌, Option, none, some, if◌then◌else◌, ℤ, pos, pos_part, ◌+ℤ◌, str_eq, is_empty,
  trim_space, lookup, insert,
}
use stacyvm.Store.Records.{WorkerRecord}
use stacyvm.Store.Sandboxes.{update_sandbox_state, update_sandbox_expires_at}
use stacyvm.Orchestrator.Placement.{worker_preview_domain}
use stacyvm.Orchestrator.Admission.Quota.{
  sandbox_not_found, sandbox_destroyed, operation_failed, Result, ok, err,
}
use stacyvm.Orchestrator.Lifecycle.{
  Sandbox, Settings, World, record_to_sandbox, is_remote_owned_sandbox, get_provider_named, cache,
}
use stacyvm.Store.Leases

-- previewDomainForWorker, on the worker's row.
unfoldable pub preview_domain_for_worker : Settings → Option WorkerRecord → String → String
preview_domain_for_worker s row worker =
    if is_empty (trim_space worker) || str_eq worker s.worker_id
    then s.preview_domain
    else elim row [
      | none ↦ s.preview_domain
      | some rec ↦
          if is_empty (worker_preview_domain rec)
          then s.preview_domain
          else worker_preview_domain rec
    ]

unfoldable pub apply_preview_domain : Settings → Option WorkerRecord → Sandbox → Sandbox
apply_preview_domain s row sb = record sb {
  preview_domain = preview_domain_for_worker s row sb.worker_id;
}

-- The cached sandbox, with a change made to it where it is cached.
unfoldable pub touch : String → (Sandbox → Sandbox) → World → World
touch id f w = elim (lookup id w.sandboxes) [
  | none ↦ w
  | some sb ↦ record w { sandboxes = insert id (f sb) w.sandboxes }
]

-- refreshRemoteSandboxStatus, on the state that the worker reports; `none` where it reports none.
-- The new state goes to the row and to the cached sandbox, or the sandbox itself goes to the cache.
unfoldable pub refresh_remote_sandbox_status :
    Settings → Option String → ℕ → Sandbox → World → Sandbox × World
refresh_remote_sandbox_status s none now sb w = (sb, w)
refresh_remote_sandbox_status s (some state) now sb w =
    let fresh = record sb { state = state } in
    let rows = (update_sandbox_state sb.id state now w.records).1 in
    let written = record w { records = rows } in
    if not (is_remote_owned_sandbox s sb)
    then (sb, w)
    else if is_empty state || str_eq state sb.state
    then (sb, w)
    else elim (lookup sb.id w.sandboxes) [
      | none ↦ (fresh, cache fresh written)
      | some current ↦ (fresh, touch sb.id (λ c. record c { state = state }) written)
    ]

-- Get. The worker's row and the state that it reports are arguments.
unfoldable pub get :
    Settings → Option WorkerRecord → Option String → String → ℕ → World → Result Sandbox × World
get s row reported id now w = elim (lookup id w.sandboxes) [
  | some sb ↦
      let shown = apply_preview_domain s row sb in
      let found =
        refresh_remote_sandbox_status s reported now shown
          (touch id (apply_preview_domain s row) w) in
      (ok found.0, found.1)
  | none ↦ elim (lookup id w.records) [
    | none ↦ (err (sandbox_not_found id), w)
    | some rec ↦
        let sb = apply_preview_domain s row (record_to_sandbox rec) in
        let found = refresh_remote_sandbox_status s reported now sb w in
        if str_eq rec.state "destroyed"
        then (err (sandbox_destroyed id), w)
        else (ok found.0, found.1)
  ]
]

unfoldable pub extend_ttl :
    Settings → Option WorkerRecord → Option String → String → ℤ → ℕ → World → Result Sandbox × World
extend_ttl s row reported id extra now w =
    let found = get s row reported id now w in
    let expires = pos_part (pos now +ℤ extra) in
    elim found.0 [
      | err e ↦ (err e, found.1)
      | ok sb ↦
          let written = update_sandbox_expires_at id expires now found.1.records in
          elim written.0 [
            | Leases.Result.err e ↦ (err (operation_failed "extending TTL"), found.1)
            | Leases.Result.ok u ↦ (
              ok (record sb { expires_at = expires }),
              touch id (λ c. record c { expires_at = expires })
                  (record found.1 { records = written.1 }),
            )
          ]
    ]

unfoldable pub find_sandbox : String → World → Option Sandbox
find_sandbox id w = elim (lookup id w.sandboxes) [
  | some sb ↦ some sb
  | none ↦ elim (lookup id w.records) [ none ↦ none | some rec ↦ some (record_to_sandbox rec) ]
]

unfoldable pub get_sandbox_and_provider : Settings → String → World → Result (Sandbox × String)
get_sandbox_and_provider s id w = elim (find_sandbox id w) [
  | none ↦ err (sandbox_not_found id)
  | some sb ↦
      if str_eq sb.state "destroyed"
      then err (sandbox_destroyed id)
      else elim (get_provider_named s sb.provider) [
        | err e ↦ err e
        | ok provider ↦ ok (sb, provider)
      ]
]

-- getProvider.
unfoldable pub get_provider : Settings → String → World → Result String
get_provider s id w = elim (find_sandbox id w) [
  | none ↦ err (sandbox_not_found id)
  | some sb ↦ get_provider_named s sb.provider
]
