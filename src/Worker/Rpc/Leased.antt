-- ===== src/Worker/Rpc/Leased.antt =====
-- The leases that stand behind the spawns, destroys and renewals of a worker (internal/worker/rpc.go).
use stacyvm.Base.{
  ℕ, ◌≤◌, ◌<◌, String, ◌≡◌, refl, sym, ap, subst, ◌∙◌, ◌⊎◌, inl, inr, Option, none, some, ◌∷◌,
  arith, eq_iff, Bool-cases, str_eq,
}
use stacyvm.Worker.Protocol.{
  LeaseToken, Request, SpawnParams, DestroyParams, RenewLeaseParams, Codec,
}
use stacyvm.Worker.Rpc.Checks.{
  RpcCall, RpcServer, asked_status, asked_logs, destroyed, executed, streamed, filed, spawned,
  renewed, note, stop, go, Checked-cases, validate_lease_token, decoded, same_resource,
  find_provider, prepare_spawn, prepare_destroy, prepare_renewal, leased, check_renewer, runtime_of,
}
use stacyvm.Worker.Rpc.Handlers.{Answers, handle_spawn, handle_destroy, handle_renew_lease}

-- The request carries a lease on the resource, held by the worker, that has not expired.
abbrev pub Leased : Option LeaseToken → String → String → ℕ → Type 0
Leased lease worker resource now =
    (token : LeaseToken) × (lease ≡ some token)
    × (token.holder_id ≡ worker)
    × (token.resource_id ≡ resource)
    × (now ≤ token.expires_at)

module _ (codec : Codec) where
  -- What must stand behind a call made for a request: for a spawn, a destroy and a renewal, a lease
  -- on the resource that the parameters of the request name.
  abbrev pub Covered : String → ℕ → Request → RpcCall → Type 0
  Covered worker now req (spawned provider params) =
      (codec.spawn req.params ≡ some params) × Leased req.lease worker params.sandbox_id now
  Covered worker now req (destroyed provider runtime) =
      (params : DestroyParams) × (codec.destroy req.params ≡ some params)
      × (runtime ≡ runtime_of params.runtime_id params.sandbox_id)
      × Leased req.lease worker params.sandbox_id now
  Covered worker now req (renewed resource ttl) = Leased req.lease worker resource now
  Covered worker now req (asked_status provider runtime) = Unit
  Covered worker now req (asked_logs provider runtime) = Unit
  Covered worker now req (executed provider runtime params limited) = Unit
  Covered worker now req (streamed provider runtime params limited) = Unit
  Covered worker now req (filed provider runtime m params) = Unit

  -- No call was made, or one that is covered.
  abbrev pub Fenced : ℕ → Request → RpcServer → RpcServer → Type 0
  Fenced now req s s' =
      (s'.calls ≡ s.calls)
      ⊎ ((c : RpcCall) × (s'.calls ≡ c ∷ s.calls) × Covered s.worker_id now req c)

  validate_lease_token-go :
      (lease : Option LeaseToken) (worker : String) (now : ℕ) (token : LeaseToken)
      → validate_lease_token lease worker now ≡ go token
      → Leased lease worker token.resource_id now
  unfolding validate_lease_token
  validate_lease_token-go none worker now token e = absurd (ground arith)
  validate_lease_token-go (some t) worker now token e =
      let same : t ≡ token = ground arith in
      let held : t.holder_id ≡ worker = ground (arith, eq_iff t.holder_id worker) in
      let alive : t.expires_at < now → ⊥ = λ late. ground arith in
      (
        token,
        ap some same,
        subst (λ (x : LeaseToken). x.holder_id ≡ worker) same held,
        refl,
        subst (λ (x : LeaseToken). now ≤ x.expires_at) same (omega (arith, alive)),
      )

  stop-go : {A : Type 0} {n : ℕ} {text : String} {a : A} → stop n text ≡ go a → ⊥
  stop-go e = ground arith

  leased-go :
      {A : Type 0} (lease : Option LeaseToken) (worker : String) (now : ℕ) (raw : Option A)
      (resource_of : A → String) (text : String) (a : A)
      → leased lease worker now raw resource_of text ≡ go a
      → (raw ≡ some a) × Leased lease worker (resource_of a) now
  unfolding leased decoded same_resource
  leased-go lease worker now none resource_of text a e =
      elim (Checked-cases (validate_lease_token lease worker now)) [
        | inl (n, why, bad) ↦ absurd (stop-go (rw (bad) at e))
        | inr (token, good) ↦ absurd (stop-go (rw (good) at e))
      ]
  leased-go lease worker now (some raw) resource_of text a e =
      elim (Checked-cases (validate_lease_token lease worker now)) [
        | inl (n, why, bad) ↦ absurd (stop-go (rw (bad) at e))
        | inr (token, good) ↦ elim (Bool-cases (str_eq (resource_of raw) token.resource_id)) [
          | inl same ↦
              let here : raw ≡ a = ground (arith, rw (good, same) at e) in
              let (t, holds, held, resource, alive) =
                validate_lease_token-go lease worker now token good in
              let about : token.resource_id ≡ resource_of a =
                sym ((eq_iff (resource_of raw) token.resource_id).0 same) ∙ ap resource_of here in
              (ap some here, (t, holds, held, resource ∙ about, alive))
          | inr other ↦ absurd (stop-go (rw (good, other) at e))
        ]
      ]

  prepare_spawn-go :
      (s : RpcServer) (now : ℕ) (req : Request) (params : SpawnParams) (provider : String)
      → prepare_spawn codec s now req ≡ go (params, provider)
      → (codec.spawn req.params ≡ some params) × Leased req.lease s.worker_id params.sandbox_id now
  unfolding prepare_spawn
  prepare_spawn-go s now req params provider e =
      let text : String = "lease resource does not match spawn request" in
      let first =
        leased req.lease s.worker_id now (codec.spawn req.params) (λ p. p.sandbox_id) text in
      elim (Checked-cases first) [
        | inl (n, why, bad) ↦ absurd (stop-go (rw (bad) at e))
        | inr (found, good) ↦ elim (Checked-cases (find_provider s found.provider)) [
          | inl (n, why, bad) ↦ absurd (stop-go (rw (good, bad) at e))
          | inr (p, known) ↦
              let same : found ≡ params = ground (arith, rw (good, known) at e) in
              leased-go req.lease s.worker_id now _ _ text params (good ∙ ap go same)
        ]
      ]

  prepare_destroy-go :
      (s : RpcServer) (now : ℕ) (req : Request) (params : DestroyParams) (provider : String)
      → prepare_destroy codec s now req ≡ go (params, provider)
      → (codec.destroy req.params ≡ some params)
        × Leased req.lease s.worker_id params.sandbox_id now
  unfolding prepare_destroy
  prepare_destroy-go s now req params provider e =
      let text : String = "lease resource does not match destroy request" in
      let first =
        leased req.lease s.worker_id now (codec.destroy req.params) (λ p. p.sandbox_id) text in
      elim (Checked-cases first) [
        | inl (n, why, bad) ↦ absurd (stop-go (rw (bad) at e))
        | inr (found, good) ↦ elim (Checked-cases (find_provider s found.provider)) [
          | inl (n, why, bad) ↦ absurd (stop-go (rw (good, bad) at e))
          | inr (p, known) ↦
              let same : found ≡ params = ground (arith, rw (good, known) at e) in
              leased-go req.lease s.worker_id now _ _ text params (good ∙ ap go same)
        ]
      ]

  prepare_renewal-go :
      (s : RpcServer) (now : ℕ) (req : Request) (params : RenewLeaseParams)
      → prepare_renewal codec s now req ≡ go params
      → Leased req.lease s.worker_id params.resource_id now
  unfolding prepare_renewal
  prepare_renewal-go s now req params e =
      let text : String = "lease resource does not match renewal request" in
      let first =
        leased req.lease s.worker_id now (codec.renew req.params) (λ p. p.resource_id) text in
      elim (Checked-cases first) [
        | inl (n, why, bad) ↦ absurd (stop-go (rw (bad) at e))
        | inr (found, good) ↦ elim (Checked-cases (check_renewer s)) [
          | inl (n, why, bad) ↦ absurd (stop-go (rw (good, bad) at e))
          | inr (u, known) ↦
              let same : found ≡ params = ground (arith, rw (good, known) at e) in
              (leased-go req.lease s.worker_id now _ _ text params (good ∙ ap go same)).1
        ]
      ]

  pub Fenced-spawn :
      (s : RpcServer) (a : Answers) (now : ℕ) (req : Request)
      → Fenced now req s (handle_spawn codec s a now req).1
  unfolding handle_spawn note
  Fenced-spawn s a now req = elim (Checked-cases (prepare_spawn codec s now req)) [
    | inl (n, why, bad) ↦ rw (bad, handle_spawn) (inl refl)
    | inr ((params, p), good) ↦
        rw (good, handle_spawn)
          (inr (spawned p params, refl, prepare_spawn-go s now req params p good))
  ]

  pub Fenced-destroy :
      (s : RpcServer) (a : Answers) (now : ℕ) (req : Request)
      → Fenced now req s (handle_destroy codec s a now req).1
  unfolding handle_destroy note
  Fenced-destroy s a now req = elim (Checked-cases (prepare_destroy codec s now req)) [
    | inl (n, why, bad) ↦ rw (bad, handle_destroy) (inl refl)
    | inr ((params, p), good) ↦
        let (parsed, holds) = prepare_destroy-go s now req params p good in
        let runtime = runtime_of params.runtime_id params.sandbox_id in
        rw (good, handle_destroy) (inr (destroyed p runtime, refl, (params, parsed, refl, holds)))
  ]

  pub Fenced-renewal :
      (s : RpcServer) (a : Answers) (now : ℕ) (req : Request)
      → Fenced now req s (handle_renew_lease codec s a now req).1
  unfolding handle_renew_lease note
  Fenced-renewal s a now req = elim (Checked-cases (prepare_renewal codec s now req)) [
    | inl (n, why, bad) ↦ rw (bad, handle_renew_lease) (inl refl)
    | inr (params, good) ↦
        let holds = prepare_renewal-go s now req params good in
        rw (good, handle_renew_lease) (inr (renewed params.resource_id params.ttl, refl, holds))
  ]
