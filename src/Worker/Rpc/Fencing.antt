-- ===== src/Worker/Rpc/Fencing.antt =====
-- What stands behind each call that a worker makes for a request (internal/worker/rpc.go).
use stacyvm.Base.{
  ℕ, String, ◌≡◌, refl, ◌⊎◌, inl, inr, Bool, true, false, not, Option, none, some, ◌∷◌, eq_iff,
  if◌then◌else◌, Bool-cases, Option-cases, str_eq,
}
use stacyvm.Worker.Protocol.{
  Request, Codec, Method, FileMethod, heartbeat, spawn, destroy, status, exec, exec_stream, logs,
  renew_lease, shutdown, unknown, file, method_of, validate_request,
}
use stacyvm.Worker.Rpc.Checks.{RpcCall, RpcServer, Reply, note, Checked-cases, prepare}
use stacyvm.Worker.Rpc.Handlers.{
  Answers, deadline, handle_status, handle_exec, handle_exec_stream, handle_file, handle_logs,
  handle_spawn,
}
use stacyvm.Api.WorkerAuth.{WorkerTokenClaims}
use stacyvm.Worker.Rpc.{HttpRequest, authenticate, dispatch, handle_rpc}
use stacyvm.Worker.Rpc.Leased.{Covered, Fenced, Fenced-spawn, Fenced-destroy, Fenced-renewal}

module _ (codec : Codec) where
  -- The handlers that need no lease.
  Fenced-asked :
      (s : RpcServer) (a : Answers) (now : ℕ) (req : Request)
      → Fenced codec now req s (handle_status codec s a req).1
        × Fenced codec now req s (handle_logs codec s a req).1
        × ((m : FileMethod) → Fenced codec now req s (handle_file codec s a m req).1)
  unfolding handle_status handle_logs handle_file note
  Fenced-asked s a now req = (
    elim (Checked-cases (prepare (codec.status req.params) (λ p. p.provider) s)) [
      | inl (n, why, bad) ↦ rw (bad, handle_status) (inl refl)
      | inr ((params, p), good) ↦ rw (good, handle_status) (inr (_, refl, tt))
    ],
    elim (Checked-cases (prepare (codec.logs req.params) (λ p. p.provider) s)) [
      | inl (n, why, bad) ↦ rw (bad, handle_logs) (inl refl)
      | inr ((params, p), good) ↦ rw (good, handle_logs) (inr (_, refl, tt))
    ],
    λ m. elim (Checked-cases (prepare (codec.file req.params) (λ p. p.provider) s)) [
      | inl (n, why, bad) ↦ rw (bad, handle_file) (inl refl)
      | inr ((params, p), good) ↦ rw (good, handle_file) (inr (_, refl, tt))
    ],
  )

  Fenced-exec :
      (s : RpcServer) (a : Answers) (now : ℕ) (req : Request)
      → Fenced codec now req s (handle_exec codec s a req).1
  unfolding handle_exec note
  Fenced-exec s a now req =
      elim (Checked-cases (prepare (codec.exec req.params) (λ p. p.provider) s)) [
        | inl (n, why, bad) ↦ rw (bad, handle_exec) (inl refl)
        | inr ((params, p), good) ↦ elim (Option-cases (deadline codec params)) [
          | inl odd ↦ rw (good, odd, handle_exec) (inl refl)
          | inr (limited, fine) ↦ rw (good, fine, handle_exec) (inr (_, refl, tt))
        ]
      ]

  Fenced-stream :
      (s : RpcServer) (a : Answers) (header : String) (now : ℕ) (req : Request)
      → Fenced codec now req s (handle_exec_stream codec s a header req).1
  unfolding handle_exec_stream note
  Fenced-stream s a header now req =
      elim (Checked-cases (prepare (codec.exec req.params) (λ p. p.provider) s)) [
        | inl (n, why, bad) ↦ rw (bad, handle_exec_stream) (inl refl)
        | inr ((params, p), good) ↦ elim (Option-cases (deadline codec params)) [
          | inl odd ↦ rw (good, odd, handle_exec_stream) (inl refl)
          | inr (limited, fine) ↦ rw (good, fine, handle_exec_stream) (inr (_, refl, tt))
        ]
      ]

  Fenced-guarded :
      (s : RpcServer) (a : Answers) (now : ℕ) (req : Request) (reply : Reply) (b : Bool)
      → Fenced codec now req s (if b then (reply, s) else handle_spawn codec s a now req).1
  Fenced-guarded s a now req reply true = inl refl
  Fenced-guarded s a now req reply false = Fenced-spawn codec s a now req

  Fenced-dispatch :
      (s : RpcServer) (a : Answers) (http : HttpRequest) (now : ℕ) (req : Request) (m : Method)
      → Fenced codec now req s (dispatch codec s a http now req m).1
  unfolding dispatch
  Fenced-dispatch s a http now req status = (Fenced-asked s a now req).0
  Fenced-dispatch s a http now req exec = Fenced-exec s a now req
  Fenced-dispatch s a http now req exec_stream = Fenced-stream s a http.stream now req
  Fenced-dispatch s a http now req (file m) = (Fenced-asked s a now req).2 m
  Fenced-dispatch s a http now req logs = (Fenced-asked s a now req).1
  Fenced-dispatch s a http now req renew_lease = Fenced-renewal codec s a now req
  Fenced-dispatch s a http now req spawn = Fenced-guarded s a now req _ s.draining
  Fenced-dispatch s a http now req destroy = Fenced-destroy codec s a now req
  Fenced-dispatch s a http now req shutdown = inl refl
  Fenced-dispatch s a http now req heartbeat = inl refl
  Fenced-dispatch s a http now req unknown = inl refl

  module _ (sign : String → String → String) (decode : String → Option WorkerTokenClaims) where
    -- The worker calls a provider or the lease renewer for a request at most once, and only if the
    -- request is authenticated, is addressed to this worker and passes the tests on messages. A call
    -- that spawns, destroys or renews moreover has a lease of the request behind it: one on the
    -- resource that its parameters name, held by this worker and not expired.
    pub handle_rpc-Covered :
        (s : RpcServer) (a : Answers) (http : HttpRequest) (now : ℕ)
        → let s' = (handle_rpc codec sign decode s a http now).1 in
          (s'.calls ≡ s.calls)
          ⊎ ((c : RpcCall) × (req : Request) × (s'.calls ≡ c ∷ s.calls)
              × (authenticate sign decode s http now ≡ true)
              × (http.body ≡ some req)
              × (req.worker_id ≡ s.worker_id)
              × (validate_request codec req ≡ none)
              × Covered codec s.worker_id now req c)
    unfolding handle_rpc
    handle_rpc-Covered s a http now = elim (Bool-cases (not http.is_post)) [
      | inl odd ↦ rw (odd) (inl refl)
      | inr post ↦ elim (Bool-cases (authenticate sign decode s http now)) [
        | inr stranger ↦ rw (post, stranger) (inl refl)
        | inl known ↦ elim (Option-cases http.body) [
          | inl garbled ↦ rw (post, known, garbled) (inl refl)
          | inr (req, read) ↦ elim (Bool-cases (str_eq req.worker_id s.worker_id)) [
            | inr elsewhere ↦ rw (post, known, read, elsewhere) (inl refl)
            | inl here ↦ elim (Option-cases (validate_request codec req)) [
              | inr (e, bad) ↦ rw (post, known, read, here, bad) (inl refl)
              | inl fine ↦
                  let mine = (eq_iff req.worker_id s.worker_id).0 here in
                  rw (post, known, read, here, fine)
                    (elim (Fenced-dispatch s a http now req (method_of req.method)) [
                      | inl same ↦ inl same
                      | inr (c, made, covered) ↦ inr (c, req, made, refl, refl, mine, fine, covered)
                    ])
            ]
          ]
        ]
      ]
    ]
