-- ===== src/Worker/Rpc/Draining.antt =====
-- A worker that is shut down spawns nothing more (internal/worker/rpc.go).
use stacyvm.Base.{
  ℕ, suc, String, ◌≡◌, refl, ◌∙◌, inl, inr, true, Option, none, some, List, [], ◌∷◌, arith, eq_iff,
  Option-cases,
}
use stacyvm.Worker.Protocol.{
  Request, Codec, Method, heartbeat, spawn, destroy, status, exec, exec_stream, logs, renew_lease,
  shutdown, unknown, file, method_of, validate_request,
}
use stacyvm.Worker.Rpc.Checks.{
  RpcCall, RpcServer, asked_status, asked_logs, destroyed, executed, streamed, filed, spawned,
  renewed, note,
}
use stacyvm.Worker.Rpc.Handlers.{
  Answers, handle_status, handle_exec, handle_exec_stream, handle_file, handle_logs, handle_destroy,
  handle_renew_lease,
}
use stacyvm.Worker.Rpc.{HttpRequest, authenticate, dispatch, handle_rpc, serve}
use stacyvm.Api.WorkerAuth.{WorkerTokenClaims}

abbrev pub spawns : List RpcCall → ℕ
spawns [] = 0
spawns (spawned provider params ∷ cs) = suc (spawns cs)
spawns (asked_status provider runtime ∷ cs) = spawns cs
spawns (asked_logs provider runtime ∷ cs) = spawns cs
spawns (destroyed provider runtime ∷ cs) = spawns cs
spawns (executed provider runtime params limited ∷ cs) = spawns cs
spawns (streamed provider runtime params limited ∷ cs) = spawns cs
spawns (filed provider runtime m params ∷ cs) = spawns cs
spawns (renewed resource ttl ∷ cs) = spawns cs

-- Draining, with the spawns of `s`.
abbrev Drained : RpcServer → RpcServer → Type 0
Drained s s' = (s'.draining ≡ true) × (spawns s'.calls ≡ spawns s.calls)

module _ (codec : Codec) where
  Drained-dispatch :
      (s : RpcServer) (a : Answers) (http : HttpRequest) (now : ℕ) (req : Request) (m : Method)
      → s.draining ≡ true
      → Drained s (dispatch codec s a http now req m).1
  unfolding dispatch handle_status handle_exec handle_exec_stream handle_file handle_logs
      handle_destroy handle_renew_lease note
  Drained-dispatch s a http now req status h = ground arith
  Drained-dispatch s a http now req exec h = ground arith
  Drained-dispatch s a http now req exec_stream h = ground arith
  Drained-dispatch s a http now req (file m) h = ground arith
  Drained-dispatch s a http now req logs h = ground arith
  Drained-dispatch s a http now req renew_lease h = ground arith
  Drained-dispatch s a http now req spawn h = ground arith
  Drained-dispatch s a http now req destroy h = ground arith
  Drained-dispatch s a http now req shutdown h = (refl, refl)
  Drained-dispatch s a http now req heartbeat h = (h, refl)
  Drained-dispatch s a http now req unknown h = (h, refl)

  module _ (sign : String → String → String) (decode : String → Option WorkerTokenClaims) where
    Drained-handle_rpc :
        (s : RpcServer) (a : Answers) (http : HttpRequest) (now : ℕ)
        → s.draining ≡ true
        → Drained s (handle_rpc codec sign decode s a http now).1
    unfolding handle_rpc
    Drained-handle_rpc s a http now h = elim (Option-cases http.body) [
      | inl garbled ↦ ground arith
      | inr (req, read) ↦ ground (arith, Drained-dispatch s a http now req (method_of req.method) h)
    ]

    serve-Drained :
        (rs : List (Answers × HttpRequest × ℕ)) (s : RpcServer)
        → s.draining ≡ true
        → Drained s (serve codec sign decode rs s)
    unfolding serve
    serve-Drained [] s h = (h, refl)
    serve-Drained ((a, http, now) ∷ rs) s h =
        let (still, same) = Drained-handle_rpc s a http now h in
        let (end, later) = serve-Drained rs (handle_rpc codec sign decode s a http now).1 still in
        (end, later ∙ same)

    after_shutdown :
        (s : RpcServer) (a : Answers) (http : HttpRequest) (now : ℕ) (req : Request)
        → http.is_post ≡ true
        → authenticate sign decode s http now ≡ true
        → http.body ≡ some req
        → req.worker_id ≡ s.worker_id
        → validate_request codec req ≡ none
        → method_of req.method ≡ shutdown
        → (handle_rpc codec sign decode s a http now).1 ≡ record s { draining = true }
    unfolding handle_rpc dispatch
    after_shutdown s a http now req post known read mine fine down =
        ground (arith, eq_iff req.worker_id s.worker_id)

    -- Once an authenticated and well-formed shutdown request for this worker is handled, the worker
    -- is draining for good, and spawns nothing for any requests that follow, in whatever order.
    pub shutdown-Drained :
        (s : RpcServer) (a : Answers) (http : HttpRequest) (now : ℕ) (req : Request)
        → http.is_post ≡ true
        → authenticate sign decode s http now ≡ true
        → http.body ≡ some req
        → req.worker_id ≡ s.worker_id
        → validate_request codec req ≡ none
        → method_of req.method ≡ shutdown
        → (rest : List (Answers × HttpRequest × ℕ))
        → let s' = serve codec sign decode ((a, http, now) ∷ rest) s in
          (s'.draining ≡ true) × (spawns s'.calls ≡ spawns s.calls)
    unfolding serve
    shutdown-Drained s a http now req post known read mine fine down rest =
        rw (after_shutdown s a http now req post known read mine fine down, serve)
          (serve-Drained rest (record s { draining = true }) refl)
