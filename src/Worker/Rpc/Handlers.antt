-- ===== src/Worker/Rpc/Handlers.antt =====
-- internal/worker/rpc.go: a handler for each method.
use stacyvm.Base.{
  ℕ, String, Bool, false, Option, none, some, List, if◌then◌else◌, ℤ, is_pos, is_empty, trim_space,
  equal_fold,
}
use stacyvm.Worker.Protocol.{
  LeaseToken, Request, SpawnParams, ExecParams, FileParams, Codec, FileMethod, file_write,
  file_read, file_list, file_delete, file_move, file_chmod, file_stat, file_glob,
}
use stacyvm.Worker.Rpc.Checks.{
  RpcServer, FileInfo, RpcResult, no_result, status_result, exec_result, stream_result,
  ndjson_result, read_result, list_result, stat_result, names_result, spawn_result, lease_result,
  Reply, failure, respond, note, asked_status, asked_logs, destroyed, executed, streamed, filed,
  spawned, renewed, stop, go, Answered, answered, not_found, failed, prepare, prepare_spawn,
  prepare_destroy, prepare_renewal, runtime_of,
}

-- What the provider and the renewer answer. A command answers its exit code, output and errors;
-- `interrupted` tells that the context of a stream has ended.
pub record Answers : Type 0 where
  pub status : Answered String
  pub exec : Answered (ℤ × String × String)
  pub stream : Answered (List (String × String))
  pub interrupted : Bool
  pub read : Answered (List ℕ)
  pub list : Answered (List FileInfo)
  pub stat : Answered FileInfo
  pub glob : Answered (List String)
  pub change : Answered (Unit {0})
  pub logs : Answered (List String)
  pub spawn : Answered String
  pub destroy : Answered (Unit {0})
  pub renew : Option LeaseToken

-- The reply to what a provider has answered.
unfoldable pub reply_of : {A : Type 0} → Answered A → (A → RpcResult) → RpcServer → Request → Reply
reply_of (answered a) f s req = respond (f a) s req
reply_of not_found f s req = failure 404 "sandbox not found" s req
reply_of (failed text) f s req = failure 500 text s req

module _ (codec : Codec) where
  unfoldable pub handle_status : RpcServer → Answers → Request → Reply × RpcServer
  handle_status s a req = elim (prepare (codec.status req.params) (λ p. p.provider) s) [
    | stop n text ↦ (failure n text s req, s)
    | go (params, provider) ↦ (
      reply_of a.status (λ state. status_result params.sandbox_id state provider) s req,
      note (asked_status provider (runtime_of params.runtime_id params.sandbox_id)) s,
    )
  ]

  -- Whether a command runs under a deadline; `none` where the timeout is malformed.
  unfoldable pub deadline : ExecParams → Option Bool
  deadline params =
      if is_empty (trim_space params.timeout)
      then some false
      else elim (codec.duration params.timeout) [ none ↦ none | some d ↦ some (is_pos d) ]

  unfoldable pub handle_exec : RpcServer → Answers → Request → Reply × RpcServer
  handle_exec s a req = elim (prepare (codec.exec req.params) (λ p. p.provider) s) [
    | stop n text ↦ (failure n text s req, s)
    | go (params, provider) ↦
        let runtime = runtime_of params.runtime_id params.sandbox_id in
        elim (deadline params) [
          | none ↦ (failure 400 "invalid timeout" s req, s)
          | some limited ↦ (
            reply_of a.exec (λ (x, out, errs). exec_result params.sandbox_id x out errs) s req,
            note (executed provider runtime params limited) s,
          )
        ]
  ]

  -- The reply to a stream that was opened.
  unfoldable pub stream_reply :
      Answers → String → ExecParams → List (String × String) → RpcServer → Request → Reply
  stream_reply a header params chunks s req =
      if equal_fold header "ndjson"
      then respond (ndjson_result chunks a.interrupted) s req
      else if a.interrupted
      then failure 504 "context ended" s req
      else respond (stream_result params.sandbox_id chunks) s req

  unfoldable pub opened_reply :
      Answers
      → String
      → ExecParams
      → Answered (List (String × String))
      → RpcServer
      → Request
      → Reply
  unfolding stream_reply
  opened_reply a header params (answered chunks) s req = stream_reply a header params chunks s req
  opened_reply a header params not_found s req = failure 404 "sandbox not found" s req
  opened_reply a header params (failed text) s req = failure 500 text s req

  unfoldable pub handle_exec_stream : RpcServer → Answers → String → Request → Reply × RpcServer
  handle_exec_stream s a header req = elim (prepare (codec.exec req.params) (λ p. p.provider) s) [
    | stop n text ↦ (failure n text s req, s)
    | go (params, provider) ↦
        let runtime = runtime_of params.runtime_id params.sandbox_id in
        elim (deadline params) [
          | none ↦ (failure 400 "invalid timeout" s req, s)
          | some limited ↦ (
            opened_reply a header params a.stream s req,
            note (streamed provider runtime params limited) s,
          )
        ]
  ]

  -- runFileOperation, and the reply to it.
  unfoldable pub run_file_operation :
      Answers → FileMethod → FileParams → RpcServer → Request → Reply
  unfolding reply_of
  run_file_operation a file_write params s req = reply_of a.change (λ u. no_result) s req
  run_file_operation a file_read params s req =
      reply_of a.read (read_result params.sandbox_id) s req
  run_file_operation a file_list params s req =
      reply_of a.list (list_result params.sandbox_id) s req
  run_file_operation a file_delete params s req = reply_of a.change (λ u. no_result) s req
  run_file_operation a file_move params s req = reply_of a.change (λ u. no_result) s req
  run_file_operation a file_chmod params s req = reply_of a.change (λ u. no_result) s req
  run_file_operation a file_stat params s req =
      reply_of a.stat (stat_result params.sandbox_id) s req
  run_file_operation a file_glob params s req =
      reply_of a.glob (names_result params.sandbox_id) s req

  unfoldable pub handle_file : RpcServer → Answers → FileMethod → Request → Reply × RpcServer
  handle_file s a m req = elim (prepare (codec.file req.params) (λ p. p.provider) s) [
    | stop n text ↦ (failure n text s req, s)
    | go (params, provider) ↦ (
      run_file_operation a m params s req,
      note (filed provider (runtime_of params.runtime_id params.sandbox_id) m params) s,
    )
  ]

  unfoldable pub handle_logs : RpcServer → Answers → Request → Reply × RpcServer
  handle_logs s a req = elim (prepare (codec.logs req.params) (λ p. p.provider) s) [
    | stop n text ↦ (failure n text s req, s)
    | go (params, provider) ↦ (
      reply_of a.logs (names_result params.sandbox_id) s req,
      note (asked_logs provider (runtime_of params.runtime_id params.sandbox_id)) s,
    )
  ]

  -- A spawn that fails is an internal error, whatever the error is.
  unfoldable pub spawn_reply : Answered String → SpawnParams → String → RpcServer → Request → Reply
  spawn_reply (answered runtime) params provider s req =
      respond (spawn_result params.sandbox_id runtime "running" provider params.metadata) s req
  spawn_reply not_found params provider s req = failure 500 "sandbox not found" s req
  spawn_reply (failed text) params provider s req = failure 500 text s req

  unfoldable pub handle_spawn : RpcServer → Answers → ℕ → Request → Reply × RpcServer
  handle_spawn s a now req = elim (prepare_spawn codec s now req) [
    | stop n text ↦ (failure n text s req, s)
    | go (params, provider) ↦
        (spawn_reply a.spawn params provider s req, note (spawned provider params) s)
  ]

  -- A runtime that is not there any more is as good as destroyed.
  unfoldable pub destroy_reply : Answered (Unit {0}) → RpcServer → Request → Reply
  destroy_reply (answered u) s req = respond no_result s req
  destroy_reply not_found s req = respond no_result s req
  destroy_reply (failed text) s req = failure 500 text s req

  unfoldable pub handle_destroy : RpcServer → Answers → ℕ → Request → Reply × RpcServer
  handle_destroy s a now req = elim (prepare_destroy codec s now req) [
    | stop n text ↦ (failure n text s req, s)
    | go (params, provider) ↦ (
      destroy_reply a.destroy s req,
      note (destroyed provider (runtime_of params.runtime_id params.sandbox_id)) s,
    )
  ]

  unfoldable pub handle_renew_lease : RpcServer → Answers → ℕ → Request → Reply × RpcServer
  handle_renew_lease s a now req = elim (prepare_renewal codec s now req) [
    | stop n text ↦ (failure n text s req, s)
    | go params ↦ (
      elim a.renew [
        | none ↦ failure 409 "renewing lease" s req
        | some token ↦ respond (lease_result token) s req
      ],
      note (renewed params.resource_id params.ttl) s,
    )
  ]
