-- ===== src/Worker/Rpc.antt =====
-- internal/worker/rpc.go: the server of a worker. A handler answers a reply and the server after it;
-- the calls that reach a provider or the lease renewer are noted, newest first. What these answer is
-- an argument, and so are the signature and the decoding of tokens and of JSON.
pub mod Checks
pub mod Handlers
mod Access
mod Leased
mod Fencing
mod Draining
mod Tests
use stacyvm.Base.{
  ℕ, zero, suc, ◌+◌, ◌-◌, ◌*◌, ◌/◌, ◌%◌, ◌^◌, ◌≤◌, ◌<◌, String, ◌≡◌, refl, sym, ap, subst, ◌∙◌, ◌≢◌,
  ◌↔◌, ◌⊎◌, inl, inr, Bool, true, false, not, ◌&&◌, ◌||◌, Option, none, some, List, [], ◌∷◌, ◌++◌,
  map, arith, eq_iff, eq_refl, ltb, leb, ◌==◌, if◌then◌else◌, ltb→lt, lt→ltb, leb→le, ==_iff,
  Bool-cases, Option-cases, length, get_elem?, set, get_or, take, drop, replicate, length-append,
  length-set, take-append-drop, length-take, length-drop, append_assoc_list, drop-set, ℤ, pos,
  negsuc, pos_part, neg_part, sub_ℕ, ◌+ℤ◌, ◌≤ℤ◌, ◌<ℤ◌, ltb_ℤ, leb_ℤ, is_pos, +ℤ_parts, str_eq,
  is_empty, codes, is_space, trim_space, fold, equal_fold, equal_fold_refl, Dict, lookup, insert,
  delete, lookup-insert, lookup-delete, length-insert, length-delete, length-insert_found,
}
use Prim.Native.Char.{code}
use Prim.Native.String
use stacyvm.Api.WorkerAuth.{WorkerTokenClaims, verify_worker_token_for_audience}
use stacyvm.Worker.Protocol.{
  Request, Codec, Method, heartbeat, spawn, destroy, status, exec, exec_stream, logs, renew_lease,
  shutdown, unknown, file, method_of, validate_request,
}
use stacyvm.Worker.Rpc.Checks.{RpcServer, Reply, refusal, respond, no_result, failure}
use stacyvm.Worker.Rpc.Handlers.{
  Answers, handle_status, handle_exec, handle_exec_stream, handle_file, handle_logs, handle_spawn,
  handle_destroy, handle_renew_lease,
}

-- What of an HTTP request is read: its method, the headers, and the decoded body.
pub record HttpRequest : Type 0 where
  pub is_post : Bool
  pub worker_id : String
  pub worker_token : String
  pub authorization : String
  pub stream : String
  pub body : Option Request

abbrev pub worker_token_audience_rpc : String
worker_token_audience_rpc = "worker:rpc"

-- strings.TrimPrefix: the rest of the text, where it has the prefix.
unfoldable pub drop_prefix : String → String → Option String
drop_prefix String.[] s = some s
drop_prefix (String.◌∷◌ c p) String.[] = none
drop_prefix (String.◌∷◌ c p) (String.◌∷◌ d s) =
    let rest = drop_prefix p s in if code c == code d then rest else none

unfoldable pub trim_prefix : String → String → String
unfolding drop_prefix
trim_prefix p s = elim (drop_prefix p s) [ none ↦ s | some rest ↦ rest ]

unfoldable pub listed_trimmed : String → List String → Bool
listed_trimmed x [] = false
listed_trimmed x (y ∷ ys) = str_eq (trim_space y) x || listed_trimmed x ys

unfoldable pub worker_token_revoked : WorkerTokenClaims → List String → Bool
unfolding listed_trimmed
worker_token_revoked c revoked = not (is_empty c.token_id) && listed_trimmed c.token_id revoked

unfoldable pub presented_token : HttpRequest → String
unfolding trim_prefix
presented_token r =
    if is_empty r.worker_token then trim_prefix "Bearer " r.authorization else r.worker_token

module _ (sign : String → String → String) (decode : String → Option WorkerTokenClaims) where
  -- The loop of authenticate over the signing keys.
  unfoldable pub signed_by_any : RpcServer → String → ℕ → List String → Bool
  signed_by_any s token now [] = false
  signed_by_any s token now (key ∷ keys) =
      elim (verify_worker_token_for_audience sign decode key token worker_token_audience_rpc now) [
        | none ↦ false
        | some c ↦
            str_eq c.worker_id (trim_space s.worker_id)
            && not (worker_token_revoked c s.revoked_token_ids)
      ]
      || signed_by_any s token now keys

  unfoldable pub authenticate : RpcServer → HttpRequest → ℕ → Bool
  unfolding presented_token
  authenticate s r now =
      let token = presented_token r in
      let static_token = trim_space s.token in
      if is_empty (trim_space s.worker_id)
      then false
      else if not (str_eq r.worker_id (trim_space s.worker_id))
      then false
      else if is_empty token
      then false
      else (not (is_empty static_token) && str_eq token static_token)
        || signed_by_any s token now (s.signing_key ∷ s.signing_keys)

module _ (codec : Codec) where
  -- The switch of handleRPC.
  unfoldable pub dispatch :
      RpcServer → Answers → HttpRequest → ℕ → Request → Method → Reply × RpcServer
  dispatch s a http now req status = handle_status codec s a req
  dispatch s a http now req exec = handle_exec codec s a req
  dispatch s a http now req exec_stream = handle_exec_stream codec s a http.stream req
  dispatch s a http now req (file m) = handle_file codec s a m req
  dispatch s a http now req logs = handle_logs codec s a req
  dispatch s a http now req renew_lease = handle_renew_lease codec s a now req
  dispatch s a http now req spawn =
      if s.draining
      then (failure 503 "worker is draining" s req, s)
      else handle_spawn codec s a now req
  dispatch s a http now req destroy = handle_destroy codec s a now req
  dispatch s a http now req shutdown = (respond no_result s req, record s { draining = true })
  dispatch s a http now req heartbeat =
      (failure 501 "worker RPC method is not implemented by this worker runtime" s req, s)
  dispatch s a http now req unknown =
      (failure 501 "worker RPC method is not implemented by this worker runtime" s req, s)

  module _ (sign : String → String → String) (decode : String → Option WorkerTokenClaims) where
    unfoldable pub handle_rpc : RpcServer → Answers → HttpRequest → ℕ → Reply × RpcServer
    handle_rpc s a http now =
        if not http.is_post
        then (refusal 405 "method not allowed", s)
        else if not (authenticate sign decode s http now)
        then (refusal 401 "invalid or missing worker RPC credentials", s)
        else elim http.body [
          | none ↦ (refusal 400 "invalid worker RPC request", s)
          | some req ↦
              if not (str_eq req.worker_id s.worker_id)
              then (refusal 403 "worker RPC request targets a different worker", s)
              else elim (validate_request codec req) [
                | some e ↦ (failure 400 "invalid worker message" s req, s)
                | none ↦ dispatch s a http now req (method_of req.method)
              ]
        ]

    -- Requests in the order in which they are handled, each with its answers and its time.
    unfoldable pub serve : List (Answers × HttpRequest × ℕ) → RpcServer → RpcServer
    unfolding handle_rpc
    serve [] s = s
    serve ((a, http, now) ∷ rest) s = serve rest (handle_rpc s a http now).1
