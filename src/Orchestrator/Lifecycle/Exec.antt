-- ===== src/Orchestrator/Lifecycle/Exec.antt =====
-- internal/orchestrator/manager.go: Exec, ExecStream, ConsoleLog and Stats, with their remote forms. What
-- the provider or the worker answers is an argument, and so is the end of the context of a call. A
-- call is noted with the timeout of its context; one that is not positive is no deadline.
mod Steps
mod Accounted
mod Tests
use stacyvm.Base.{
  ℕ, zero, suc, ◌+◌, ◌-◌, ◌*◌, ◌/◌, ◌%◌, ◌^◌, ◌≤◌, ◌<◌, String, ◌≡◌, refl, sym, ap, subst, ◌∙◌, ◌≢◌,
  ◌↔◌, ◌⊎◌, inl, inr, Bool, true, false, not, ◌&&◌, ◌||◌, Option, none, some, List, [], ◌∷◌, ◌++◌,
  map, arith, eq_iff, eq_refl, ltb, leb, ◌==◌, if◌then◌else◌, ltb→lt, lt→ltb, leb→le, ==_iff,
  Bool-cases, Option-cases, length, get_elem?, set, get_or, take, drop, replicate, length-append,
  length-set, take-append-drop, length-take, length-drop, append_assoc_list, drop-set, ℤ, pos,
  negsuc, pos_part, neg_part, sub_ℕ, ◌+ℤ◌, ◌≤ℤ◌, ◌<ℤ◌, ltb_ℤ, leb_ℤ, is_pos, +ℤ_parts, str_eq,
  is_empty, codes, is_space, trim_space, fold, equal_fold, equal_fold_refl, Dict, lookup, insert,
  delete, lookup-insert, lookup-delete, length-insert, length-delete, length-insert_found,
}
use stacyvm.Store.Records.{OwnerQuotaRecord}
use stacyvm.Orchestrator.Events.{EventType}
use stacyvm.Orchestrator.Admission.Quota.{
  OperationalLimits, ManagerError, invalid_input, exec_timeout, operation_failed, Parsed, Result,
  ok, err, resolve_exec_timeout,
}
use stacyvm.Orchestrator.Lifecycle.{
  Sandbox, Settings, World, ExecOptions, ExecLog, ran, remote_ran, logs_read, remote_logs_read,
  stats_read, is_remote_owned_sandbox, resolve_vm_id, note_call, publish, audit, failure_event,
}
use stacyvm.Orchestrator.Lifecycle.Access.{get_sandbox_and_provider}
use stacyvm.Orchestrator.Lifecycle.Paths.{cat}
use stacyvm.Orchestrator.Lifecycle.Files.{remote_runtime}

pub record ExecRequest : Type 0 where
  pub command : String
  pub args : List String
  pub exec_mode : String
  pub env : Dict String
  pub workdir : String
  pub timeout : Parsed

-- validateExecRequest: `none` where the request is good.
unfoldable pub validate_exec_request : ExecRequest → Option ManagerError
validate_exec_request req =
    let how = trim_space req.exec_mode in
    if is_empty how || str_eq how "shell"
    then none
    else if str_eq how "argv"
    then (if is_empty (trim_space req.command)
        then some (invalid_input "argv exec mode requires command")
        else none)
    else some (invalid_input "unsupported exec mode")

-- The directory of a command: in a pool, the sandbox's workspace where none is asked for.
unfoldable pub exec_workdir : Settings → Sandbox → String → ExecRequest → String
unfolding cat
exec_workdir s sb id req =
    if is_empty req.workdir && (not (is_empty sb.vm_id) && not (is_remote_owned_sandbox s sb))
    then cat "/workspace/" id
    else req.workdir

unfoldable pub exec_options : Settings → Sandbox → String → ExecRequest → ExecOptions
unfolding exec_workdir
exec_options s sb id req = record {
  command = req.command;
  args = req.args;
  exec_mode = req.exec_mode;
  env = req.env;
  workdir = exec_workdir s sb id req;
}

-- What a call with a deadline answers; `timed_out` is an error at the deadline.
pub data Answer (A : Type 0) : Type 0 where
  finished : A → Answer A
  timed_out : Answer A
  broken : String → Answer A

-- The call of the provider or of the remote worker (execRemote, execStreamRemote).
unfoldable pub call_exec :
    {A : Type 0} → Settings → Bool → Sandbox → ExecOptions → ℤ → Answer A → World → Answer A × World
unfolding remote_runtime
call_exec s client sb options timeout answer w =
    if is_remote_owned_sandbox s sb
    then (if client
        then (
          answer,
          note_call (remote_ran sb.worker_id sb.id (remote_runtime sb) options timeout) w,
        )
        else (broken "remote worker RPC", w))
    else (answer, note_call (ran (resolve_vm_id sb) options timeout) w)

-- What Exec and ExecStream do first: the sandbox and the timeout of the call.
unfoldable pub admit_exec :
    Settings
    → OperationalLimits
    → Dict OwnerQuotaRecord
    → String
    → ExecRequest
    → World
    → Result (Sandbox × ℤ) × World
unfolding validate_exec_request
admit_exec s limits quotas id req w = elim (validate_exec_request req) [
  | some e ↦ (err e, publish (failure_event e) id w)
  | none ↦ elim (get_sandbox_and_provider s id w) [
    | err e ↦ (err e, publish EventType.exec_failed id w)
    | ok (sb, provider) ↦ elim (resolve_exec_timeout limits quotas req.timeout sb.owner_id) [
      | err e ↦ (err e, publish (failure_event e) id w)
      | ok timeout ↦ (ok (sb, timeout), w)
    ]
  ]
]

-- What a command answers: its exit code, its output and its errors.
abbrev pub Outcome : Type 0
Outcome = ℤ × String × String

unfoldable pub log_exec : String → ExecRequest → Outcome → World → World
log_exec id req (exit_code, stdout, stderr) w = record w {
  exec_logs =
      record {
        sandbox_id = id;
        command = req.command;
        exit_code = exit_code;
        stdout = stdout;
        stderr = stderr;
      }
      ∷ w.exec_logs;
}

unfoldable pub settle_exec : String → ExecRequest → Answer Outcome × World → Result Outcome × World
unfolding log_exec
settle_exec id req (finished out, w) =
    (ok out, audit id true (publish EventType.exec_completed id (log_exec id req out w)))
settle_exec id req (timed_out, w) =
    (err (exec_timeout id), audit id false (publish EventType.exec_timeout id w))
settle_exec id req (broken text, w) =
    (err (operation_failed "exec"), audit id false (publish EventType.exec_failed id w))

unfoldable pub exec :
    Settings
    → OperationalLimits
    → Dict OwnerQuotaRecord
    → Bool
    → String
    → ExecRequest
    → Answer Outcome
    → World
    → Result Outcome × World
unfolding exec_options call_exec settle_exec
exec s limits quotas client id req answer w =
    let admitted = admit_exec s limits quotas id req w in
    elim admitted.0 [
      | err e ↦ (err e, admitted.1)
      | ok (sb, timeout) ↦ settle_exec id req (
          call_exec s client sb (exec_options s sb id req) timeout answer
            (publish EventType.exec_started id admitted.1))
    ]

pub record Chunk : Type 0 where
  pub stream : String
  pub text : String

-- How the context of a stream stands when the last chunk is read: it lasts, its deadline has passed
-- (the caller still reading, or gone), or it is cancelled.
pub data ContextEnd : Type 0 where
  lasting cancelled : ContextEnd
  passed : Bool → ContextEnd

-- The chunks that the goroutine of a stream with a deadline hands on; the flag of a chunk tells that
-- the select statement did not find the context ended.
unfoldable pub handed_on : List (Chunk × Bool) → List Chunk
handed_on [] = []
handed_on ((c, sent) ∷ cs) = let rest = handed_on cs in if sent then c ∷ rest else rest

unfoldable pub interrupted : List (Chunk × Bool) → Bool
interrupted [] = false
interrupted ((c, sent) ∷ cs) = not sent || interrupted cs

unfoldable pub last_words : String → ContextEnd → List Chunk
last_words id lasting = []
last_words id cancelled = []
last_words id (passed false) = []
last_words id (passed true) = record { stream = "stderr"; text = id } ∷ []

unfoldable pub report_end : String → Bool → ContextEnd → World → World
report_end id cut lasting w = w
report_end id cut cancelled w = if cut then publish EventType.exec_failed id w else w
report_end id cut (passed reading) w = publish EventType.exec_timeout id w

-- execStreamRemote hands the errors of the worker on as chunks, after the output.
unfoldable pub remote_chunks : List Chunk → List String → List Chunk
remote_chunks chunks [] = chunks
remote_chunks [] (e ∷ errs) = record { stream = "stderr"; text = e } ∷ remote_chunks [] errs
remote_chunks (c ∷ chunks) (e ∷ errs) = c ∷ remote_chunks chunks (e ∷ errs)

-- The chunks that the caller of ExecStream reads.
unfoldable pub relay : String → ℤ → ContextEnd → List (Chunk × Bool) → World → List Chunk × World
unfolding handed_on interrupted last_words report_end
relay id timeout end chunks w =
    if is_pos timeout
    then (handed_on chunks ++ last_words id end, report_end id (interrupted chunks) end w)
    else (map (λ c. c.0) chunks, w)

unfoldable pub settle_stream :
    String → ℤ → ContextEnd → Answer (List (Chunk × Bool)) × World → Result (List Chunk) × World
unfolding relay
settle_stream id timeout end (finished chunks, w) =
    let read = relay id timeout end chunks w in (ok read.0, read.1)
settle_stream id timeout end (timed_out, w) =
    (err (exec_timeout id), publish EventType.exec_timeout id w)
settle_stream id timeout end (broken text, w) =
    (err (operation_failed "exec stream"), publish EventType.exec_failed id w)

unfoldable pub exec_stream :
    Settings
    → OperationalLimits
    → Dict OwnerQuotaRecord
    → Bool
    → String
    → ExecRequest
    → ContextEnd
    → Answer (List (Chunk × Bool))
    → World
    → Result (List Chunk) × World
unfolding exec_options call_exec settle_stream
exec_stream s limits quotas client id req end answer w =
    let admitted = admit_exec s limits quotas id req w in
    elim admitted.0 [
      | err e ↦ (err e, admitted.1)
      | ok (sb, timeout) ↦
          settle_stream id timeout end
            (call_exec s client sb (exec_options s sb id req) timeout answer admitted.1)
    ]

-- ConsoleLog and remoteConsoleLog.
unfoldable pub console_log :
    Settings → Bool → String → ℤ → Result (List String) → World → Result (List String) × World
unfolding remote_runtime
console_log s client id lines answer w = elim (get_sandbox_and_provider s id w) [
  | err e ↦ (err e, w)
  | ok (sb, provider) ↦
      if is_remote_owned_sandbox s sb
      then (if client
          then (answer, note_call (remote_logs_read sb.worker_id sb.id (remote_runtime sb) lines) w)
          else (err (operation_failed "remote worker RPC"), w))
      else (answer, note_call (logs_read (resolve_vm_id sb) lines) w)
]

-- Stats: `none` for a remote sandbox, and where the provider has no reporter.
unfoldable pub sandbox_stats :
    {A : Type 0} → Settings → Bool → String → Result A → World → Result (Option A) × World
sandbox_stats s reports id answer w = elim (get_sandbox_and_provider s id w) [
  | err e ↦ (err e, w)
  | ok (sb, provider) ↦ if is_remote_owned_sandbox s sb || not reports then (ok none, w) else (
    elim answer [ err e ↦ err e | ok a ↦ ok (some a) ],
    note_call (stats_read (resolve_vm_id sb)) w,
  )
]
