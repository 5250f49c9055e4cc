-- ===== src/Orchestrator/Lifecycle/Files.antt =====
-- internal/orchestrator/manager.go: the operations on files (WriteFile to GlobFiles), each with its
-- remote form. What the provider or the worker answers is an argument; metrics are left out.
mod Confined
mod Tests
use stacyvm.Base.{
  ℕ, zero, suc, ◌+◌, ◌-◌, ◌*◌, ◌/◌, ◌%◌, ◌^◌, ◌≤◌, ◌<◌, String, ◌≡◌, refl, sym, ap, subst, ◌∙◌, ◌≢◌,
  ◌↔◌, ◌⊎◌, inl, inr, Bool, true, false, not, ◌&&◌, ◌||◌, Option, none, some, List, [], ◌∷◌, ◌++◌,
  map, arith, eq_iff, eq_refl, ltb, leb, ◌==◌, if◌then◌else◌, ltb→lt, lt→ltb, leb→le, ==_iff,
  Bool-cases, Option-cases, length, get_elem?, set, get_or, take, drop, replicate, length-append,
  length-set, take-append-drop, length-take, length-drop, append_assoc_list, drop-set, ℤ, pos,
  negsuc, pos_part, neg_part, sub_ℕ, ◌+ℤ◌, ◌≤ℤ◌, ◌<ℤ◌, ltb_ℤ, leb_ℤ, is_pos, +ℤ_parts, str_eq,
  is_empty, codes, is_space, trim_space, fold, equal_fold, equal_fold_refl, Dict, lookup, insert,
  delete, lookup-insert, lookup-delete, length-insert, length-delete, length-insert_found,
}
use stacyvm.Orchestrator.Events.{EventType}
use stacyvm.Orchestrator.Admission.Quota.{ManagerError, operation_failed, Result, ok, err}
use stacyvm.Worker.Rpc.Checks.{FileInfo}
use stacyvm.Orchestrator.Lifecycle.{
  Sandbox, Settings, World, FileAction, write_to, read_from, list_in, stat_of, glob_by, delete_at,
  move_to, chmod_at, filed, remote_filed, is_remote_owned_sandbox, resolve_vm_id, note_call,
  publish, audit,
}
use stacyvm.Orchestrator.Lifecycle.Access.{get_sandbox_and_provider}
use stacyvm.Orchestrator.Lifecycle.Paths.{scoped_path_for_operation}

-- What an operation fails with after the sandbox is found: the event and the audit.
unfoldable pub fail_operation : String → World → World
fail_operation id w = audit id false (publish EventType.operation_failed id w)

-- The runtime that a remote worker is told of.
unfoldable pub remote_runtime : Sandbox → String
remote_runtime sb = if is_empty (trim_space sb.vm_id) then sb.id else trim_space sb.vm_id

-- The call of the provider, or of the remote worker where there is a client for it.
unfoldable pub call_files :
    {A : Type 0} → Settings → Bool → Sandbox → FileAction → Result A → World → Result A × World
unfolding remote_runtime note_call
call_files s client sb action answer w =
    if is_remote_owned_sandbox s sb
    then (if client
        then (answer, note_call (remote_filed sb.worker_id sb.id (remote_runtime sb) action) w)
        else (err (operation_failed "remote worker RPC"), w))
    else (answer, note_call (filed (resolve_vm_id sb) action) w)

-- The end of an operation: `report` publishes what a success is reported by.
unfoldable pub settle :
    {A : Type 0} → String → (World → World) → Result A × World → Result A × World
unfolding fail_operation
settle id report (ok a, w) = (ok a, audit id true (report w))
settle id report (err e, w) = (err e, fail_operation id w)

-- What the operations share: the sandbox, its paths, the call, and the end.
unfoldable pub file_operation :
    {A : Type 0}
    → Settings
    → Bool
    → String
    → (Sandbox → Result FileAction)
    → (World → World)
    → Result A
    → World
    → Result A × World
unfolding call_files settle fail_operation
file_operation s client id scope report answer w = elim (get_sandbox_and_provider s id w) [
  | err e ↦ (err e, publish EventType.operation_failed id w)
  | ok (sb, provider) ↦ elim (scope sb) [
    | err e ↦ (err e, fail_operation id w)
    | ok action ↦ settle id report (call_files s client sb action answer w)
  ]
]

-- A scoped path, and the action on it.
unfoldable pub scoped : Settings → String → (String → FileAction) → Sandbox → Result FileAction
scoped s path f sb = elim (scoped_path_for_operation s sb path) [ err e ↦ err e | ok p ↦ ok (f p) ]

-- MoveFile scopes the old path, then the new one.
unfoldable pub scoped_move : Settings → String → String → Sandbox → Result FileAction
unfolding scoped
scoped_move s old_path new_path sb = elim (scoped_path_for_operation s sb old_path) [
  | err e ↦ err e
  | ok p ↦ scoped s new_path (move_to p) sb
]

abbrev quietly : World → World
quietly w = w

module _ (s : Settings) (client : Bool) (id : String) where
  unfoldable pub write_file :
      String → String → String → Result (Unit {0}) → World → Result (Unit {0}) × World
  unfolding scoped file_operation
  write_file path content file_mode answer w =
      let how = if is_empty file_mode then "0644" else file_mode in
      file_operation s client id (scoped s path (λ p. write_to p content how))
        (publish EventType.file_written id) answer w

  unfoldable pub list_files :
      String → Result (List FileInfo) → World → Result (List FileInfo) × World
  unfolding scoped file_operation
  list_files path answer w = file_operation s client id (scoped s path list_in) quietly answer w

  unfoldable pub delete_file : String → Bool → Result (Unit {0}) → World → Result (Unit {0}) × World
  unfolding scoped file_operation
  delete_file path recursive answer w =
      file_operation s client id (scoped s path (λ p. delete_at p recursive)) quietly answer w

  unfoldable pub move_file : String → String → Result (Unit {0}) → World → Result (Unit {0}) × World
  unfolding scoped_move file_operation
  move_file old_path new_path answer w =
      file_operation s client id (scoped_move s old_path new_path) quietly answer w

  unfoldable pub chmod_file :
      String → String → Result (Unit {0}) → World → Result (Unit {0}) × World
  unfolding scoped file_operation
  chmod_file path file_mode answer w =
      file_operation s client id (scoped s path (λ p. chmod_at p file_mode)) quietly answer w

  unfoldable pub stat_file : String → Result FileInfo → World → Result FileInfo × World
  unfolding scoped file_operation
  stat_file path answer w = file_operation s client id (scoped s path stat_of) quietly answer w

  unfoldable pub glob_files : String → Result (List String) → World → Result (List String) × World
  unfolding scoped file_operation
  glob_files pattern answer w =
      file_operation s client id (scoped s pattern glob_by) quietly answer w

  -- The end of ReadFile, on whether the content of an opened file can be read: if it cannot, the
  -- failure is published and not audited.
  unfoldable pub settle_read : Bool → Result (List ℕ) × World → Result (List ℕ) × World
  unfolding settle
  settle_read readable (err e, w) = settle id quietly (err e, w)
  settle_read readable (ok content, w) =
      if readable
      then settle id (publish EventType.file_read id) (ok content, w)
      else (err (operation_failed "reading file content"), publish EventType.operation_failed id w)

  unfoldable pub read_file : String → Bool → Result (List ℕ) → World → Result (List ℕ) × World
  unfolding scoped settle_read call_files fail_operation
  read_file path readable answer w = elim (get_sandbox_and_provider s id w) [
    | err e ↦ (err e, publish EventType.operation_failed id w)
    | ok (sb, provider) ↦ elim (scoped s path read_from sb) [
      | err e ↦ (err e, fail_operation id w)
      | ok action ↦
          settle_read (readable || is_remote_owned_sandbox s sb)
            (call_files s client sb action answer w)
    ]
  ]
