-- ===== src/Orchestrator/Lifecycle/Files/Confined.antt =====
-- The operations on the files of a pooled sandbox stay in its workspace (manager.go).
use stacyvm.Base.{
  ℕ, String, ◌≡◌, refl, sym, ap, subst, ◌∙◌, ◌≢◌, ◌⊎◌, inl, inr, Bool, true, false, List, [], ◌∷◌,
  arith, is_empty, codes,
}
use stacyvm.Orchestrator.Admission.Quota.{ManagerError, Result, ok, err}
use stacyvm.Worker.Rpc.Checks.{FileInfo}
use stacyvm.Orchestrator.Lifecycle.{
  Sandbox, Settings, World, FileAction, write_to, read_from, list_in, stat_of, glob_by, delete_at,
  move_to, chmod_at, filed, is_remote_owned_sandbox, resolve_vm_id, note_call, publish, audit,
}
use stacyvm.Orchestrator.Lifecycle.Access.{get_sandbox_and_provider}
use stacyvm.Orchestrator.Lifecycle.Leasing.{Result-cases}
use stacyvm.Orchestrator.Lifecycle.Paths.{scoped_path_for_operation}
use stacyvm.Orchestrator.Lifecycle.Paths.Scoped.{
  has_slash, Absolute, scoped_path_for_operation-inside,
}
use stacyvm.Orchestrator.Lifecycle.Paths.Workspaces.{InWorkspace, workspaces_disjoint}
use stacyvm.Orchestrator.Lifecycle.Files.{
  fail_operation, call_files, settle, file_operation, scoped, scoped_move, write_file, list_files,
  delete_file, move_file, chmod_file, stat_file, glob_files, settle_read, read_file,
}

-- A request for an operation, and what the provider answers for each kind.
pub data FileRequest : Type 0 where
  writing : String → String → String → FileRequest
  reading listing statting globbing : String → FileRequest
  deleting : String → Bool → FileRequest
  moving chmodding : String → String → FileRequest

pub record FileAnswers : Type 0 where
  pub change : Result (Unit {0})
  pub content : Result (List ℕ)
  pub readable : Bool
  pub files : Result (List FileInfo)
  pub info : Result FileInfo
  pub names : Result (List String)

abbrev pub serve_file : Settings → Bool → FileAnswers → String → FileRequest → World → World
serve_file s client a id (writing path content how) w =
    (write_file s client id path content how a.change w).1
serve_file s client a id (reading path) w = (read_file s client id path a.readable a.content w).1
serve_file s client a id (listing path) w = (list_files s client id path a.files w).1
serve_file s client a id (statting path) w = (stat_file s client id path a.info w).1
serve_file s client a id (globbing pattern) w = (glob_files s client id pattern a.names w).1
serve_file s client a id (deleting path recursive) w =
    (delete_file s client id path recursive a.change w).1
serve_file s client a id (moving old_path new_path) w =
    (move_file s client id old_path new_path a.change w).1
serve_file s client a id (chmodding path how) w = (chmod_file s client id path how a.change w).1

abbrev pub paths_of : FileAction → List String
paths_of (write_to path content how) = path ∷ []
paths_of (read_from path) = path ∷ []
paths_of (list_in path) = path ∷ []
paths_of (stat_of path) = path ∷ []
paths_of (glob_by path) = path ∷ []
paths_of (delete_at path recursive) = path ∷ []
paths_of (move_to old_path new_path) = old_path ∷ new_path ∷ []
paths_of (chmod_at path how) = path ∷ []

-- Each path is a clean absolute one in the workspace, and in no other sandbox's.
abbrev pub AllInWorkspace : Sandbox → List String → Type 0
AllInWorkspace sb [] = Unit
AllInWorkspace sb (p ∷ ps) = Absolute p × InWorkspace sb p × AllInWorkspace sb ps

-- No path of the list is in the workspace.
abbrev pub NoneInWorkspace : Sandbox → List String → Type 0
NoneInWorkspace sb [] = Unit
NoneInWorkspace sb (p ∷ ps) = ¬ InWorkspace sb p × NoneInWorkspace sb ps

elsewhere :
    (sb other : Sandbox) (ps : List String)
    → has_slash sb.id ≡ false
    → has_slash other.id ≡ false
    → codes sb.id ≢ codes other.id
    → AllInWorkspace sb ps
    → NoneInWorkspace other ps
elsewhere sb other [] flat flat' differ inside = tt
elsewhere sb other (p ∷ ps) flat flat' differ (clean, here, rest) = (
  λ there. differ (workspaces_disjoint sb other p flat flat' here there),
  elsewhere sb other ps flat flat' differ rest,
)

-- No call, or one call on the machine of the sandbox, on paths of its workspace.
abbrev pub Confined : Sandbox → World → World → Type 0
Confined sb w w' =
    (w'.calls ≡ w.calls)
    ⊎ ((action : FileAction) × (w'.calls ≡ filed sb.vm_id action ∷ w.calls)
        × AllInWorkspace sb (paths_of action))

err-ok : {A : Type 0} {e : ManagerError} {a : A} → err e ≡ ok a → ⊥
err-ok e = ground arith

module _ (s : Settings) (client : Bool) (sb : Sandbox) (pooled : is_empty sb.vm_id ≡ false)
    (own : is_remote_owned_sandbox s sb ≡ false) where
  scoped-AllInWorkspace :
      (path : String) (f : String → FileAction) (action : FileAction)
      → ((p : String) → paths_of (f p) ≡ p ∷ [])
      → scoped s path f sb ≡ ok action
      → AllInWorkspace sb (paths_of action)
  unfolding scoped
  scoped-AllInWorkspace path f action one e =
      elim (Result-cases (scoped_path_for_operation s sb path)) [
        | inl (why, bad) ↦ absurd (err-ok (rw (bad, scoped) at e))
        | inr (p, good) ↦
            let same : f p ≡ action = ground (arith, rw (good, scoped) at e) in
            let (clean, inside) = scoped_path_for_operation-inside s sb path p pooled own good in
            subst (λ ps. AllInWorkspace sb ps) (sym (one p) ∙ ap paths_of same) (clean, inside, tt)
      ]

  scoped_move-AllInWorkspace :
      (old_path new_path : String) (action : FileAction)
      → scoped_move s old_path new_path sb ≡ ok action
      → AllInWorkspace sb (paths_of action)
  unfolding scoped_move scoped
  scoped_move-AllInWorkspace old_path new_path action e =
      elim (Result-cases (scoped_path_for_operation s sb old_path)) [
        | inl (why, bad) ↦ absurd (err-ok (rw (bad, scoped_move) at e))
        | inr (p, good) ↦ elim (Result-cases (scoped_path_for_operation s sb new_path)) [
          | inl (why, bad) ↦ absurd (err-ok (rw (good, scoped_move, scoped, bad) at e))
          | inr (q, fine) ↦
              let same : move_to p q ≡ action =
                ground (arith, rw (good, scoped_move, scoped, fine) at e) in
              let (clean, inside) =
                scoped_path_for_operation-inside s sb old_path p pooled own good in
              let (clean', inside') =
                scoped_path_for_operation-inside s sb new_path q pooled own fine in
              subst (λ x. AllInWorkspace sb (paths_of x)) same
                (clean, inside, (clean', inside', tt))
        ]
      ]

  call_files-calls :
      {A : Type 0} (action : FileAction) (answer : Result A) (w : World)
      → (call_files s client sb action answer w).1.calls ≡ filed sb.vm_id action ∷ w.calls
  unfolding call_files resolve_vm_id note_call
  call_files-calls action answer w = rw (own, call_files, pooled) refl

  settle-calls :
      {A : Type 0} (id : String) (report : World → World) (r : Result A × World)
      → ((u : World) → (report u).calls ≡ u.calls)
      → (settle id report r).1.calls ≡ r.1.calls
  unfolding settle fail_operation audit publish
  settle-calls id report (ok a, u) silent = silent u
  settle-calls id report (err e, u) silent = refl

  module _ {provider : String} (id : String) (w : World)
      (found : get_sandbox_and_provider s id w ≡ ok (sb, provider)) where
    file_operation-Confined :
        {A : Type 0} (scope : Sandbox → Result FileAction) (report : World → World)
        (answer : Result A)
        → ((u : World) → (report u).calls ≡ u.calls)
        → ((action : FileAction) → scope sb ≡ ok action → AllInWorkspace sb (paths_of action))
        → Confined sb w (file_operation s client id scope report answer w).1
    unfolding file_operation fail_operation audit publish
    file_operation-Confined scope report answer silent inside = elim (Result-cases (scope sb)) [
      | inl (why, bad) ↦ rw (found, file_operation, bad) (inl refl)
      | inr (action, good) ↦
          rw (found, file_operation, good)
            (inr (
              action,
              settle-calls id report _ silent ∙ call_files-calls action answer w,
              inside action good,
            ))
    ]

    settle_read-calls :
        (readable : Bool) (r : Result (List ℕ) × World)
        → (settle_read s client id readable r).1.calls ≡ r.1.calls
    unfolding settle_read settle fail_operation audit publish
    settle_read-calls readable (err e, u) = refl
    settle_read-calls true (ok content, u) = refl
    settle_read-calls false (ok content, u) = refl

    read_file-Confined :
        (path : String) (readable : Bool) (answer : Result (List ℕ))
        → Confined sb w (read_file s client id path readable answer w).1
    unfolding read_file fail_operation audit publish
    read_file-Confined path readable answer = elim (Result-cases (scoped s path read_from sb)) [
      | inl (why, bad) ↦ rw (found, read_file, bad) (inl refl)
      | inr (action, good) ↦
          rw (found, read_file, good)
            (inr (
              action,
              settle_read-calls _ _ ∙ call_files-calls action answer w,
              scoped-AllInWorkspace path read_from action (λ p. refl) good,
            ))
    ]

    serve_file-Confined :
        (a : FileAnswers) (req : FileRequest) → Confined sb w (serve_file s client a id req w)
    unfolding write_file list_files delete_file move_file chmod_file stat_file glob_files publish
    serve_file-Confined a (writing path content how) =
        file_operation-Confined _ _ a.change (λ u. refl)
          (λ action. scoped-AllInWorkspace path _ action (λ p. refl))
    serve_file-Confined a (reading path) = read_file-Confined path a.readable a.content
    serve_file-Confined a (listing path) =
        file_operation-Confined _ _ a.files (λ u. refl)
          (λ action. scoped-AllInWorkspace path list_in action (λ p. refl))
    serve_file-Confined a (statting path) =
        file_operation-Confined _ _ a.info (λ u. refl)
          (λ action. scoped-AllInWorkspace path stat_of action (λ p. refl))
    serve_file-Confined a (globbing pattern) =
        file_operation-Confined _ _ a.names (λ u. refl)
          (λ action. scoped-AllInWorkspace pattern glob_by action (λ p. refl))
    serve_file-Confined a (deleting path recursive) =
        file_operation-Confined _ _ a.change (λ u. refl)
          (λ action. scoped-AllInWorkspace path _ action (λ p. refl))
    serve_file-Confined a (moving old_path new_path) =
        file_operation-Confined _ _ a.change (λ u. refl)
          (λ action. scoped_move-AllInWorkspace old_path new_path action)
    serve_file-Confined a (chmodding path how) =
        file_operation-Confined _ _ a.change (λ u. refl)
          (λ action. scoped-AllInWorkspace path _ action (λ p. refl))

    -- Any operation on the files of a sandbox that shares a machine of this worker makes no call of the
    -- provider, or one call on that machine, whose paths are clean, absolute and in the sandbox's
    -- workspace; and none of them is in the workspace of another sandbox, where neither id holds a
    -- slash and the ids differ.
    pub serve_file-apart :
        (a : FileAnswers) (req : FileRequest) (other : Sandbox)
        → has_slash sb.id ≡ false
        → has_slash other.id ≡ false
        → codes sb.id ≢ codes other.id
        → let w' = serve_file s client a id req w in
          (w'.calls ≡ w.calls)
          ⊎ ((action : FileAction) × (w'.calls ≡ filed sb.vm_id action ∷ w.calls)
              × AllInWorkspace sb (paths_of action)
              × NoneInWorkspace other (paths_of action))
    serve_file-apart a req other flat flat' differ = elim (serve_file-Confined a req) [
      | inl same ↦ inl same
      | inr (action, made, inside) ↦
          inr (action, made, inside, elsewhere sb other (paths_of action) flat flat' differ inside)
    ]
