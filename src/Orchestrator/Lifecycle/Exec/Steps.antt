-- ===== src/Orchestrator/Lifecycle/Exec/Steps.antt =====
-- What the steps of Exec do to the state (manager.go): the admission, the call, and the end.
use stacyvm.Base.{
  String, ◌≡◌, refl, subst, ◌∙◌, ◌⊎◌, inl, inr, Bool, true, false, some, ◌∷◌, arith, if◌then◌else◌,
  Bool-cases, Option-cases, ℤ, pos, ◌≤ℤ◌, is_pos, Dict,
}
use stacyvm.Store.Records.{OwnerQuotaRecord}
use stacyvm.Orchestrator.Events.{EventType}
use stacyvm.Orchestrator.Admission.Quota.{
  OperationalLimits, ManagerError, Parsed, Result, ok, err, resolve_exec_timeout,
  owner_max_exec_timeout,
}
use stacyvm.Orchestrator.Admission.Quota.Laws.{requested, resolve_exec_timeout-ok}
use stacyvm.Orchestrator.Lifecycle.{
  Sandbox, Settings, World, ProviderCall, ExecOptions, ran, remote_ran, is_remote_owned_sandbox,
  resolve_vm_id, note_call, publish, audit,
}
use stacyvm.Orchestrator.Lifecycle.Access.{get_sandbox_and_provider}
use stacyvm.Orchestrator.Lifecycle.Leasing.{Result-cases}
use stacyvm.Orchestrator.Lifecycle.Files.{remote_runtime}
use stacyvm.Orchestrator.Lifecycle.Exec.{
  ExecRequest, validate_exec_request, Answer, finished, timed_out, broken, call_exec, admit_exec,
  Outcome, log_exec, settle_exec,
}

-- What no command changes, whatever it answers.
pub record SameState (w u : World) : Type 0 where
  pub sandboxes : u.sandboxes ≡ w.sandboxes
  pub records : u.records ≡ w.records
  pub leases : u.leases ≡ w.leases
  pub vm_pool : u.vm_pool ≡ w.vm_pool

-- The command, on the sandbox's machine or on its worker.
abbrev pub exec_call : Settings → Sandbox → ExecOptions → ℤ → ProviderCall
exec_call s sb options timeout =
    if is_remote_owned_sandbox s sb
    then remote_ran sb.worker_id sb.id (remote_runtime sb) options timeout
    else ran (resolve_vm_id sb) options timeout

-- The timeout is the one asked for, or the default; it is not negative, and within the owner's maximum
-- where that is switched on.
abbrev pub Bounded : OperationalLimits → Dict OwnerQuotaRecord → Parsed → String → ℤ → Type 0
Bounded limits quotas raw owner t =
    (requested limits raw ≡ some t)
    × (pos 0 ≤ℤ t)
    × ((is_pos (owner_max_exec_timeout limits quotas owner) ≡ false)
        ⊎ (t ≤ℤ owner_max_exec_timeout limits quotas owner))

-- A success is logged once and audited as one; a failure is not logged, and audited as a failure.
abbrev pub Reported : String → ExecRequest → World → Result Outcome × World → Type 0
Reported id req w (ok out, u) =
    (u.exec_logs ≡ (log_exec id req out w).exec_logs) × (u.audits ≡ (id, true) ∷ w.audits)
Reported id req w (err e, u) = (u.exec_logs ≡ w.exec_logs) × (u.audits ≡ (id, false) ∷ w.audits)

-- Nothing was called, and nothing is logged.
abbrev pub Refused : World → Result Outcome × World → Type 0
Refused w r =
    ((e : ManagerError) × (r.0 ≡ err e)) × (r.1.calls ≡ w.calls) × (r.1.exec_logs ≡ w.exec_logs)

err-ok : {A : Type 0} {e : ManagerError} {a : A} → err e ≡ ok a → ⊥
err-ok e = ground arith

ok-eq : {p q : Sandbox × ℤ} → ok p ≡ ok q → p ≡ q
ok-eq e = cc

module _ (s : Settings) (limits : OperationalLimits) (quotas : Dict OwnerQuotaRecord)
    (client : Bool) (id : String) (req : ExecRequest) where
  -- The sandbox is there, and the timeout is good for its owner.
  abbrev pub Found : World → Sandbox × ℤ → Type 0
  Found w p =
      ((provider : String) × (get_sandbox_and_provider s id w ≡ ok (p.0, provider)))
      × Bounded limits quotas req.timeout p.0.owner_id p.1

  -- What an admission leaves: everything but an event.
  pub record Admitted (w : World) (r : Result (Sandbox × ℤ) × World) : Type 0 where
    pub same : SameState w r.1
    pub calls : r.1.calls ≡ w.calls
    pub exec_logs : r.1.exec_logs ≡ w.exec_logs
    pub audits : r.1.audits ≡ w.audits
    pub found : (p : Sandbox × ℤ) → r.0 ≡ ok p → Found w p

  quiet :
      (w u : World)
      → SameState w u
      → u.calls ≡ w.calls
      → u.exec_logs ≡ w.exec_logs
      → u.audits ≡ w.audits
      → (e : ManagerError) → Admitted w (err e, u)
  quiet w u same calls logs audits e = record {
    same = same;
    calls = calls;
    exec_logs = logs;
    audits = audits;
    found = λ p bad. absurd (err-ok bad);
  }

  published : (w : World) (kind : EventType) → SameState w (publish kind id w)
  unfolding publish
  published w kind = record { sandboxes = refl; records = refl; leases = refl; vm_pool = refl }

  pub admit_exec-Admitted : (w : World) → Admitted w (admit_exec s limits quotas id req w)
  unfolding admit_exec publish
  admit_exec-Admitted w = elim (Option-cases (validate_exec_request req)) [
    | inr (e, bad) ↦ rw (bad, admit_exec) (quiet w _ (published w _) refl refl refl e)
    | inl good ↦ elim (Result-cases (get_sandbox_and_provider s id w)) [
      | inl (e, gone) ↦ rw (good, admit_exec, gone) (quiet w _ (published w _) refl refl refl e)
      | inr ((sb, provider), there) ↦
          let resolved = resolve_exec_timeout limits quotas req.timeout sb.owner_id in
          elim (Result-cases resolved) [
            | inl (e, over) ↦
                rw (good, admit_exec, there, over) (quiet w _ (published w _) refl refl refl e)
            | inr (t, fine) ↦
                rw (good, admit_exec, there, fine)
                  (record {
                    same = record {
                      sandboxes = refl;
                      records = refl;
                      leases = refl;
                      vm_pool = refl;
                    };
                    calls = refl;
                    exec_logs = refl;
                    audits = refl;
                    found = λ p e. subst (Found w) (ok-eq e) (
                      (provider, there),
                      resolve_exec_timeout-ok limits quotas req.timeout sb.owner_id t fine,
                    );
                  })
          ]
    ]
  ]

  pub SameState-trans : (w u v : World) → SameState w u → SameState u v → SameState w v
  SameState-trans w u v a b = record {
    sandboxes = b.sandboxes ∙ a.sandboxes;
    records = b.records ∙ a.records;
    leases = b.leases ∙ a.leases;
    vm_pool = b.vm_pool ∙ a.vm_pool;
  }

  pub settle_exec-Reported :
      (answer : Answer Outcome) (w u : World)
      → u.exec_logs ≡ w.exec_logs
      → u.audits ≡ w.audits
      → Reported id req w (settle_exec id req (answer, u))
  unfolding settle_exec log_exec audit publish
  settle_exec-Reported (finished (x, out, errs)) w u logs audits = (cc, cc)
  settle_exec-Reported timed_out w u logs audits = (logs, cc)
  settle_exec-Reported (broken text) w u logs audits = (logs, cc)

  pub settle_exec-SameState :
      (w : World) (answer : Answer Outcome) (u : World)
      → SameState w u
      → SameState w (settle_exec id req (answer, u)).1
        × ((settle_exec id req (answer, u)).1.calls ≡ u.calls)
  unfolding settle_exec log_exec audit publish
  settle_exec-SameState w (finished (x, out, errs)) u k = (
    record { sandboxes = k.sandboxes; records = k.records; leases = k.leases; vm_pool = k.vm_pool },
    refl,
  )
  settle_exec-SameState w timed_out u k = (
    record { sandboxes = k.sandboxes; records = k.records; leases = k.leases; vm_pool = k.vm_pool },
    refl,
  )
  settle_exec-SameState w (broken text) u k = (
    record { sandboxes = k.sandboxes; records = k.records; leases = k.leases; vm_pool = k.vm_pool },
    refl,
  )

  pub started-SameState :
      (w u : World) → SameState w u → SameState w (publish EventType.exec_started id u)
  unfolding publish
  started-SameState w u k = record {
    sandboxes = k.sandboxes;
    records = k.records;
    leases = k.leases;
    vm_pool = k.vm_pool;
  }

  -- The state after the call, with the call noted, or without it where there is no client.
  pub record Called (w : World) (call : ProviderCall) (r : Answer Outcome × World) : Type 0 where
    pub same : SameState w r.1
    pub exec_logs : r.1.exec_logs ≡ w.exec_logs
    pub audits : r.1.audits ≡ w.audits
    pub calls :
        (r.1.calls ≡ call ∷ w.calls)
        ⊎ ((r.1.calls ≡ w.calls) × ((text : String) × (r.0 ≡ broken text)))

  pub call_exec-Called :
      (sb : Sandbox) (options : ExecOptions) (t : ℤ) (answer : Answer Outcome) (w : World)
      → Called w (exec_call s sb options t) (call_exec s client sb options t answer w)
  unfolding call_exec note_call
  call_exec-Called sb options t answer w = elim (Bool-cases (is_remote_owned_sandbox s sb)) [
    | inr here ↦
        rw (here, call_exec)
          (record {
            same = record { sandboxes = refl; records = refl; leases = refl; vm_pool = refl };
            exec_logs = refl;
            audits = refl;
            calls = inl refl;
          })
    | inl remote ↦ elim (Bool-cases client) [
      | inl there ↦
          rw (remote, call_exec, there)
            (record {
              same = record { sandboxes = refl; records = refl; leases = refl; vm_pool = refl };
              exec_logs = refl;
              audits = refl;
              calls = inl refl;
            })
      | inr none_there ↦
          rw (remote, call_exec, none_there)
            (record {
              same = record { sandboxes = refl; records = refl; leases = refl; vm_pool = refl };
              exec_logs = refl;
              audits = refl;
              calls = inr (refl, ("remote worker RPC", refl));
            })
    ]
  ]
