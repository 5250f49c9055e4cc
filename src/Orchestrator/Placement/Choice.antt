-- ===== src/Orchestrator/Placement/Choice.antt =====
-- What the scheduler chooses (scheduler.go, evaluateWorkerPlacement).
use stacyvm.Base.{
  ℕ, ◌≤◌, ◌<◌, String, ◌≡◌, refl, ◌⊎◌, inl, true, false, some, List, [], ◌∷◌, arith, eq_iff, ◌==◌,
  is_empty, Dict,
}
use stacyvm.Store.Records.{SandboxRecord, WorkerRecord}
use stacyvm.Orchestrator.Placement.{
  WorkerPlacement, no_reason, no_eligible_worker, active_by_worker, Best, best_worker, no_best,
  chosen, evaluate_worker_placement,
}
use stacyvm.Orchestrator.Placement.Counts.{load, count_at-load}
use stacyvm.Orchestrator.Placement.Loop.{
  Eligible, count_eligible, AllRemote, best_worker-eligible, best_worker-IsConsistent,
  best_worker-empty, best_worker-PrefersOwn, best_worker-least,
}

module _ (own : String) (now : ℕ) (provider : String) (worker : WorkerRecord)
    (workers : List WorkerRecord) (sandboxes : List SandboxRecord) where
  abbrev active : Dict ℕ
  active = active_by_worker own [] sandboxes

  abbrev final : Best
  final = best_worker own now provider active no_best (worker ∷ workers)

  abbrev placement : WorkerPlacement
  placement = evaluate_worker_placement own now provider (some (worker ∷ workers)) sandboxes

  final_cases :
      ((is_empty final.best_id ≡ true)
        × (placement.selected_id ≡ "")
        × (placement.eligible ≡ 0)
        × (placement.reason ≡ no_eligible_worker))
      ⊎ ((is_empty final.best_id ≡ false)
          × (placement.selected_id ≡ final.best_id)
          × (placement.eligible ≡ final.eligible)
          × (placement.reason ≡ no_reason))
  unfolding evaluate_worker_placement chosen
  final_cases = ground arith

  -- If the own worker is registered and passes the guards, then it is selected, or a worker is that
  -- holds fewer sandboxes than it does.
  pub selected_own_or_less :
      Eligible own now provider active own (worker ∷ workers)
      → (placement.selected_id ≡ own)
        ⊎ (load own sandboxes placement.selected_id < load own sandboxes own)
  selected_own_or_less e =
      let prefers = best_worker-PrefersOwn own now provider active (worker ∷ workers) no_best e in
      let consistent =
        best_worker-IsConsistent own now provider active (worker ∷ workers) no_best (inl refl) in
      ground (
        arith,
        final_cases,
        prefers,
        consistent,
        count_at-load own own sandboxes,
        count_at-load own final.best_id sandboxes,
      )

  -- If no registered worker has the own id, the one selected holds no more sandboxes than any worker
  -- that passes the guards.
  pub selected_least :
      (id : String)
      → AllRemote own now provider active (worker ∷ workers)
      → Eligible own now provider active id (worker ∷ workers)
      → load own sandboxes placement.selected_id ≤ load own sandboxes id
  selected_least id remote e =
      let least =
        best_worker-least own now provider active (worker ∷ workers) no_best id remote e in
      let consistent =
        best_worker-IsConsistent own now provider active (worker ∷ workers) no_best (inl refl) in
      ground (
        arith,
        final_cases,
        least,
        consistent,
        count_at-load own id sandboxes,
        count_at-load own final.best_id sandboxes,
      )

  -- The placement reports as eligible the number of registered workers that pass the guards, and
  -- selects nobody exactly when that is 0.
  pub placement-eligible :
      (placement.eligible ≡ count_eligible own now provider active (worker ∷ workers))
      × (is_empty placement.selected_id ≡ (placement.eligible == 0))
  placement-eligible = ground (
    arith,
    eq_iff placement.selected_id "",
    eq_iff final.best_id "",
    final_cases,
    best_worker-eligible own now provider active (worker ∷ workers) no_best,
    best_worker-empty own now provider active (worker ∷ workers) no_best,
  )
