-- ===== src/Orchestrator/Placement/Loop.antt =====
-- The loop of the scheduler over the workers (scheduler.go, evaluateWorkerPlacement), lemma by lemma.
use stacyvm.Base.{
  ℕ, suc, ◌+◌, ◌≤◌, ◌<◌, String, ◌≡◌, refl, sym, subst, ◌∙◌, ◌≢◌, ◌⊎◌, inl, inr, true, false, not,
  ◌&&◌, List, [], ◌∷◌, arith, eq_iff, ◌==◌, if◌then◌else◌, is_empty, trim_space, Dict,
}
use stacyvm.Store.Records.{WorkerRecord}
use stacyvm.Orchestrator.Placement.{count_at, is_eligible, Best, consider, best_worker}

module _ (own : String) (now : ℕ) (provider : String) (counts : Dict ℕ) where
  -- Some worker of the list has the id and passes the guards.
  abbrev pub Eligible : String → List WorkerRecord → Type 0
  Eligible id [] = ⊥
  Eligible id (worker ∷ workers) =
      ((is_eligible now provider counts worker ≡ true) × (trim_space worker.id ≡ id))
      ⊎ Eligible id workers

  unfoldable pub count_eligible : List WorkerRecord → ℕ
  count_eligible [] = 0
  count_eligible (worker ∷ workers) =
      let rest = count_eligible workers in
      if is_eligible now provider counts worker then suc rest else rest

  eligible-named :
      (worker : WorkerRecord)
      → is_eligible now provider counts worker ≡ true
      → is_empty (trim_space worker.id) ≡ false
  unfolding is_eligible
  eligible-named worker e = ground arith

  abbrev step_of : WorkerRecord → Best → Best
  step_of worker best =
      if is_eligible now provider counts worker
      then consider own counts (trim_space worker.id) best
      else best

  pub best_worker-eligible :
      (workers : List WorkerRecord) (best : Best)
      → (best_worker own now provider counts best workers).eligible
        ≡ best.eligible + count_eligible workers
  unfolding best_worker count_eligible consider
  best_worker-eligible [] best = omega arith
  best_worker-eligible (worker ∷ workers) best =
      ground (arith, best_worker-eligible workers (step_of worker best))

  step_of-empty :
      (worker : WorkerRecord) (best : Best)
      → is_empty (step_of worker best).best_id
        ≡ (is_empty best.best_id && not (is_eligible now provider counts worker))
  unfolding consider
  step_of-empty worker best = ground (arith, eligible-named worker)

  pub best_worker-empty :
      (workers : List WorkerRecord) (best : Best)
      → is_empty (best_worker own now provider counts best workers).best_id
        ≡ (is_empty best.best_id && count_eligible workers == 0)
  unfolding best_worker count_eligible
  best_worker-empty [] best = ground arith
  best_worker-empty (worker ∷ workers) best =
      rw (best_worker-empty workers (step_of worker best), step_of-empty worker best) (ground arith)

  step_of-id :
      (worker : WorkerRecord) (best : Best)
      → ((step_of worker best).best_id ≡ best.best_id)
        ⊎ ((is_eligible now provider counts worker ≡ true)
            × (trim_space worker.id ≡ (step_of worker best).best_id))
  unfolding consider
  step_of-id worker best = ground arith

  pub best_worker-Eligible :
      (workers : List WorkerRecord) (best : Best)
      → let id = (best_worker own now provider counts best workers).best_id in
        (id ≡ best.best_id) ⊎ Eligible id workers
  unfolding best_worker
  best_worker-Eligible [] best = inl refl
  best_worker-Eligible (worker ∷ workers) best =
      elim (best_worker-Eligible workers (step_of worker best)) [
        | inr later ↦ inr (inr later)
        | inl same ↦ elim (step_of-id worker best) [
          | inl kept ↦ inl (same ∙ kept)
          | inr (e, named) ↦ inr (inl (e, named ∙ sym same))
        ]
      ]

  -- The count that the loop carries is that of the worker that it carries.
  abbrev IsConsistent : Best → Type 0
  IsConsistent best =
      (is_empty best.best_id ≡ true) ⊎ (best.best_count ≡ count_at best.best_id counts)

  step_of-IsConsistent :
      (worker : WorkerRecord) (best : Best) → IsConsistent best → IsConsistent (step_of worker best)
  unfolding consider
  step_of-IsConsistent worker best c = ground arith

  pub best_worker-IsConsistent :
      (workers : List WorkerRecord) (best : Best)
      → IsConsistent best
      → IsConsistent (best_worker own now provider counts best workers)
  unfolding best_worker
  best_worker-IsConsistent [] best c = c
  best_worker-IsConsistent (worker ∷ workers) best c =
      best_worker-IsConsistent workers (step_of worker best) (step_of-IsConsistent worker best c)

  -- What is carried is the own worker, or one with fewer sandboxes than the own worker has.
  abbrev PrefersOwn : Best → Type 0
  PrefersOwn best =
      (is_empty best.best_id ≡ false)
      × (((best.best_id ≡ own) × (best.best_count ≡ count_at own counts))
          ⊎ (best.best_count < count_at own counts))

  step_of-PrefersOwn :
      (worker : WorkerRecord) (best : Best) → PrefersOwn best → PrefersOwn (step_of worker best)
  unfolding consider
  step_of-PrefersOwn worker best p =
      ground (arith, eligible-named worker, eq_iff (trim_space worker.id) own)

  step_of_own :
      (worker : WorkerRecord) (best : Best)
      → is_eligible now provider counts worker ≡ true
      → trim_space worker.id ≡ own
      → PrefersOwn (step_of worker best)
  unfolding consider
  step_of_own worker best e named =
      ground (arith, eligible-named worker, eq_iff (trim_space worker.id) own)

  best_worker_keeps_own :
      (workers : List WorkerRecord) (best : Best)
      → PrefersOwn best
      → PrefersOwn (best_worker own now provider counts best workers)
  unfolding best_worker
  best_worker_keeps_own [] best p = p
  best_worker_keeps_own (worker ∷ workers) best p =
      best_worker_keeps_own workers (step_of worker best) (step_of-PrefersOwn worker best p)

  pub best_worker-PrefersOwn :
      (workers : List WorkerRecord) (best : Best)
      → Eligible own workers
      → PrefersOwn (best_worker own now provider counts best workers)
  unfolding best_worker
  best_worker-PrefersOwn [] best none_here = absurd none_here
  best_worker-PrefersOwn (worker ∷ workers) best (inl (e, named)) =
      best_worker_keeps_own workers (step_of worker best) (step_of_own worker best e named)
  best_worker-PrefersOwn (worker ∷ workers) best (inr later) =
      best_worker-PrefersOwn workers (step_of worker best) later

  -- Workers under other ids than the own one.
  abbrev pub AllRemote : List WorkerRecord → Type 0
  AllRemote [] = Unit
  AllRemote (worker ∷ workers) = (trim_space worker.id ≢ own) × AllRemote workers

  abbrev AtMost : ℕ → Best → Type 0
  AtMost n best = (is_empty best.best_id ≡ false) × (best.best_count ≤ n)

  step_of-AtMost :
      (n : ℕ) (worker : WorkerRecord) (best : Best)
      → trim_space worker.id ≢ own
      → AtMost n best
      → AtMost n (step_of worker best)
  unfolding consider
  step_of-AtMost n worker best remote a =
      ground (arith, eligible-named worker, eq_iff (trim_space worker.id) own)

  best_worker_keeps_least :
      (n : ℕ) (workers : List WorkerRecord) (best : Best)
      → AllRemote workers
      → AtMost n best
      → AtMost n (best_worker own now provider counts best workers)
  unfolding best_worker
  best_worker_keeps_least n [] best r a = a
  best_worker_keeps_least n (worker ∷ workers) best r a =
      best_worker_keeps_least n workers (step_of worker best) r.1
        (step_of-AtMost n worker best r.0 a)

  step_of_least :
      (worker : WorkerRecord) (best : Best)
      → is_eligible now provider counts worker ≡ true
      → AtMost (count_at (trim_space worker.id) counts) (step_of worker best)
  unfolding consider
  step_of_least worker best e = ground (arith, eligible-named worker)

  -- Among workers other than the own one the choice is the least loaded.
  pub best_worker-least :
      (workers : List WorkerRecord) (best : Best) (id : String)
      → AllRemote workers
      → Eligible id workers
      → AtMost (count_at id counts) (best_worker own now provider counts best workers)
  unfolding best_worker
  best_worker-least [] best id r none_here = absurd none_here
  best_worker-least (worker ∷ workers) best id r (inl (e, named)) =
      best_worker_keeps_least _ workers (step_of worker best) r.1 (
        subst (λ i. AtMost (count_at i counts) (step_of worker best)) named
          (step_of_least worker best e))
  best_worker-least (worker ∷ workers) best id r (inr later) =
      best_worker-least workers (step_of worker best) id r.1 later
