-- ===== src/Environments/Jobs/Fifo.antt =====
-- The order and the bound of the queue of builds (internal/environments/manager.go).
use stacyvm.Base.{
  ◌≤◌, ◌<◌, String, ◌≡◌, refl, sym, ap, subst, ◌∙◌, ◌⊎◌, inl, inr, Bool, none, some, List, [], ◌∷◌,
  ◌++◌, arith, length, length-append, append_assoc_list,
}
use mathlib.Core.List.{append-nil}
use stacyvm.Environments.Jobs.{
  Jobs, queued, manager_stopped, queue_full, enqueue, next_job, stop_jobs,
}

-- What can happen to the queue.
pub data JobStep : Type 0 where
  put : Bool → String → JobStep
  receive stop : JobStep

-- The ids that Enqueue accepts in a run, the ids that the workers receive, and the queue after it.
unfoldable pub accepted : List JobStep → Jobs → List String
unfolding enqueue next_job stop_jobs
accepted [] q = []
accepted (put picks id ∷ steps) q =
    let rest = accepted steps (enqueue picks id q).1 in
    elim (enqueue picks id q).0 [ queued ↦ id ∷ rest | manager_stopped ↦ rest | queue_full ↦ rest ]
accepted (receive ∷ steps) q = accepted steps (next_job q).1
accepted (stop ∷ steps) q = accepted steps (stop_jobs q)

unfoldable pub received : List JobStep → Jobs → List String
unfolding enqueue next_job stop_jobs
received [] q = []
received (put picks id ∷ steps) q = received steps (enqueue picks id q).1
received (receive ∷ steps) q =
    let rest = received steps (next_job q).1 in
    elim (next_job q).0 [ none ↦ rest | some id ↦ id ∷ rest ]
received (stop ∷ steps) q = received steps (stop_jobs q)

unfoldable pub after : List JobStep → Jobs → Jobs
unfolding enqueue next_job stop_jobs
after [] q = q
after (put picks id ∷ steps) q = after steps (enqueue picks id q).1
after (receive ∷ steps) q = after steps (next_job q).1
after (stop ∷ steps) q = after steps (stop_jobs q)

enqueue-cases :
    (picks : Bool) (id : String) (q : Jobs)
    → ((length q.jobs < 128)
        × (enqueue picks id q ≡ (queued, record q { jobs = q.jobs ++ (id ∷ []) })))
      ⊎ ((enqueue picks id q ≡ (manager_stopped, q)) ⊎ (enqueue picks id q ≡ (queue_full, q)))
unfolding enqueue
enqueue-cases picks id q = ground arith

next_job-cases :
    (stopped : Bool) (jobs : List String)
    → let q : Jobs = record { stopped = stopped; jobs = jobs } in
      ((jobs ≡ []) × (next_job q ≡ (none, q)))
      ⊎ ((id : String) × (rest : List String) × (jobs ≡ id ∷ rest)
          × (next_job q ≡ (some id, record { stopped = stopped; jobs = rest })))
unfolding next_job
next_job-cases stopped [] = inl (refl, refl)
next_job-cases stopped (id ∷ rest) = inr (id, rest, refl, refl)

-- In any run, what the workers receive and then what is left in the queue is what was in it and then
-- what Enqueue accepted, in this order: no build is lost, doubled or overtaken. And a queue of at most
-- 128 builds never has more.
pub jobs_fifo :
    (steps : List JobStep) (q : Jobs)
    → length q.jobs ≤ 128
    → (received steps q ++ (after steps q).jobs ≡ q.jobs ++ accepted steps q)
      × (length (after steps q).jobs ≤ 128)
unfolding accepted received after stop_jobs
jobs_fifo [] q room = (sym (append-nil q.jobs), room)
jobs_fifo (put picks id ∷ steps) q room = elim (enqueue-cases picks id q) [
  | inl (space, e) ↦
      let (order, bound) =
        jobs_fifo steps (record q { jobs = q.jobs ++ (id ∷ []) })
          (rw (length-append q.jobs (id ∷ [])) (omega arith)) in
      rw (received, accepted, after, e, e)
        (
          order
              ∙ append_assoc_list q.jobs (id ∷ [])
                  (accepted steps (record q { jobs = q.jobs ++ (id ∷ []) })),
          bound,
        )
  | inr (inl e) ↦ rw (received, accepted, after, e, e) (jobs_fifo steps q room)
  | inr (inr e) ↦ rw (received, accepted, after, e, e) (jobs_fifo steps q room)
]
jobs_fifo (receive ∷ steps) q room = elim (next_job-cases q.stopped q.jobs) [
  | inl (blank, e) ↦ rw (received, accepted, after, e, e) (jobs_fifo steps q room)
  | inr (id, rest, full, e) ↦
      let smaller = subst (λ l. length l ≤ 128) full room in
      let (order, bound) = jobs_fifo steps (record q { jobs = rest }) (omega (arith, smaller)) in
      rw (received, accepted, after, e, full) (ap (λ l. id ∷ l) order, bound)
]
jobs_fifo (stop ∷ steps) q room = jobs_fifo steps (stop_jobs q) room
