-- ===== src/Environments/Jobs.antt =====
-- The queue of builds of internal/environments/manager.go: Enqueue, and what a worker takes from it.
pub mod Fifo
use stacyvm.Base.{
  ℕ, zero, suc, ◌+◌, ◌-◌, ◌*◌, ◌/◌, ◌%◌, ◌^◌, ◌≤◌, ◌<◌, String, ◌≡◌, refl, sym, ap, subst, ◌∙◌, ◌≢◌,
  ◌↔◌, ◌⊎◌, inl, inr, Bool, true, false, not, ◌&&◌, ◌||◌, Option, none, some, List, [], ◌∷◌, ◌++◌,
  map, arith, eq_iff, eq_refl, ltb, leb, ◌==◌, if◌then◌else◌, ltb→lt, lt→ltb, leb→le, ==_iff,
  Bool-cases, Option-cases, length, get_elem?, set, get_or, take, drop, replicate, length-append,
  length-set, take-append-drop, length-take, length-drop, append_assoc_list, drop-set, ℤ, pos,
  negsuc, pos_part, neg_part, sub_ℕ, ◌+ℤ◌, ◌≤ℤ◌, ◌<ℤ◌, ltb_ℤ, leb_ℤ, is_pos, +ℤ_parts, str_eq,
  is_empty, codes, is_space, trim_space, fold, equal_fold, equal_fold_refl, Dict, lookup, insert,
  delete, lookup-insert, lookup-delete, length-insert, length-delete, length-insert_found,
}

-- `jobs` is the channel, the oldest first.
pub record Jobs : Type 0 where
  pub stopped : Bool
  pub jobs : List String

pub data Enqueued : Type 0 where
  queued manager_stopped queue_full : Enqueued

-- Enqueue. Where the manager is stopped and there is room, select takes either: `picks_room` tells which.
unfoldable pub enqueue : Bool → String → Jobs → Enqueued × Jobs
enqueue picks_room build_id q =
    let room = ltb (length q.jobs) 128 in
    if room && (picks_room || not q.stopped)
    then (queued, record q { jobs = q.jobs ++ (build_id ∷ []) })
    else if q.stopped
    then (manager_stopped, q)
    else (queue_full, q)

-- The receive of a worker.
unfoldable pub next_job : Jobs → Option String × Jobs
next_job q = elim q.jobs [ [] ↦ (none, q) | job ∷ rest ↦ (some job, record q { jobs = rest }) ]

unfoldable pub stop_jobs : Jobs → Jobs
stop_jobs q = record q { stopped = true }
