-- ===== src/Orchestrator/Admission/Queue.antt =====
-- internal/orchestrator/manager.go: the queue in which spawn requests wait for capacity. A request
-- enters (the first part of waitForSpawnCapacity) and is then woken until it leaves (its loop);
-- both are steps under queueMu. What `evaluateSpawnAdmission` answers at each point is an argument,
-- and so are the durations waited. The counters do not wrap.
mod Waiters
mod Lock
mod Tests
use stacyvm.Base.{
  ℕ, ◌+◌, ◌-◌, Bool, true, false, not, ◌||◌, Option, none, some, List, [], ◌∷◌, ltb, if◌then◌else◌,
  pos, leb_ℤ,
}
use stacyvm.Orchestrator.Admission.Quota.{
  OperationalLimits, ManagerError, resource_limit, cancelled, Result, ok, err,
}
use stacyvm.Orchestrator.Admission.Decision.{SpawnAdmissionDecision, queues, spawn_admission_error}

pub record SpawnQueueStats : Type 0 where
  pub queued_total : ℕ
  pub dequeued_total : ℕ
  pub timeout_total : ℕ
  pub wait_count : ℕ
  pub wait_total : ℕ
  pub wait_max : ℕ

pub record Queue : Type 0 where
  pub queue_waiters : ℕ
  pub queue_stats : SpawnQueueStats

pub empty_queue : Queue
empty_queue = record {
  queue_waiters = 0;
  queue_stats = record {
    queued_total = 0;
    dequeued_total = 0;
    timeout_total = 0;
    wait_count = 0;
    wait_total = 0;
    wait_max = 0;
  };
}

pub data Outcome : Type 0 where
  admitted : Outcome
  refused : ManagerError → Outcome
  waiting : Outcome

pub join : OperationalLimits → Queue → Outcome × Queue
join limits q =
    if leb_ℤ limits.max_spawn_queue (pos q.queue_waiters)
    then (refused (resource_limit "spawn queue full"), q)
    else (
      waiting,
      record q {
        queue_waiters = q.queue_waiters + 1;
        queue_stats = record q.queue_stats { queued_total = q.queue_stats.queued_total + 1 };
      },
    )

-- waitForSpawnCapacity up to its loop.
pub enter : OperationalLimits → Result SpawnAdmissionDecision → Queue → Outcome × Queue
unfolding join
enter limits (err e) q = (refused e, q)
enter limits (ok d) q =
    if d.allowed
    then (admitted, q)
    else if not d.queueable || not (queues limits)
    then (refused (spawn_admission_error d), q)
    else join limits q

pub record_wait : ℕ → SpawnQueueStats → SpawnQueueStats
record_wait wait stats = record stats {
  wait_count = stats.wait_count + 1;
  wait_total = stats.wait_total + wait;
  wait_max = if ltb stats.wait_max wait then wait else stats.wait_max;
}

pub record_spawn_dequeued : ℕ → Queue → Queue
unfolding record_wait
record_spawn_dequeued wait q = record q {
  queue_stats =
      record_wait wait (record q.queue_stats { dequeued_total = q.queue_stats.dequeued_total + 1 });
}

pub record_spawn_queue_timeout : ℕ → Queue → Queue
unfolding record_wait
record_spawn_queue_timeout wait q = record q {
  queue_stats =
      record_wait wait (record q.queue_stats { timeout_total = q.queue_stats.timeout_total + 1 });
}

-- The deferred `queueWaiters--`.
pub leave : Queue → Queue
leave q = record q { queue_waiters = q.queue_waiters - 1 }

-- What wakes a waiter: its deadline, the end of its request, or notifySpawnCapacity.
pub data Wake : Type 0 where
  deadline cancel : Wake
  capacity : Result SpawnAdmissionDecision → Wake

pub woken : ℕ → Wake → Queue → Outcome × Queue
unfolding record_spawn_dequeued record_spawn_queue_timeout leave
woken wait deadline q =
    (refused (resource_limit "spawn queue timeout"), leave (record_spawn_queue_timeout wait q))
woken wait cancel q = (refused cancelled, leave q)
woken wait (capacity (err e)) q = (refused e, leave q)
woken wait (capacity (ok d)) q =
    if d.allowed
    then (admitted, leave (record_spawn_dequeued wait q))
    else if not d.queueable
    then (refused (spawn_admission_error d), leave q)
    else (waiting, q)

-- acquireSpawnAdmission, round by round: what the wait answers, and the decision under the lock.
-- The answer says whether admissionMu is held; `none` where the rounds run out.
pub record Locked : Type 0 where
  pub result : Result (Unit {0})
  pub held : Bool

pub acquire_spawn_admission :
    OperationalLimits → List (Result (Unit {0}) × Result SpawnAdmissionDecision) → Option Locked
acquire_spawn_admission limits [] = none
acquire_spawn_admission limits ((err e, decision) ∷ rounds) =
    some (record { result = err e; held = false })
acquire_spawn_admission limits ((ok u, err e) ∷ rounds) =
    some (record { result = err e; held = false })
acquire_spawn_admission limits ((ok u, ok d) ∷ rounds) =
    let again = acquire_spawn_admission limits rounds in
    if d.allowed
    then some (record { result = ok tt; held = true })
    else if not d.queueable || not (queues limits)
    then some (record { result = err (spawn_admission_error d); held = false })
    else again
