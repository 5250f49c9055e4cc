-- ===== src/Orchestrator/Admission/Queue/Waiters.antt =====
-- The spawn queue under every interleaving of requests (manager.go, waitForSpawnCapacity).
use stacyvm.Base.{ℕ, ◌+◌, ◌-◌, ◌≤◌, ◌<◌, ◌≡◌, refl, arith, pos_part}
use stacyvm.Orchestrator.Admission.Quota.{OperationalLimits, Result, ok, err}
use stacyvm.Orchestrator.Admission.Decision.{SpawnAdmissionDecision}
use stacyvm.Orchestrator.Admission.Queue.{
  Queue, empty_queue, Outcome, admitted, refused, waiting, enter, Wake, deadline, cancel, capacity,
  woken,
}

-- The queue, the requests that wait in it, and those that left it otherwise than by being let in or
-- timing out.
pub record World : Type 0 where
  pub queue : Queue
  pub live : ℕ
  pub others : ℕ

abbrev pub joined : Outcome → ℕ → ℕ
joined waiting live = live + 1
joined admitted live = live
joined (refused e) live = live

abbrev pub stays : Outcome → ℕ → ℕ
stays waiting live = live
stays admitted live = live - 1
stays (refused e) live = live - 1

-- A waiter that leaves by neither of the two ways that the statistics count.
abbrev pub uncounted : Outcome → Wake → ℕ → ℕ
uncounted (refused e) cancel others = others + 1
uncounted (refused e) (capacity d) others = others + 1
uncounted (refused e) deadline others = others
uncounted admitted wake others = others
uncounted waiting wake others = others

pub data Step (limits : OperationalLimits) (w : World) : World → Type 0 where
  enters :
      (r : Result SpawnAdmissionDecision)
      → Step limits w (record w {
        queue = (enter limits r w.queue).1;
        live = joined (enter limits r w.queue).0 w.live;
      })
  wakes :
      (wait : ℕ) (wake : Wake)
      → 0 < w.live
      → Step limits w (record {
        queue = (woken wait wake w.queue).1;
        live = stays (woken wait wake w.queue).0 w.live;
        others = uncounted (woken wait wake w.queue).0 wake w.others;
      })

pub data Reach (limits : OperationalLimits) (s : World) : World → Type 0 where
  here : Reach limits s s
  next : {t u : World} → Reach limits s t → Step limits t u → Reach limits s u

abbrev pub start : World
start = record { queue = empty_queue; live = 0; others = 0 }

pub record IsValid (limits : OperationalLimits) (w : World) : Type 0 where
  pub counted : w.queue.queue_waiters ≡ w.live
  pub bounded : w.live ≤ pos_part limits.max_spawn_queue
  pub conserved :
      w.queue.queue_stats.queued_total
      ≡ w.live + w.queue.queue_stats.dequeued_total + w.queue.queue_stats.timeout_total + w.others
  pub waits :
      w.queue.queue_stats.wait_count
      ≡ w.queue.queue_stats.dequeued_total + w.queue.queue_stats.timeout_total
  pub longest : w.queue.queue_stats.wait_max ≤ w.queue.queue_stats.wait_total

Step-IsValid :
    (limits : OperationalLimits) {w u : World}
    → Step limits w u
    → IsValid limits w
    → IsValid limits u
unfolding enter woken
Step-IsValid limits {w} (enters (err e)) v = record {
  counted = v.counted;
  bounded = v.bounded;
  conserved = v.conserved;
  waits = v.waits;
  longest = v.longest;
}
Step-IsValid limits {w} (enters (ok d)) v = ground arith
Step-IsValid limits {w} (wakes wait deadline some_live) v = ground arith
Step-IsValid limits {w} (wakes wait cancel some_live) v = ground arith
Step-IsValid limits {w} (wakes wait (capacity (err e)) some_live) v = ground arith
Step-IsValid limits {w} (wakes wait (capacity (ok d)) some_live) v = ground arith

-- From the empty queue, however requests enter, are woken and leave: the number of waiters is the
-- number of requests that wait, never more than the limit; every request that was queued still waits
-- or was let in, timed out or left otherwise; the waits counted are those of the requests that were
-- let in or timed out, and the longest is at most their sum.
pub queue-Reach-IsValid :
    (limits : OperationalLimits) (w : World) → Reach limits start w → IsValid limits w
unfolding empty_queue
queue-Reach-IsValid limits w here = record {
  counted = refl;
  bounded = omega arith;
  conserved = omega arith;
  waits = omega arith;
  longest = omega arith;
}
queue-Reach-IsValid limits w (next r st) = Step-IsValid limits st (queue-Reach-IsValid limits _ r)
