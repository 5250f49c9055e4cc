-- ===== src/Orchestrator/Admission/Queue/Tests.antt =====
-- The spawn queue on concrete requests.
use stacyvm.Base.{
  ◌≡◌, refl, ◌≢◌, ◌↔◌, ◌⊎◌, inl, inr, Bool, true, false, not, some, List, [], ◌∷◌, arith, pos, fold,
  equal_fold,
}
use stacyvm.Orchestrator.Admission.Quota.{OperationalLimits, resource_limit, Result, ok}
use stacyvm.Orchestrator.Admission.Decision.{SpawnAdmissionDecision, queues, Reason}
use stacyvm.Orchestrator.Placement.{PlacementReason}
use stacyvm.Orchestrator.Admission.Queue.{
  Queue, admitted, refused, empty_queue, enter, deadline, capacity, woken, Locked,
  acquire_spawn_admission,
}
use stacyvm.Orchestrator.Admission.Queue.Waiters.{
  World, enters, wakes, Reach, here, next, start, IsValid, queue-Reach-IsValid,
}
use stacyvm.Orchestrator.Admission.Queue.Lock.{
  acquire_spawn_admission-held, acquire_spawn_admission-returns, SomeAllowed,
}

abbrev limits : OperationalLimits
limits = record {
  max_sandboxes = pos 2;
  max_sandboxes_per_owner = pos 1;
  default_exec_timeout = pos 10;
  max_exec_timeout = pos 20;
  max_ttl = pos 100;
  spawn_overflow = "queue";
  spawn_queue_timeout = pos 30;
  max_spawn_queue = pos 1;
}

abbrev decision : Bool → SpawnAdmissionDecision
decision allowed = record {
  allowed = allowed;
  queueable = not allowed;
  reason = Reason.no_reason;
  active_sandboxes = 2;
  max_sandboxes = pos 2;
  active_owner_sandboxes = 0;
  max_owner_sandboxes = pos 0;
  max_ttl = pos 0;
  selected_worker_id = "";
  eligible_workers = 0;
  worker_reason = PlacementReason.no_reason;
}

abbrev one_waits : Queue
one_waits = (enter limits (ok (decision false)) empty_queue).1

-- A second request finds the queue full.
queue_full :
    (enter limits (ok (decision false)) one_waits).0 ≡ refused (resource_limit "spawn queue full")
unfolding enter empty_queue queues equal_fold fold
queue_full = refl

let_in : (woken 5 (capacity (ok (decision true))) one_waits).0 ≡ admitted
unfolding enter empty_queue queues equal_fold fold woken
let_in = refl

waited_five : (woken 5 (capacity (ok (decision true))) one_waits).1.queue_stats.wait_max ≡ 5
unfolding enter empty_queue queues equal_fold fold woken
waited_five = refl

abbrev after_timeout : World
after_timeout = record { queue = (woken 30 deadline one_waits).1; live = 0; others = 0 }

timed_out-Reach : Reach limits start after_timeout
unfolding enter empty_queue queues equal_fold fold woken
timed_out-Reach = next (next here (enters (ok (decision false)))) (wakes 30 deadline (omega arith))

queue-Reach-IsValid_example : IsValid limits after_timeout
queue-Reach-IsValid_example = queue-Reach-IsValid limits after_timeout timed_out-Reach

abbrev rounds : List (Result (Unit {0}) × Result SpawnAdmissionDecision)
rounds = (ok tt, ok (decision false)) ∷ (ok tt, ok (decision true)) ∷ []

acquire_spawn_admission-returns_example :
    (r : Locked) × (acquire_spawn_admission limits rounds ≡ some r)
    × ((r.result ≡ ok tt) ↔ (r.held ≡ true))
acquire_spawn_admission-returns_example =
    acquire_spawn_admission-returns limits rounds (inr (inl refl))

abbrev done : Result (Unit {0})
done = ok tt

acquire_spawn_admission-held_example :
    ((done ≡ ok tt) × (true ≡ true) × SomeAllowed rounds) ⊎ ((done ≢ ok tt) × (true ≡ false))
unfolding acquire_spawn_admission queues equal_fold fold
acquire_spawn_admission-held_example =
    acquire_spawn_admission-held limits rounds (record { result = ok tt; held = true }) refl
