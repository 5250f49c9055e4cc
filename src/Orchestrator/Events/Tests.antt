-- ===== src/Orchestrator/Events/Tests.antt =====
-- Runs of the event bus, and the theorems about it at concrete inputs.
use stacyvm.Base.{
  ◌≡◌, refl, false, some, [], ◌∷◌, ◌++◌, arith, ltb, if◌then◌else◌, length, get_elem?, lookup,
}
use stacyvm.Orchestrator.Events.{
  Event, EventBus, sandbox_created, exec_started, new_event_bus, stamp, publish, string_id,
  history_of, default_subscriber_buf,
}
use stacyvm.Orchestrator.Events.History.{
  publish_many, sent_from, history_of_recent, publish_keeps_oldest, history_of-publish_stale,
  last_of,
}
use stacyvm.Orchestrator.Events.Delivery.{
  publishes, subscribes, receives, run, IsValid, publish_delivers, publish_many_fifo, run-IsValid,
}
use mathlib.Core.Option

string_id_test : string_id 1203 ≡ "evt-1203"
unfolding string_id
string_id_test = refl

abbrev created : Event
created = record {
  id = "";
  type = sandbox_created;
  sandbox_id = "sb-1";
  timestamp = 0;
  payload = "";
}

abbrev started : Event
started = record { id = "x"; type = exec_started; sandbox_id = "sb-1"; timestamp = 9; payload = "" }

-- A bus whose ring of four is full.
abbrev full_bus : EventBus
full_bus = record {
  subscribers = ("ui", []) ∷ [];
  history = created ∷ started ∷ created ∷ started ∷ [];
  history_size = 4;
  next_id = 4;
  on_publish = false;
  hooked = [];
}

history_of_recent_instance :
    history_of 1 (publish_many ((5, created) ∷ (6, started) ∷ []) new_event_bus)
    ≡ last_of 1 (sent_from 0 ((5, created) ∷ (6, started) ∷ []))
history_of_recent_instance = history_of_recent ((5, created) ∷ (6, started) ∷ []) 1 (omega arith)

publish_keeps_oldest_example :
    (get_elem? (publish 7 created full_bus).history 0 ≡ get_elem? full_bus.history 0)
    × (get_elem? (publish 7 created full_bus).history 1 ≡ some (stamp 7 5 created))
    × (length (publish 7 created full_bus).history ≡ length full_bus.history)
publish_keeps_oldest_example = publish_keeps_oldest 7 created full_bus refl refl (omega arith)

history_of-publish_stale_instance :
    history_of 1 (publish 7 created full_bus) ≡ history_of 1 full_bus
history_of-publish_stale_instance = history_of-publish_stale 7 created full_bus refl (omega arith)

publish_delivers_instance :
    lookup "ui" (publish 7 created full_bus).subscribers
    ≡ Option.map
        (λ buffer.
          if ltb (length buffer) default_subscriber_buf
          then buffer ++ stamp 7 5 created ∷ []
          else buffer)
        (lookup "ui" full_bus.subscribers)
publish_delivers_instance = publish_delivers "ui" 7 created full_bus

publish_many_fifo_example :
    lookup "ui" (publish_many ((5, created) ∷ []) full_bus).subscribers
    ≡ some (sent_from 4 ((5, created) ∷ []))
unfolding lookup
publish_many_fifo_example =
    publish_many_fifo "ui" ((5, created) ∷ []) full_bus [] refl (omega arith)

run-IsValid_instance :
    IsValid (run (subscribes "ui" ∷ publishes 5 created ∷ receives "ui" ∷ []) new_event_bus)
run-IsValid_instance = run-IsValid (subscribes "ui" ∷ publishes 5 created ∷ receives "ui" ∷ [])
