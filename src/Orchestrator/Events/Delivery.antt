-- ===== src/Orchestrator/Events/Delivery.antt =====
-- What subscribers of the event bus receive (events.go, Publish, Subscribe and Unsubscribe).
use stacyvm.Base.{
  ℕ, ◌+◌, ◌%◌, ◌⊎◌, ◌≤◌, ◌≡◌, refl, sym, ap, ◌∙◌, List, [], ◌∷◌, ◌++◌, arith, some, String, Dict,
  lookup, insert, delete, length, length-append, append_assoc_list, if◌then◌else◌, ltb,
  Option-cases, length-set, inl, inr,
}
use mathlib.Core.Option
use mathlib.Core.List.{append-nil}
use stacyvm.Orchestrator.Events.{
  Event, EventBus, default_subscriber_buf, new_event_bus, stamp, deliver, deliver_all,
  record_history, publish, subscribe, unsubscribe, receive, take_first, attach_durable_bridge,
}
use stacyvm.Orchestrator.Events.History.{publish_many, sent_from, publish-history, publish-frame}

lookup-deliver_all :
    (k : String) (evt : Event) (subs : Dict (List Event))
    → lookup k (deliver_all evt subs) ≡ Option.map (deliver evt) (lookup k subs)
unfolding lookup deliver_all
lookup-deliver_all k evt [] = refl
lookup-deliver_all k evt ((j, buffer) ∷ subs) = ground (arith, lookup-deliver_all k evt subs)

publish-subscribers :
    (now : ℕ) (evt : Event) (eb : EventBus)
    → (publish now evt eb).subscribers ≡ deliver_all (stamp now (eb.next_id + 1) evt) eb.subscribers
unfolding publish
publish-subscribers now evt eb = ground arith

-- A publish reaches every subscriber: each one's buffer gets the event as sent, at its end, if it
-- holds fewer than 64 events, and is left as it was otherwise. Nobody is subscribed or removed.
pub publish_delivers :
    (k : String) (now : ℕ) (evt : Event) (eb : EventBus)
    → lookup k (publish now evt eb).subscribers
      ≡ Option.map
          (λ buffer.
            if ltb (length buffer) default_subscriber_buf
            then buffer ++ stamp now (eb.next_id + 1) evt ∷ []
            else buffer)
          (lookup k eb.subscribers)
unfolding deliver
publish_delivers k now evt eb = rw (publish-subscribers now evt eb) (lookup-deliver_all k _ _)

-- A subscriber whose buffer has room for all of a sequence of events gets all of them, in order.
pub publish_many_fifo :
    (k : String) (evts : List (ℕ × Event)) (eb : EventBus) (buffer : List Event)
    → lookup k eb.subscribers ≡ some buffer
    → length buffer + length evts ≤ default_subscriber_buf
    → lookup k (publish_many evts eb).subscribers ≡ some (buffer ++ sent_from eb.next_id evts)
unfolding publish_many sent_from
publish_many_fifo k [] eb buffer found room = found ∙ ap some (sym (append-nil buffer))
publish_many_fifo k ((now, evt) ∷ rest) eb buffer found room =
    let sent = stamp now (eb.next_id + 1) evt in
    let reached : lookup k (publish now evt eb).subscribers ≡ some (buffer ++ sent ∷ []) =
      rw (publish_delivers k now evt eb, found) (ground arith) in
    let number = (publish-frame now evt eb).1 in
    let tail =
      publish_many_fifo k rest (publish now evt eb) (buffer ++ sent ∷ []) reached
        (omega (arith, length-append buffer (sent ∷ []))) in
    rw (tail, number)
      (ap some (append_assoc_list buffer (sent ∷ []) (sent_from (eb.next_id + 1) rest)))

-- The calls that change the bus, those of its subscribers included.
pub data Call : Type 0 where
  publishes : ℕ → Event → Call
  subscribes unsubscribes receives : String → Call
  bridges : Call

pub apply : Call → EventBus → EventBus
apply (publishes now evt) eb = publish now evt eb
apply (subscribes id) eb = subscribe id eb
apply (unsubscribes id) eb = unsubscribe id eb
apply (receives id) eb = (receive id eb).1
apply bridges eb = attach_durable_bridge eb

pub run : List Call → EventBus → EventBus
run [] eb = eb
run (c ∷ cs) eb = run cs (apply c eb)

abbrev Bounded : Dict (List Event) → Type 0
Bounded [] = Unit
Bounded ((k, buffer) ∷ subs) = (length buffer ≤ default_subscriber_buf) × Bounded subs

-- Every buffer is within its capacity, the history within its size, and it holds an event for
-- each number given out until the ring is full.
pub record IsValid (eb : EventBus) : Type 0 where
  pub buffers : Bounded eb.subscribers
  pub within : length eb.history ≤ eb.history_size
  pub filled : (length eb.history ≡ eb.next_id) ⊎ (length eb.history ≡ eb.history_size)

deliver_all-Bounded :
    (evt : Event) (subs : Dict (List Event)) → Bounded subs → Bounded (deliver_all evt subs)
unfolding deliver_all deliver
deliver_all-Bounded evt [] b = tt
deliver_all-Bounded evt ((k, buffer) ∷ subs) b =
    ground (arith, deliver_all-Bounded evt subs b.1, length-append buffer (evt ∷ []))

insert-Bounded :
    (k : String) (buffer : List Event) (subs : Dict (List Event))
    → length buffer ≤ default_subscriber_buf
    → Bounded subs
    → Bounded (insert k buffer subs)
unfolding insert
insert-Bounded k buffer [] h b = (h, tt)
insert-Bounded k buffer ((j, old) ∷ subs) h b = ground (arith, insert-Bounded k buffer subs h b.1)

delete-Bounded : (k : String) (subs : Dict (List Event)) → Bounded subs → Bounded (delete k subs)
unfolding delete
delete-Bounded k [] b = tt
delete-Bounded k ((j, old) ∷ subs) b = ground (arith, delete-Bounded k subs b.1)

lookup-Bounded :
    (k : String) (subs : Dict (List Event)) (buffer : List Event)
    → Bounded subs
    → lookup k subs ≡ some buffer
    → length buffer ≤ default_subscriber_buf
unfolding lookup
lookup-Bounded k [] buffer b e = cc
lookup-Bounded k ((j, old) ∷ subs) buffer b e = ground (arith, lookup-Bounded k subs buffer b.1)

take_first-length : (buffer : List Event) → length (take_first buffer).1 ≤ length buffer
unfolding take_first
take_first-length [] = omega arith
take_first-length (e ∷ es) = omega arith

publish-IsValid :
    (now : ℕ) (evt : Event) (eb : EventBus) → IsValid eb → IsValid (publish now evt eb)
unfolding record_history
publish-IsValid now evt eb v =
    let sent = stamp now (eb.next_id + 1) evt in
    record {
      buffers =
          rw (publish-subscribers now evt eb) (deliver_all-Bounded sent eb.subscribers v.buffers);
      within = ground (
        arith,
        publish-history now evt eb,
        publish-frame now evt eb,
        length-append eb.history (sent ∷ []),
        length-set eb.history ((eb.next_id + 1) % eb.history_size) sent,
      );
      filled = ground (
        arith,
        publish-history now evt eb,
        publish-frame now evt eb,
        length-append eb.history (sent ∷ []),
        length-set eb.history ((eb.next_id + 1) % eb.history_size) sent,
      );
    }

receive-IsValid : (id : String) (eb : EventBus) → IsValid eb → IsValid (receive id eb).1
unfolding receive
receive-IsValid id eb v = elim (Option-cases (lookup id eb.subscribers)) [
  | inl missing ↦ rw (missing, receive) v
  | inr (buffer, found) ↦
      rw (found, receive)
        (record {
          buffers =
              insert-Bounded id (take_first buffer).1 eb.subscribers
                (omega (
                  arith,
                  take_first-length buffer,
                  lookup-Bounded id eb.subscribers buffer v.buffers found,
                ))
                v.buffers;
          within = v.within;
          filled = v.filled;
        })
]

apply-IsValid : (c : Call) (eb : EventBus) → IsValid eb → IsValid (apply c eb)
unfolding apply subscribe unsubscribe attach_durable_bridge
apply-IsValid (publishes now evt) eb v = publish-IsValid now evt eb v
apply-IsValid (subscribes id) eb v = record {
  buffers = insert-Bounded id [] eb.subscribers (omega arith) v.buffers;
  within = v.within;
  filled = v.filled;
}
apply-IsValid (unsubscribes id) eb v = record {
  buffers = delete-Bounded id eb.subscribers v.buffers;
  within = v.within;
  filled = v.filled;
}
apply-IsValid (receives id) eb v = receive-IsValid id eb v
apply-IsValid bridges eb v = record { buffers = v.buffers; within = v.within; filled = v.filled }

run-keeps : (cs : List Call) (eb : EventBus) → IsValid eb → IsValid (run cs eb)
unfolding run
run-keeps [] eb v = v
run-keeps (c ∷ cs) eb v = run-keeps cs (apply c eb) (apply-IsValid c eb v)

-- After any calls on a new bus: no subscriber's buffer holds more than 64 events, the history
-- holds no more events than its size, and it holds one for each number given out, or is full.
pub run-IsValid : (cs : List Call) → IsValid (run cs new_event_bus)
unfolding new_event_bus
run-IsValid cs =
    run-keeps cs new_event_bus
      (record { buffers = tt; within = omega arith; filled = inl (omega arith) })
