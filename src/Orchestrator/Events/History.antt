-- ===== src/Orchestrator/Events/History.antt =====
-- The history of the event bus (events.go, Publish and History).
use stacyvm.Base.{
  ℕ, ◌+◌, ◌-◌, ◌%◌, ◌≤◌, ◌<◌, ◌≡◌, sym, ap, ◌∙◌, List, [], ◌∷◌, ◌++◌, arith, length, drop, set,
  length-append, length-set, append_assoc_list, drop-set, get_elem?, get_elem?-set_ne,
  get_elem?-set_self, some,
}
use mathlib.Core.List.{append-nil}
use stacyvm.Orchestrator.Events.{
  Event, EventBus, default_history_size, new_event_bus, stamp, record_history, publish, history_of,
  history_limit,
}

-- A sequence of publishes, each with the time at which it is made.
unfoldable pub publish_many : List (ℕ × Event) → EventBus → EventBus
publish_many [] eb = eb
publish_many ((now, evt) ∷ rest) eb = publish_many rest (publish now evt eb)

-- The events as they are sent, numbered from `n + 1` on.
unfoldable pub sent_from : ℕ → List (ℕ × Event) → List Event
sent_from n [] = []
sent_from n ((now, evt) ∷ rest) = stamp now (n + 1) evt ∷ sent_from (n + 1) rest

-- The last `limit` entries of a list, or all where the limit is 0 or too large.
abbrev pub last_of : ℕ → List Event → List Event
last_of limit log = drop (length log - history_limit (length log) limit) log

pub publish-history :
    (now : ℕ) (evt : Event) (eb : EventBus)
    → (publish now evt eb).history
      ≡ record_history eb.history_size (eb.next_id + 1) (stamp now (eb.next_id + 1) evt) eb.history
unfolding publish
publish-history now evt eb = ground arith

pub publish-frame :
    (now : ℕ) (evt : Event) (eb : EventBus)
    → ((publish now evt eb).history_size ≡ eb.history_size)
      × ((publish now evt eb).next_id ≡ eb.next_id + 1)
unfolding publish
publish-frame now evt eb = ground arith

record_history-room :
    (size n : ℕ) (evt : Event) (h : List Event)
    → length h < size
    → record_history size n evt h ≡ h ++ evt ∷ []
unfolding record_history
record_history-room size n evt h lt = ground arith

record_history-full :
    (size n : ℕ) (evt : Event) (h : List Event)
    → size ≤ length h
    → record_history size n evt h ≡ set h (n % size) evt
unfolding record_history
record_history-full size n evt h le = ground arith

pub publish_many-history :
    (evts : List (ℕ × Event)) (eb : EventBus)
    → length eb.history + length evts ≤ eb.history_size
    → (publish_many evts eb).history ≡ eb.history ++ sent_from eb.next_id evts
unfolding publish_many sent_from
publish_many-history [] eb room = sym (append-nil eb.history)
publish_many-history ((now, evt) ∷ rest) eb room =
    let size = (publish-frame now evt eb).0 in
    let number = (publish-frame now evt eb).1 in
    let grown = publish-history now evt eb ∙ record_history-room _ _ _ _ (omega arith) in
    let tail = publish_many-history rest (publish now evt eb) (
      omega
        (arith, ap length grown, length-append eb.history (stamp now (eb.next_id + 1) evt ∷ []))) in
    rw (tail, grown, number)
      (append_assoc_list eb.history (stamp now (eb.next_id + 1) evt ∷ [])
        (sent_from (eb.next_id + 1) rest))

-- Until the ring is full, `History` answers the events that were published last, in the order in
-- which they were published: on a new bus and for at most 1000 publishes, `History(limit)` is the
-- last `limit` of the events sent (all of them where limit is 0 or larger than their number).
pub history_of_recent :
    (evts : List (ℕ × Event)) (limit : ℕ)
    → length evts ≤ default_history_size
    → history_of limit (publish_many evts new_event_bus) ≡ last_of limit (sent_from 0 evts)
unfolding history_of new_event_bus
history_of_recent evts limit few = rw (publish_many-history evts new_event_bus (omega arith))

one_mod : (s : ℕ) → 2 ≤ s → (s + 1) % s ≡ 1
one_mod s h = grind arith

-- The first publish after the ring has filled up keeps the oldest event, at index 0, and overwrites
-- the one after it, at index 1; the history has the length it had.
pub publish_keeps_oldest :
    (now : ℕ) (evt : Event) (eb : EventBus)
    → length eb.history ≡ eb.history_size
    → eb.next_id ≡ eb.history_size
    → 2 ≤ eb.history_size
    → (get_elem? (publish now evt eb).history 0 ≡ get_elem? eb.history 0)
      × (get_elem? (publish now evt eb).history 1 ≡ some (stamp now (eb.next_id + 1) evt))
      × (length (publish now evt eb).history ≡ length eb.history)
publish_keeps_oldest now evt eb full numbered big =
    let index : (eb.next_id + 1) % eb.history_size ≡ 1 = rw numbered (one_mod _ big) in
    let written = publish-history now evt eb ∙ record_history-full _ _ _ _ (omega arith) in
    rw (written, index)
      (
        get_elem?-set_ne eb.history _ (omega arith),
        get_elem?-set_self eb.history 1 _ (omega arith),
        length-set eb.history 1 _,
      )

-- On a full ring `History(1)`, the most recent event, does not answer the event just published
-- unless the write falls on the last index: it answers what it answered before.
pub history_of-publish_stale :
    (now : ℕ) (evt : Event) (eb : EventBus)
    → length eb.history ≡ eb.history_size
    → (eb.next_id + 1) % eb.history_size < eb.history_size - 1
    → history_of 1 (publish now evt eb) ≡ history_of 1 eb
unfolding history_of history_limit
history_of-publish_stale now evt eb full before_last =
    let index = (eb.next_id + 1) % eb.history_size in
    let sent = stamp now (eb.next_id + 1) evt in
    let written =
      publish-history now evt eb
      ∙ record_history-full eb.history_size _ sent eb.history (omega arith) in
    rw (written, length-set eb.history index sent) (drop-set _ index eb.history sent (ground arith))
