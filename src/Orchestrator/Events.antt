-- ===== src/Orchestrator/Events.antt =====
-- internal/orchestrator/events.go: the in-process event bus. Each method runs under the bus's
-- mutex, so it is one step on the bus. A subscriber's channel is its buffer, oldest event first; the
-- clock is an argument; the durable bridge is the list of events that its hook was started with.
mod History
mod Delivery
mod Tests
use stacyvm.Base.{
  ℕ, suc, ◌+◌, ◌-◌, ◌%◌, ◌/◌, Bool, true, false, Option, none, some, List, [], ◌∷◌, ◌++◌, String,
  Dict, insert, delete, lookup, length, drop, set, ltb, ◌==◌, ◌||◌, if◌then◌else◌, is_empty,
}
use Prim.Native.String

pub data EventType : Type 0 where
  sandbox_created sandbox_running sandbox_destroyed sandbox_error : EventType
  exec_started exec_completed exec_failed exec_timeout : EventType
  file_written file_read operation_failed resource_limit provider_failed : EventType
  reconcile_action spawn_queued spawn_dequeued spawn_queue_timeout : EventType
  quota_saved quota_deleted : EventType

-- A zero time stamp is Go's zero time.
pub record Event : Type 0 where
  pub id : String
  pub type : EventType
  pub sandbox_id : String
  pub timestamp : ℕ
  pub payload : String

abbrev pub default_history_size : ℕ
default_history_size = 1000

abbrev pub default_subscriber_buf : ℕ
default_subscriber_buf = 64

pub record EventBus : Type 0 where
  pub subscribers : Dict (List Event)
  pub history : List Event
  pub history_size : ℕ
  pub next_id : ℕ
  pub on_publish : Bool
  pub hooked : List Event

pub new_event_bus : EventBus
new_event_bus = record {
  subscribers = [];
  history = [];
  history_size = default_history_size;
  next_id = 0;
  on_publish = false;
  hooked = [];
}

pub digit : ℕ → String
digit d =
    if d == 0
    then "0"
    else if d == 1
    then "1"
    else if d == 2
    then "2"
    else if d == 3
    then "3"
    else if d == 4
    then "4"
    else if d == 5
    then "5"
    else if d == 6
    then "6"
    else if d == 7
    then "7"
    else if d == 8
    then "8"
    else "9"

-- strconv.Itoa, least digit first; as many rounds as the number itself are enough.
pub itoa_from : ℕ → ℕ → String → String
itoa_from ℕ.zero n rest = rest
itoa_from (suc fuel) n rest =
    let shown = String.◌++◌ (digit (n % 10)) rest in
    let more = itoa_from fuel (n / 10) shown in if n / 10 == 0 then shown else more

pub string_id : ℕ → String
unfolding itoa_from digit
string_id n = String.◌++◌ "evt-" (itoa_from (suc n) n "")

-- The event as it is stored and sent: time and id filled in.
pub stamp : ℕ → ℕ → Event → Event
stamp now n evt = record evt {
  timestamp = if evt.timestamp == 0 then now else evt.timestamp;
  id = if is_empty evt.id then string_id n else evt.id;
}

-- Ring buffer: append, or overwrite at `nextID % historySize`.
pub record_history : ℕ → ℕ → Event → List Event → List Event
record_history size n evt history =
    if ltb (length history) size then history ++ evt ∷ [] else set history (n % size) evt

-- A send with a `default` case: dropped where the buffer is full.
pub deliver : Event → List Event → List Event
deliver evt buffer =
    if ltb (length buffer) default_subscriber_buf then buffer ++ evt ∷ [] else buffer

pub deliver_all : Event → Dict (List Event) → Dict (List Event)
deliver_all evt [] = []
deliver_all evt ((k, buffer) ∷ subs) = (k, deliver evt buffer) ∷ deliver_all evt subs

pub publish_local : ℕ → Event → EventBus → EventBus
unfolding stamp record_history deliver_all
publish_local now evt eb =
    let n = eb.next_id + 1 in
    let sent = stamp now n evt in
    record eb {
      next_id = n;
      history = record_history eb.history_size n sent eb.history;
      subscribers = deliver_all sent eb.subscribers;
    }

pub publish : ℕ → Event → EventBus → EventBus
unfolding publish_local
publish now evt eb =
    let sent = stamp now (eb.next_id + 1) evt in
    let delivered = publish_local now evt eb in
    if eb.on_publish then record delivered { hooked = eb.hooked ++ sent ∷ [] } else delivered

pub attach_durable_bridge : EventBus → EventBus
attach_durable_bridge eb = record eb { on_publish = true }

pub subscribe : String → EventBus → EventBus
subscribe id eb = record eb { subscribers = insert id [] eb.subscribers }

pub unsubscribe : String → EventBus → EventBus
unsubscribe id eb = record eb { subscribers = delete id eb.subscribers }

-- A receive from the channel of a subscriber, by its reader.
pub take_first : List Event → Option Event × List Event
take_first [] = (none, [])
take_first (e ∷ es) = (some e, es)

pub receive : String → EventBus → Option Event × EventBus
unfolding take_first
receive id eb = elim (lookup id eb.subscribers) [
  | none ↦ (none, eb)
  | some buffer ↦ (
    (take_first buffer).0,
    record eb { subscribers = insert id (take_first buffer).1 eb.subscribers },
  )
]

-- The limit that `History` uses for a request: a natural number, where 0 stands for `limit <= 0`.
pub history_limit : ℕ → ℕ → ℕ
history_limit stored limit = if limit == 0 || ltb stored limit then stored else limit

pub history_of : ℕ → EventBus → List Event
unfolding history_limit
history_of limit eb = drop (length eb.history - history_limit (length eb.history) limit) eb.history

pub record EventBusStats : Type 0 where
  pub subscribers : ℕ
  pub history_size : ℕ
  pub events_total : ℕ

pub stats : EventBus → EventBusStats
stats eb = record {
  subscribers = length eb.subscribers;
  history_size = length eb.history;
  events_total = eb.next_id;
}
