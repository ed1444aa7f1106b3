-- ===== src/Sluice/Types.antt =====
-- crates/sluice/src/queue.rs and metrics.rs: the data of the queue port. A tenant is named by its
-- text; a payload is a list of bytes.
use kaleidoscope.Prelude.{
  ℕ, ◌+◌, String, Bool, Option, none, some, List, [], ◌∷◌, if◌then◌else◌, ◌==◌, nat_key, string_key,
}
use kaleidoscope.Prelude.Map.{Map, get, insert, remove, contains_key, sum_by}

-- aegis `TenantId`
abbrev pub TenantId : Type 0
TenantId = String

abbrev pub MessageId : Type 0
MessageId = ℕ

abbrev pub Payload : Type 0
Payload = List ℕ

pub record Message : Type 0 where
  pub id : MessageId
  pub tenant : TenantId
  pub payload : Payload

-- The text of a reason.
pub data EnqueueError : Type 0 where
  full : TenantId → ℕ → EnqueueError
  persistence_failed : String → EnqueueError

pub record InnerState : Type 0 where
  pub next_id : ℕ  -- u64
  pub pending : Map TenantId (List Message)
  pub in_flight : Map MessageId Message
  pub total : ℕ  -- usize

abbrev pub empty_state : InnerState
empty_state = record { next_id = 0; pending = []; in_flight = []; total = 0 }

-- What the `CapturingRecorder` keeps of one call of the recorder.
pub data RecordedEvent : Type 0 where
  enqueued : TenantId → Bool → RecordedEvent
  dequeued : TenantId → RecordedEvent
  acked : TenantId → RecordedEvent
  nacked : TenantId → RecordedEvent

abbrev pub or_default : Option (List Message) → List Message
or_default none = []
or_default (some queue) = queue

-- `pending.entry(tenant).or_default()`, and the queue that a reader of an absent key sees.
unfoldable pub queue_of : Map TenantId (List Message) → TenantId → List Message
queue_of pending tenant = or_default (get pending tenant)

-- The queue is dropped from the map when its last message leaves.
unfoldable pub put_rest :
    Map TenantId (List Message) → TenantId → List Message → Map TenantId (List Message)
put_rest pending tenant [] = remove pending tenant
put_rest pending tenant (m ∷ rest) = insert pending tenant (m ∷ rest)

-- How often an id stands in a queue, and in a state, pending or in flight.
unfoldable pub count_id : MessageId → List Message → ℕ
count_id i [] = 0
count_id i (m ∷ ms) = (if m.id == i then 1 else 0) + count_id i ms

abbrev pub occurs : MessageId → Map MessageId Message → ℕ
occurs i in_flight = if contains_key in_flight i then 1 else 0

abbrev pub held : MessageId → InnerState → ℕ
held i s = sum_by (count_id i) s.pending + occurs i s.in_flight
