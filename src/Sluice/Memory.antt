-- ===== src/Sluice/Memory.antt =====
-- crates/sluice/src/queue.rs: `InMemoryQueue`. A method returns the queue that it leaves; the
-- recorder is the list of the calls that it was given.
pub mod Refinement
pub mod Invariant
pub mod Traces
use kaleidoscope.Prelude.{
  ℕ, String, Bool, true, false, Option, none, some, List, [], ◌∷◌, ◌++◌, leb, if◌then◌else◌, length,
  Result, ok, err, u64_add, u64_sub, nat_key, string_key,
}
use kaleidoscope.Prelude.Map.{get, insert, remove}
use kaleidoscope.Sluice.Types.{
  TenantId, MessageId, Payload, Message, EnqueueError, full, InnerState, empty_state, RecordedEvent,
  enqueued, dequeued, acked, nacked, queue_of, put_rest,
}

pub record InMemoryQueue : Type 0 where
  pub cap : ℕ
  pub events : List RecordedEvent
  pub state : InnerState

unfoldable pub new : ℕ → InMemoryQueue
new cap = record { cap = cap; events = []; state = empty_state }

unfoldable pub record_event : InMemoryQueue → RecordedEvent → InnerState → InMemoryQueue
record_event q event state = record q { events = q.events ++ event ∷ []; state = state }

unfoldable pub enqueue :
    InMemoryQueue → TenantId → Payload → InMemoryQueue × Result MessageId EnqueueError
unfolding record_event
enqueue q tenant payload =
    let queue = queue_of q.state.pending tenant in
    let pending = insert q.state.pending tenant queue in
    let id = u64_add q.state.next_id 1 in
    let message : Message = record { id = id; tenant = tenant; payload = payload } in
    if leb q.cap (length queue)
    then (
      record_event q (enqueued tenant false) (record (q.state) { pending = pending }),
      err (full tenant q.cap),
    )
    else (
      record_event q (enqueued tenant true) (record (q.state) {
        next_id = id;
        pending = insert pending tenant (queue ++ message ∷ []);
        total = u64_add q.state.total 1;
      }),
      ok id,
    )

unfoldable pub dequeue_from :
    InMemoryQueue
    → TenantId
    → Option (List Message)
    → InMemoryQueue × Result (Option Message) EnqueueError
dequeue_from q tenant none = (q, ok none)
dequeue_from q tenant (some []) = (q, ok none)
dequeue_from q tenant (some (message ∷ rest)) = (
  record_event q (dequeued tenant) (record (q.state) {
    pending = put_rest q.state.pending tenant rest;
    total = u64_sub q.state.total 1;
    in_flight = insert q.state.in_flight message.id message;
  }),
  ok (some message),
)

unfoldable pub dequeue :
    InMemoryQueue → TenantId → InMemoryQueue × Result (Option Message) EnqueueError
unfolding dequeue_from record_event
dequeue q tenant = dequeue_from q tenant (get q.state.pending tenant)

unfoldable pub ack_found : InMemoryQueue → MessageId → Option Message → InMemoryQueue
ack_found q id none = q
ack_found q id (some msg) =
    record_event q (acked msg.tenant) (record (q.state) { in_flight = remove q.state.in_flight id })

unfoldable pub ack : InMemoryQueue → MessageId → InMemoryQueue × Result (Unit {0}) EnqueueError
unfolding ack_found record_event
ack q id = (ack_found q id (get q.state.in_flight id), ok tt)

unfoldable pub nack_found : InMemoryQueue → MessageId → Option Message → InMemoryQueue
nack_found q id none = q
nack_found q id (some message) = record_event q (nacked message.tenant) (record (q.state) {
  in_flight = remove q.state.in_flight id;
  pending =
      insert q.state.pending message.tenant (message ∷ queue_of q.state.pending message.tenant);
  total = u64_add q.state.total 1;
})

unfoldable pub nack : InMemoryQueue → MessageId → InMemoryQueue × Result (Unit {0}) EnqueueError
unfolding nack_found record_event
nack q id = (nack_found q id (get q.state.in_flight id), ok tt)

unfoldable pub depth : InMemoryQueue → TenantId → ℕ
unfolding queue_of
depth q tenant = length (queue_of q.state.pending tenant)

unfoldable pub total_depth : InMemoryQueue → ℕ
total_depth q = q.state.total
