-- ===== src/Sluice/Memory/Traces.antt =====
-- What holds of the in-memory queue (crates/sluice/src/queue.rs) over every sequence of calls.
use kaleidoscope.Prelude.{
  ℕ, ◌+◌, ◌<◌, ◌≤◌, ◌≡◌, ◌≢◌, refl, ap, sym, ◌∙◌, List, [], ◌∷◌, arith, length, u64_mod, All,
}
use kaleidoscope.Sluice.Types.{MessageId, held}
use kaleidoscope.Sluice.Spec.{View, Op, Reply, promise, Shows}
use kaleidoscope.Sluice.Invariant.{IsWellFormed, empty_state-IsWellFormed}
use kaleidoscope.Sluice.Memory.{InMemoryQueue, new, enqueue, dequeue, ack, nack}
use kaleidoscope.Sluice.Memory.Refinement.{step, step-Shows, step_replies}
use kaleidoscope.Sluice.Memory.Invariant.{
  HasRoom, step-IsWellFormed, held-dequeue, held-nack, held-ack_ne, held-enqueue, next_id-enqueue,
}

-- A client's calls in order, with the answers.
unfoldable pub run : InMemoryQueue → List Op → InMemoryQueue × List Reply
run q [] = (q, [])
run q (op ∷ ops) =
    let (q', reply) = step q op in let (q'', replies) = run q' ops in (q'', reply ∷ replies)

unfoldable pub promised : ℕ → View → List Op → View × List Reply
promised cap v [] = (v, [])
promised cap v (op ∷ ops) =
    let (v', reply) = promise cap v op in
    let (v'', replies) = promised cap v' ops in (v'', reply ∷ replies)

cap-step : (q : InMemoryQueue) (op : Op) → (step q op).0.cap ≡ q.cap
unfolding step enqueue dequeue ack nack
cap-step q (Op.enqueue t payload) = ground arith
cap-step q op = ground arith

-- From a state that shows a view, any calls leave a state that shows the promised view, and get the
-- promised answers.
pub run_refines :
    (ops : List Op) (q : InMemoryQueue) (v : View)
    → Shows q.state v
    → Shows (run q ops).0.state (promised q.cap v ops).0
      × ((run q ops).1 ≡ (promised q.cap v ops).1)
unfolding run promised
run_refines [] q v h = (h, refl)
run_refines (op ∷ ops) q v h =
    let (shows, replies) =
      run_refines ops (step q op).0 (promise q.cap v op).0 (step-Shows q v h op) in
    let shows' = rw (cap-step q op) at shows in
    let replies' = rw (cap-step q op) at replies in (shows', cc (step_replies q v h op, replies'))

-- How far one call can move the counter of ids.
next_id-step :
    (q : InMemoryQueue) (op : Op)
    → HasRoom q
    → (q.state.next_id ≤ (step q op).0.state.next_id)
      × ((step q op).0.state.next_id ≤ q.state.next_id + 1)
unfolding step dequeue ack nack
next_id-step q (Op.enqueue t payload) room = next_id-enqueue q t payload room
next_id-step q op room = ground arith

-- There are ids left for all the calls.
abbrev pub HasRoomFor : InMemoryQueue → List Op → Type 0
HasRoomFor q ops = q.state.next_id + length ops < u64_mod

-- Any calls keep the invariant, while the counter of ids does not wrap: the total is the number of
-- pending messages modulo 2 ^ 64, every id is held once at most, pending or in flight, and only if it
-- has been issued, every pending message stands in the queue of its own tenant, a message in flight
-- stands under its id, and the maps have each key once.
pub run-IsWellFormed :
    (ops : List Op) (q : InMemoryQueue)
    → HasRoomFor q ops
    → IsWellFormed q.state
    → IsWellFormed (run q ops).0.state
unfolding run
run-IsWellFormed [] q room w = w
run-IsWellFormed (op ∷ ops) q room w =
    run-IsWellFormed ops (step q op).0 (omega (arith, next_id-step q op (omega arith)))
      (step-IsWellFormed q w op (omega arith))

pub new-IsWellFormed : (bound : ℕ) → IsWellFormed (new bound).state
unfolding new
new-IsWellFormed bound = empty_state-IsWellFormed

-- The call is no acknowledgement of `i`.
abbrev pub Spares : MessageId → Op → Type 0
Spares i op = op ≢ Op.ack i

held-step :
    (q : InMemoryQueue) (i : MessageId) (op : Op)
    → HasRoom q
    → IsWellFormed q.state
    → i ≤ q.state.next_id
    → Spares i op
    → held i (step q op).0.state ≡ held i q.state
unfolding step
held-step q i (Op.enqueue t payload) room w old ne = held-enqueue q t payload i room old
held-step q i (Op.dequeue t) room w old ne = held-dequeue q w t i
held-step q i (Op.ack id) room w old ne = held-ack_ne q id i (λ e. ne (ap Op.ack (sym e)))
held-step q i (Op.nack id) room w old ne = held-nack q w id i

-- At least once, and never twice at a time: in a well-formed state and while the counter of ids does
-- not wrap, the number of copies of an issued id, pending and in flight, is 0 or 1, and is the same
-- after any calls that do not acknowledge it.
pub held-run :
    (ops : List Op) (q : InMemoryQueue) (i : MessageId)
    → HasRoomFor q ops
    → IsWellFormed q.state
    → i ≤ q.state.next_id
    → All (Spares i) ops
    → (held i (run q ops).0.state ≡ held i q.state) × (held i q.state ≤ 1)
unfolding run
held-run [] q i room w old spared = (refl, w.ids_once i)
held-run (op ∷ ops) q i room w old spared =
    let moved = next_id-step q op (omega arith) in
    let later =
      held-run ops (step q op).0 i (omega (arith, moved)) (step-IsWellFormed q w op (omega arith))
        (omega (arith, moved)) spared.1 in
    (later.0 ∙ held-step q i op (omega arith) w old spared.0, w.ids_once i)
