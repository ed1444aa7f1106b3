-- ===== src/Sluice/Memory/Invariant.antt =====
-- Each call of the in-memory queue (crates/sluice/src/queue.rs) keeps the invariant, and what it
-- does to the ids that the state holds.
use kaleidoscope.Prelude.{
  ◌+◌, ◌<◌, ◌≤◌, ◌≡◌, refl, Option, none, some, List, [], ◌∷◌, arith, length, u64_mod, u64_add,
  nat_key, string_key, leb, Bool-cases, inl, inr, ◌≢◌, nat_beq_iff,
}
use kaleidoscope.Prelude.Map.{get}
use kaleidoscope.Sluice.Types.{TenantId, MessageId, Payload, Message, queue_of, held, or_default}
use kaleidoscope.Sluice.Spec.{Op}
use kaleidoscope.Sluice.Invariant.{
  IsWellFormed, held-touched, held-accept, held-take, held-drop, held-give, touched-IsWellFormed,
  accept-IsWellFormed, take-IsWellFormed, drop-IsWellFormed, give-IsWellFormed,
}
use kaleidoscope.Sluice.Memory.{
  InMemoryQueue, enqueue, dequeue, ack, nack, dequeue_from, ack_found, nack_found, record_event,
}
use kaleidoscope.Sluice.Memory.Refinement.{step}

-- The counter of ids has not reached the end of the word.
abbrev pub HasRoom : InMemoryQueue → Type 0
HasRoom q = q.state.next_id + 1 < u64_mod

module _ (q : InMemoryQueue) (w : IsWellFormed q.state) where
  enqueue-IsWellFormed :
      (t : TenantId) (payload : Payload) → HasRoom q → IsWellFormed (enqueue q t payload).0.state
  unfolding enqueue
  enqueue-IsWellFormed t payload room =
      elim (Bool-cases (leb q.cap (length (queue_of q.state.pending t)))) [
        | inl full ↦ rw full (touched-IsWellFormed q.state t w)
        | inr free ↦ rw free (
            accept-IsWellFormed q.state t
              (record { id = u64_add q.state.next_id 1; tenant = t; payload = payload })
              (omega arith) refl w)
      ]

  dequeue_from-IsWellFormed :
      (t : TenantId) (found : Option (List Message))
      → queue_of q.state.pending t ≡ or_default found
      → IsWellFormed (dequeue_from q t found).0.state
  unfolding dequeue_from record_event
  dequeue_from-IsWellFormed t none e = w
  dequeue_from-IsWellFormed t (some []) e = w
  dequeue_from-IsWellFormed t (some (m ∷ rest)) e = take-IsWellFormed q.state w t m rest e

  ack_found-IsWellFormed :
      (id : MessageId) (found : Option Message) → IsWellFormed (ack_found q id found).state
  unfolding ack_found record_event
  ack_found-IsWellFormed id none = w
  ack_found-IsWellFormed id (some m) = drop-IsWellFormed q.state w id

  nack_found-IsWellFormed :
      (id : MessageId) (found : Option Message)
      → get q.state.in_flight id ≡ found
      → IsWellFormed (nack_found q id found).state
  unfolding nack_found record_event
  nack_found-IsWellFormed id none e = w
  nack_found-IsWellFormed id (some m) e = give-IsWellFormed q.state w id m e

  -- Every call, whatever it answers, keeps the invariant while the counter has room.
  pub step-IsWellFormed : (op : Op) → HasRoom q → IsWellFormed (step q op).0.state
  unfolding step dequeue ack nack
  step-IsWellFormed (Op.enqueue t payload) room = enqueue-IsWellFormed t payload room
  step-IsWellFormed (Op.dequeue t) room =
      unfold queue_of in dequeue_from-IsWellFormed t (get q.state.pending t) refl
  step-IsWellFormed (Op.ack id) room = ack_found-IsWellFormed id (get q.state.in_flight id)
  step-IsWellFormed (Op.nack id) room = nack_found-IsWellFormed id (get q.state.in_flight id) refl

  held-dequeue_from :
      (t : TenantId) (found : Option (List Message))
      → queue_of q.state.pending t ≡ or_default found
      → (i : MessageId) → held i (dequeue_from q t found).0.state ≡ held i q.state
  unfolding dequeue_from record_event
  held-dequeue_from t none e i = refl
  held-dequeue_from t (some []) e i = refl
  held-dequeue_from t (some (m ∷ rest)) e i = held-take q.state w t m rest e i

  -- A message that is given to a consumer is still held.
  pub held-dequeue : (t : TenantId) (i : MessageId) → held i (dequeue q t).0.state ≡ held i q.state
  unfolding dequeue queue_of
  held-dequeue t i = held-dequeue_from t (get q.state.pending t) refl i

  held-nack_found :
      (id : MessageId) (found : Option Message)
      → get q.state.in_flight id ≡ found
      → (i : MessageId) → held i (nack_found q id found).state ≡ held i q.state
  unfolding nack_found record_event
  held-nack_found id none e i = refl
  held-nack_found id (some m) e i = held-give q.state w id m e i

  pub held-nack : (id i : MessageId) → held i (nack q id).0.state ≡ held i q.state
  unfolding nack
  held-nack id i = held-nack_found id (get q.state.in_flight id) refl i

module _ (q : InMemoryQueue) where
  held-ack_found :
      (id : MessageId) (found : Option Message) (i : MessageId)
      → i ≢ id
      → held i (ack_found q id found).state ≡ held i q.state
  unfolding ack_found record_event
  held-ack_found id none i ne = refl
  held-ack_found id (some m) i ne = ground (arith, held-drop q.state id i, nat_beq_iff id i)

  -- An acknowledgement lets go of no other message.
  pub held-ack_ne : (id i : MessageId) → i ≢ id → held i (ack q id).0.state ≡ held i q.state
  unfolding ack
  held-ack_ne id i ne = held-ack_found id (get q.state.in_flight id) i ne

  pub next_id-enqueue :
      (t : TenantId) (payload : Payload)
      → HasRoom q
      → (q.state.next_id ≤ (enqueue q t payload).0.state.next_id)
        × ((enqueue q t payload).0.state.next_id ≤ q.state.next_id + 1)
  unfolding enqueue
  next_id-enqueue t payload room = ground arith

  -- An enqueue adds one copy of the id that it issues, if any, and touches no other.
  pub held-enqueue :
      (t : TenantId) (payload : Payload) (i : MessageId)
      → HasRoom q
      → i ≤ q.state.next_id
      → held i (enqueue q t payload).0.state ≡ held i q.state
  unfolding enqueue
  held-enqueue t payload i room old =
      elim (Bool-cases (leb q.cap (length (queue_of q.state.pending t)))) [
        | inl full ↦ rw full (held-touched q.state t i)
        | inr free ↦ rw free (
            let m : Message = record {
              id = u64_add q.state.next_id 1;
              tenant = t;
              payload = payload;
            } in
            ground (arith, held-accept q.state t m i, nat_beq_iff m.id i))
      ]
