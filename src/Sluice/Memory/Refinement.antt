-- ===== src/Sluice/Memory/Refinement.antt =====
-- The in-memory queue of crates/sluice/src/queue.rs keeps the promise of the port.
use kaleidoscope.Prelude.{
  ◌≡◌, refl, Option, none, some, List, [], ◌∷◌, ◌++◌, arith, u64_add, Result, ok, err, nat_key,
  string_key, eq_iff, nat_beq_iff,
}
use kaleidoscope.Prelude.Map.{get, insert, get-insert, get-remove}
use kaleidoscope.Sluice.Types.{
  TenantId, MessageId, Payload, Message, EnqueueError, queue_of, or_default,
}
use kaleidoscope.Sluice.Spec.{
  View, Reply, accepted, refused, delivered, done, Op, promise, Shows, at_id, take_front, give_back,
}
use kaleidoscope.Sluice.Queues.{queue_of-insert, queue_of-put_rest}
use kaleidoscope.Sluice.Memory.{
  InMemoryQueue, enqueue, dequeue, ack, nack, dequeue_from, nack_found, ack_found, record_event,
}

-- The reply of a call, in the words of the port.
abbrev pub enqueue_reply : Result MessageId EnqueueError → Reply
enqueue_reply (ok id) = accepted id
enqueue_reply (err e) = refused e

abbrev pub dequeue_reply : Result (Option Message) EnqueueError → Reply
dequeue_reply (ok m) = delivered m
dequeue_reply (err e) = refused e

abbrev pub unit_reply : Result (Unit {0}) EnqueueError → Reply
unit_reply (ok u) = done
unit_reply (err e) = refused e

-- One call of the trait.
unfoldable pub step : InMemoryQueue → Op → InMemoryQueue × Reply
step q (Op.enqueue t payload) = let (q', r) = enqueue q t payload in (q', enqueue_reply r)
step q (Op.dequeue t) = let (q', r) = dequeue q t in (q', dequeue_reply r)
step q (Op.ack id) = let (q', r) = ack q id in (q', unit_reply r)
step q (Op.nack id) = let (q', r) = nack q id in (q', unit_reply r)

module _ (q : InMemoryQueue) (v : View) (h : Shows q.state v) where
  Shows-enqueue :
      (t : TenantId) (payload : Payload)
      → Shows (step q (Op.enqueue t payload)).0.state (promise q.cap v (Op.enqueue t payload)).0
  unfolding step enqueue promise
  Shows-enqueue t payload = record {
    last_id = ground (arith, h.last_id, h.contents t);
    contents = λ j. ground (
      arith,
      h.last_id,
      h.contents t,
      h.contents j,
      eq_iff t j,
      queue_of-insert q.state.pending t (queue_of q.state.pending t) j,
      queue_of-insert (insert q.state.pending t (queue_of q.state.pending t)) t
          (queue_of q.state.pending t
            ++ record { id = u64_add q.state.next_id 1; tenant = t; payload = payload } ∷ [])
          j,
    );
    held_by = λ i. ground (arith, h.contents t, h.held_by i);
  }

  Shows-dequeue_from :
      (t : TenantId) (found : Option (List Message))
      → Shows (dequeue_from q t found).0.state (take_front v t (or_default found)).0
  unfolding dequeue_from record_event take_front
  Shows-dequeue_from t none = h
  Shows-dequeue_from t (some []) = h
  Shows-dequeue_from t (some (m ∷ rest)) = record {
    last_id = h.last_id;
    contents = λ j. ground (arith, h.contents j, queue_of-put_rest q.state.pending t rest j);
    held_by = λ i. ground (arith, h.held_by i, get-insert q.state.in_flight m.id m i);
  }

  Shows-nack_found :
      (id : MessageId) (found : Option Message)
      → Shows (nack_found q id found).state (give_back v id found).0
  unfolding nack_found record_event give_back
  Shows-nack_found id none = h
  Shows-nack_found id (some m) = record {
    last_id = h.last_id;
    contents = λ j. ground (
      arith,
      h.contents j,
      h.contents m.tenant,
      queue_of-insert q.state.pending m.tenant (m ∷ queue_of q.state.pending m.tenant) j,
    );
    held_by = λ i. ground (arith, h.held_by i, get-remove q.state.in_flight id i);
  }

  Shows-ack_found :
      (id : MessageId) (found : Option Message)
      → get q.state.in_flight id ≡ found
      → Shows (ack_found q id found).state (record v { held_by = at_id v.held_by id none })
  unfolding ack_found record_event
  Shows-ack_found id none e = record {
    last_id = h.last_id;
    contents = h.contents;
    held_by = λ i. ground (arith, h.held_by i, nat_beq_iff id i, e);
  }
  Shows-ack_found id (some m) e = record {
    last_id = h.last_id;
    contents = h.contents;
    held_by = λ i. ground (arith, h.held_by i, get-remove q.state.in_flight id i);
  }

  -- From a state that shows a view, each call leaves a state that shows the promised view.
  pub step-Shows : (op : Op) → Shows (step q op).0.state (promise q.cap v op).0
  unfolding step dequeue ack nack promise
  step-Shows (Op.enqueue t payload) = Shows-enqueue t payload
  step-Shows (Op.dequeue t) =
      rw (← h.contents t) (unfold queue_of in Shows-dequeue_from t (get q.state.pending t))
  step-Shows (Op.ack id) = Shows-ack_found id (get q.state.in_flight id) refl
  step-Shows (Op.nack id) = rw (← h.held_by id) (Shows-nack_found id (get q.state.in_flight id))

  replies_dequeue_from :
      (t : TenantId) (found : Option (List Message))
      → dequeue_reply (dequeue_from q t found).1 ≡ (take_front v t (or_default found)).1
  unfolding dequeue_from take_front
  replies_dequeue_from t none = refl
  replies_dequeue_from t (some []) = refl
  replies_dequeue_from t (some (m ∷ rest)) = refl

  -- Each call answers what is promised.
  pub step_replies : (op : Op) → (step q op).1 ≡ (promise q.cap v op).1
  unfolding step enqueue dequeue ack nack promise give_back
  step_replies (Op.enqueue t payload) = ground (arith, h.last_id, h.contents t)
  step_replies (Op.dequeue t) =
      rw (← h.contents t) (unfold queue_of in replies_dequeue_from t (get q.state.pending t))
  step_replies (Op.ack id) = refl
  step_replies (Op.nack id) = ground arith
