-- ===== src/Sluice/Durable/Calls.antt =====
-- crates/sluice/src/file_backed.rs: after every call whose append ends cleanly, well or not, the
-- files hold what the memory holds.
use kaleidoscope.Prelude.{
  ℕ, ◌+◌, ◌<◌, ◌≤◌, ◌≡◌, refl, Option, none, some, List, [], ◌∷◌, arith, leb, length, Bool-cases,
  inl, inr, Result, u64_add, u64_mod, nat_key, string_key,
}
use kaleidoscope.Prelude.Map.{get}
use kaleidoscope.Sluice.Types.{
  TenantId, MessageId, Payload, Message, EnqueueError, InnerState, queue_of, or_default,
}
use kaleidoscope.Sluice.Queues.{queue_of-insert}
use kaleidoscope.Sluice.Hex.{encode_hex, IsBytes}
use kaleidoscope.Sluice.Invariant.{
  touched, accept, take, drop, give, touched-IsWellFormed, accept-IsWellFormed, take-IsWellFormed,
  drop-IsWellFormed, give-IsWellFormed, bump-IsWellFormed,
}
use kaleidoscope.Sluice.Durable.Log.{WalRecord, Codec, Outcome, Snapshot, Loaded}
use kaleidoscope.Sluice.Durable.Replay.{
  Recovers, Replays-accept, Replays-take, Replays-drop, Replays-give,
}
use kaleidoscope.Sluice.Durable.Bytes.{
  touched-HasBytes, accept-HasBytes, take-HasBytes, drop-HasBytes, give-HasBytes,
}
use kaleidoscope.Sluice.Durable.Recovery.{IsClean, IsDurable, IsDurable-append, append_clean}
use kaleidoscope.Sluice.Durable.Queue.{
  FileBackedQueue, enqueue, dequeue, ack, nack, dequeue_from, ack_found, nack_found,
  dequeue_appended, ack_appended, nack_appended, record_event,
}

-- A queue that made a key for the tenant, and may have drawn an id, recovers as before.
touched-Recovers :
    (l : Loaded) (s : InnerState) (t : TenantId) (n : ℕ)
    → s.next_id ≤ n
    → Recovers l s
    → Recovers l (record (touched s t) { next_id = n })
touched-Recovers l s t n le h = record {
  unique = h.unique;
  next_id = omega (arith, h.next_id);
  contents = λ j. ground (
    arith,
    h.contents j,
    string_key.same_iff t j,
    queue_of-insert s.pending t (queue_of s.pending t) j,
  );
  in_flight = h.in_flight;
}

module _ (json : Codec WalRecord) (snapshot_json : Codec Snapshot)
    (base : Result Loaded EnqueueError) where
  abbrev pub Durable : FileBackedQueue json snapshot_json → Type 0
  Durable q = IsDurable json base q.state q.wal

  module _ (outcome : Outcome) (clean : IsClean outcome) (q : FileBackedQueue json snapshot_json)
      (d : Durable q) where
    touched-Durable :
        (t : TenantId) (n : ℕ)
        → q.state.next_id ≤ n
        → IsDurable json base (record (touched q.state t) { next_id = n }) q.wal
    touched-Durable t n le = record {
      flushed_all = d.flushed_all;
      well = bump-IsWellFormed (touched q.state t) n le (touched-IsWellFormed q.state t d.well);
      bytes = record {
        pending = (touched-HasBytes q.state d.bytes t).pending;
        in_flight = d.bytes.in_flight;
      };
      loaded = d.loaded;
      loads = d.loads;
      recovers = touched-Recovers d.loaded q.state t n le d.recovers;
    }

    pub enqueue-Durable :
        (t : TenantId) (payload : Payload)
        → q.state.next_id + 1 < u64_mod
        → IsBytes payload
        → Durable (enqueue json snapshot_json outcome q t payload).0
    unfolding enqueue
    enqueue-Durable t payload room bytes =
        let m : Message = record {
          id = u64_add q.state.next_id 1;
          tenant = t;
          payload = payload;
        } in
        elim (Bool-cases (leb q.cap (length (queue_of q.state.pending t)))) [
          | inl full ↦ rw full (touched-Durable t q.state.next_id (omega arith))
          | inr free ↦
              rw free
                (elim (append_clean json outcome q.wal
                  (WalRecord.enqueue m.id t (encode_hex payload)) clean) [
                    | inl (e, kept) ↦ rw kept (touched-Durable t m.id (omega arith))
                    | inr (line, written, grown) ↦ rw grown (
                        IsDurable-append json base q.state (accept q.state t m) q.wal
                          (WalRecord.enqueue m.id t (encode_hex payload)) line d written
                          (Replays-accept d.loaded q.state d.recovers t m refl bytes (omega arith))
                          (accept-IsWellFormed q.state t m (omega arith) refl d.well)
                          (accept-HasBytes q.state d.bytes t m bytes))
                  ])
        ]

    dequeue_from-Durable :
        (t : TenantId) (found : Option (List Message))
        → queue_of q.state.pending t ≡ or_default found
        → Durable (dequeue_from json snapshot_json outcome q t found).0
    unfolding dequeue_from dequeue_appended record_event
    dequeue_from-Durable t none front = d
    dequeue_from-Durable t (some []) front = d
    dequeue_from-Durable t (some (m ∷ rest)) front =
        elim (append_clean json outcome q.wal (WalRecord.dequeue m.id) clean) [
          | inl (e, kept) ↦ rw kept d
          | inr (line, written, grown) ↦ rw grown (
              IsDurable-append json base q.state (take q.state t m rest) q.wal
                (WalRecord.dequeue m.id) line d written
                (Replays-take d.loaded q.state d.recovers d.well t m rest front)
                (take-IsWellFormed q.state d.well t m rest front)
                (take-HasBytes q.state d.bytes t m rest front))
        ]

    pub dequeue-Durable : (t : TenantId) → Durable (dequeue json snapshot_json outcome q t).0
    unfolding dequeue queue_of
    dequeue-Durable t = dequeue_from-Durable t (get q.state.pending t) refl

    ack_found-Durable :
        (id : MessageId) (found : Option Message)
        → Durable (ack_found json snapshot_json outcome q id found).0
    unfolding ack_found ack_appended record_event
    ack_found-Durable id none = d
    ack_found-Durable id (some m) =
        elim (append_clean json outcome q.wal (WalRecord.ack id) clean) [
          | inl (e, kept) ↦ rw kept d
          | inr (line, written, grown) ↦ rw grown (
              IsDurable-append json base q.state (drop q.state id) q.wal (WalRecord.ack id) line d
                written (Replays-drop d.loaded q.state d.recovers id)
                (drop-IsWellFormed q.state d.well id) (drop-HasBytes q.state d.bytes id))
        ]

    pub ack-Durable : (id : MessageId) → Durable (ack json snapshot_json outcome q id).0
    unfolding ack
    ack-Durable id = ack_found-Durable id (get q.state.in_flight id)

    nack_found-Durable :
        (id : MessageId) (found : Option Message)
        → get q.state.in_flight id ≡ found
        → Durable (nack_found json snapshot_json outcome q id found).0
    unfolding nack_found nack_appended record_event
    nack_found-Durable id none e = d
    nack_found-Durable id (some m) e =
        elim (append_clean json outcome q.wal (WalRecord.nack id) clean) [
          | inl (e', kept) ↦ rw kept d
          | inr (line, written, grown) ↦ rw grown (
              IsDurable-append json base q.state (give q.state id m) q.wal (WalRecord.nack id) line
                d written (Replays-give d.loaded q.state d.recovers id m e)
                (give-IsWellFormed q.state d.well id m e) (give-HasBytes q.state d.bytes id m e))
        ]

    pub nack-Durable : (id : MessageId) → Durable (nack json snapshot_json outcome q id).0
    unfolding nack
    nack-Durable id = nack_found-Durable id (get q.state.in_flight id) refl
