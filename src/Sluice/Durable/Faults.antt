-- ===== src/Sluice/Durable/Faults.antt =====
-- crates/sluice/src/file_backed.rs: calls whose append fails, and what they leave behind.
use mathlib.Core.List.{append_assoc}
use kaleidoscope.Prelude.{
  ℕ, ◌≡◌, refl, sym, ap, ◌∙◌, String, Option, none, some, List, [], ◌∷◌, ◌++◌, arith, Result, ok,
  err, ◌>>=◌, nat_key, string_key, nat_beq_iff,
}
use kaleidoscope.Prelude.Map.{get, remove, get-remove}
use kaleidoscope.Sluice.Types.{
  TenantId, MessageId, Payload, Message, EnqueueError, InnerState, queue_of,
}
use kaleidoscope.Sluice.Queues.{queue_of-insert}
use kaleidoscope.Sluice.Durable.Log.{
  WalRecord, Codec, Outcome, done, failed, Snapshot, Loaded, append_wal, replay, apply_record,
}
use kaleidoscope.Sluice.Durable.Recovery.{loads-append}
use kaleidoscope.Sluice.Durable.Queue.{
  FileBackedQueue, enqueue, dequeue, ack, nack, dequeue_from, ack_found, nack_found, open_files,
  open_state, read_snapshot, SnapshotOutcome, take_snapshot,
}
use kaleidoscope.Sluice.Durable.Reopen.{
  Call, enqueue_call, dequeue_call, ack_call, nack_call, snapshot_call, Saved, call,
}

abbrev pub error_of : {A : Type 0} → Result A EnqueueError → Option EnqueueError
error_of (ok a) = none
error_of (err e) = some e

-- What a client can still get from a state.
pub record SameHeld (a b : InnerState) : Type 0 where
  pub contents : (t : TenantId) → queue_of a.pending t ≡ queue_of b.pending t
  pub in_flight : (i : MessageId) → get a.in_flight i ≡ get b.in_flight i
  pub total : a.total ≡ b.total

module _ (json : Codec WalRecord) (snapshot_json : Codec Snapshot) (o : Outcome)
    (q : FileBackedQueue json snapshot_json) where
  enqueue_error :
      (t : TenantId) (payload : Payload) (e : EnqueueError)
      → error_of (enqueue json snapshot_json o q t payload).1 ≡ some e
      → SameHeld (enqueue json snapshot_json o q t payload).0.state q.state
  unfolding enqueue
  enqueue_error t payload e h = record {
    contents = λ j. ground (
      arith,
      h,
      string_key.same_iff t j,
      queue_of-insert q.state.pending t (queue_of q.state.pending t) j,
    );
    in_flight = λ i. ground (arith, h);
    total = ground (arith, h);
  }

  same : SameHeld q.state q.state
  same = record { contents = λ t. refl; in_flight = λ i. refl; total = refl }

  dequeue_from_error :
      (t : TenantId) (found : Option (List Message)) (e : EnqueueError)
      → error_of (dequeue_from json snapshot_json o q t found).1 ≡ some e
      → SameHeld (dequeue_from json snapshot_json o q t found).0.state q.state
  unfolding dequeue
  dequeue_from_error t none e h = same
  dequeue_from_error t (some []) e h = same
  dequeue_from_error t (some (m ∷ rest)) e h = record {
    contents = λ j. ground (arith, h);
    in_flight = λ i. ground (arith, h);
    total = ground (arith, h);
  }

  ack_found_error :
      (id : MessageId) (found : Option Message) (e : EnqueueError)
      → error_of (ack_found json snapshot_json o q id found).1 ≡ some e
      → SameHeld (ack_found json snapshot_json o q id found).0.state q.state
  unfolding ack
  ack_found_error id found e h = record {
    contents = λ j. ground (arith, h);
    in_flight = λ i. ground (arith, h);
    total = ground (arith, h);
  }

  nack_found_error :
      (id : MessageId) (found : Option Message) (e : EnqueueError)
      → error_of (nack_found json snapshot_json o q id found).1 ≡ some e
      → SameHeld (nack_found json snapshot_json o q id found).0.state q.state
  unfolding nack
  nack_found_error id found e h = record {
    contents = λ j. ground (arith, h);
    in_flight = λ i. ground (arith, h);
    total = ground (arith, h);
  }

module _ (json : Codec WalRecord) (snapshot_json : Codec Snapshot)
    (q : FileBackedQueue json snapshot_json) where
  snapshot_error :
      (o : SnapshotOutcome) → SameHeld (take_snapshot json snapshot_json o q).0.state q.state
  unfolding take_snapshot
  snapshot_error o = record {
    contents = λ j. ground arith;
    in_flight = λ i. ground arith;
    total = ground arith;
  }

  -- The error that a call returns, if it does.
  unfoldable pub call_error : Call → Option EnqueueError
  call_error (enqueue_call o t payload) = error_of (enqueue json snapshot_json o q t payload).1
  call_error (dequeue_call o t) = error_of (dequeue json snapshot_json o q t).1
  call_error (ack_call o id) = error_of (ack json snapshot_json o q id).1
  call_error (nack_call o id) = error_of (nack json snapshot_json o q id).1
  call_error (snapshot_call o) = error_of (take_snapshot json snapshot_json o q).1

  -- A call that returns an error, in whatever way its writes failed, has moved no message in memory:
  -- every queue, every message in flight and the total are as they were.
  pub call_error-moves_nothing :
      (c : Call) (e : EnqueueError)
      → call_error c ≡ some e
      → SameHeld (call json snapshot_json q c).state q.state
  unfolding call_error call dequeue ack nack
  call_error-moves_nothing (enqueue_call o t payload) e h =
      enqueue_error json snapshot_json o q t payload e h
  call_error-moves_nothing (dequeue_call o t) e h =
      dequeue_from_error json snapshot_json o q t (get q.state.pending t) e h
  call_error-moves_nothing (ack_call o id) e h =
      ack_found_error json snapshot_json o q id (get q.state.in_flight id) e h
  call_error-moves_nothing (nack_call o id) e h =
      nack_found_error json snapshot_json o q id (get q.state.in_flight id) e h
  call_error-moves_nothing (snapshot_call o) e h = snapshot_error o

module _ (json : Codec WalRecord) (snapshot_json : Codec Snapshot)
    (q : FileBackedQueue json snapshot_json) (d : Saved json snapshot_json q) (id : MessageId) where
  -- The maps that the log of the acknowledgement gives.
  acked_maps : Loaded
  acked_maps = record (d.loaded) { in_flight = remove d.loaded.in_flight id }

  both_lines :
      (a n : json.Line)
      → json.to_string (WalRecord.ack id) ≡ ok a
      → json.to_string (WalRecord.nack id) ≡ ok n
      → (read_snapshot json snapshot_json q.snapshot_file >>= λ l.
          replay json l (q.wal.lines ++ ((q.wal.buffered ++ a ∷ []) ++ n ∷ [])))
        ≡ ok acked_maps
  unfolding acked_maps apply_record
  both_lines a n ea en =
      ap
        (λ b. read_snapshot json snapshot_json q.snapshot_file >>= λ l.
          replay json l (q.wal.lines ++ ((b ++ a ∷ []) ++ n ∷ [])))
        d.flushed_all
      ∙ ap (λ lines. read_snapshot json snapshot_json q.snapshot_file >>= λ l. replay json l lines)
          (sym (append_assoc q.wal.lines (a ∷ []) (n ∷ [])))
      ∙ loads-append json (read_snapshot json snapshot_json q.snapshot_file)
          (read_snapshot json snapshot_json q.snapshot_file) (q.wal.lines ++ a ∷ []) acked_maps
          acked_maps (WalRecord.nack id) n
          (loads-append json (read_snapshot json snapshot_json q.snapshot_file)
            (read_snapshot json snapshot_json q.snapshot_file) q.wal.lines d.loaded acked_maps
            (WalRecord.ack id) a d.loads ea refl)
          en (ground (arith, get-remove d.loaded.in_flight id id, nat_beq_iff id id))

module _ (json : Codec WalRecord) (snapshot_json : Codec Snapshot)
    (q : FileBackedQueue json snapshot_json) where
  -- Of a queue whose files hold what its memory holds: an `ack` of a message in flight whose flush
  -- fails leaves its line in the buffer, which the `nack` that follows writes before its own line. In
  -- memory the message is pending again, at the front; the queue that `open` gives has the pending
  -- messages from before, and this message is neither pending there nor in flight.
  pub lost_after_failed_ack :
      (bound : ℕ) (id : MessageId) (m : Message) (reason : String) (a n : json.Line)
      → Saved json snapshot_json q
      → get q.state.in_flight id ≡ some m
      → json.to_string (WalRecord.ack id) ≡ ok a
      → json.to_string (WalRecord.nack id) ≡ ok n
      → let q1 = (ack json snapshot_json (failed reason) q id).0 in
        let q2 = (nack json snapshot_json done q1 id).0 in
        (queue_of q2.state.pending m.tenant ≡ m ∷ queue_of q.state.pending m.tenant)
        × ((q' : FileBackedQueue json snapshot_json) × (open_files json snapshot_json bound
                q2.snapshot_file q2.wal.lines
              ≡ ok q')
            × ((t : TenantId) → queue_of q'.state.pending t ≡ queue_of q.state.pending t)
            × (get q'.state.in_flight id ≡ none))
  unfolding ack nack append_wal open_files open_state acked_maps
  lost_after_failed_ack bound id m reason a n d found ea en =
      rw (found, ea)
        (rw (found, en)
          (
            ground (
              arith,
              queue_of-insert q.state.pending m.tenant (m ∷ queue_of q.state.pending m.tenant)
                  m.tenant,
              string_key.same_iff m.tenant m.tenant,
            ),
            (
              record {
                cap = bound;
                events = [];
                state = open_state json snapshot_json (acked_maps json snapshot_json q d id);
                wal = record {
                  lines = q.wal.lines ++ ((q.wal.buffered ++ a ∷ []) ++ n ∷ []);
                  buffered = [];
                };
                snapshot_file = q.snapshot_file;
              },
              rw (both_lines json snapshot_json q d id a n ea en) refl,
              λ t. d.recovers.contents t,
              ground (arith, get-remove d.loaded.in_flight id id, nat_beq_iff id id),
            ),
          ))
