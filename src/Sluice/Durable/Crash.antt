-- ===== src/Sluice/Durable/Crash.antt =====
-- crates/sluice/src/file_backed.rs: recovery after any sequence of calls.
use kaleidoscope.Prelude.{
  ℕ, ◌+◌, ◌<◌, ◌≤◌, ◌≡◌, sym, subst, Option, none, some, List, [], ◌∷◌, arith, length, ok, u64_mod,
  All, nat_key, string_key,
}
use kaleidoscope.Prelude.Map.{get}
use kaleidoscope.Sluice.Types.{TenantId, MessageId, Payload, Message}
use kaleidoscope.Sluice.Durable.Log.{WalRecord, Codec, Outcome, Snapshot}
use kaleidoscope.Sluice.Durable.Recovery.{IsDurable}
use kaleidoscope.Sluice.Durable.Calls.{enqueue-Durable, dequeue-Durable, ack-Durable, nack-Durable}
use kaleidoscope.Sluice.Durable.Queue.{
  FileBackedQueue, SnapshotOutcome, enqueue, dequeue, ack, nack, take_snapshot, read_snapshot,
  open_files, dequeue_from, ack_found, nack_found,
}
use kaleidoscope.Sluice.Durable.Reopen.{
  Call, enqueue_call, dequeue_call, ack_call, nack_call, snapshot_call, IsCleanCall, SameQueues,
  Saved, call, calls, new_queue, new-Saved, snapshot-Saved, reopened,
}

module _ (json : Codec WalRecord) (snapshot_json : Codec Snapshot) where
  abbrev Queue : Type 0
  Queue = FileBackedQueue json snapshot_json

  -- Which fields a call leaves alone, and how far it moves the counter.
  record Moves (q q' : Queue) : Type 0 where
    file : q'.snapshot_file ≡ q.snapshot_file
    next_id : q'.state.next_id ≤ q.state.next_id + 1

  enqueue-Moves :
      (o : Outcome) (q : Queue) (t : TenantId) (payload : Payload)
      → Moves q (enqueue json snapshot_json o q t payload).0
  unfolding enqueue
  enqueue-Moves o q t payload = ground arith

  dequeue_from-Moves :
      (o : Outcome) (q : Queue) (t : TenantId) (found : Option (List Message))
      → Moves q (dequeue_from json snapshot_json o q t found).0
  unfolding dequeue
  dequeue_from-Moves o q t none = ground arith
  dequeue_from-Moves o q t (some []) = ground arith
  dequeue_from-Moves o q t (some (m ∷ rest)) = ground arith

  ack_found-Moves :
      (o : Outcome) (q : Queue) (id : MessageId) (found : Option Message)
      → Moves q (ack_found json snapshot_json o q id found).0
  unfolding ack
  ack_found-Moves o q id found = ground arith

  nack_found-Moves :
      (o : Outcome) (q : Queue) (id : MessageId) (found : Option Message)
      → Moves q (nack_found json snapshot_json o q id found).0
  unfolding nack
  nack_found-Moves o q id found = ground arith

  dequeue-Moves :
      (o : Outcome) (q : Queue) (t : TenantId) → Moves q (dequeue json snapshot_json o q t).0
  unfolding dequeue
  dequeue-Moves o q t = dequeue_from-Moves o q t (get q.state.pending t)

  ack-Moves : (o : Outcome) (q : Queue) (id : MessageId) → Moves q (ack json snapshot_json o q id).0
  unfolding ack
  ack-Moves o q id = ack_found-Moves o q id (get q.state.in_flight id)

  nack-Moves :
      (o : Outcome) (q : Queue) (id : MessageId) → Moves q (nack json snapshot_json o q id).0
  unfolding nack
  nack-Moves o q id = nack_found-Moves o q id (get q.state.in_flight id)

  next_id-take_snapshot :
      (o : SnapshotOutcome) (q : Queue)
      → (take_snapshot json snapshot_json o q).0.state.next_id ≤ q.state.next_id + 1
  unfolding take_snapshot
  next_id-take_snapshot o q = ground arith

  next_id-call :
      (q : Queue) (c : Call) → (call json snapshot_json q c).state.next_id ≤ q.state.next_id + 1
  unfolding call
  next_id-call q (enqueue_call o t payload) = (enqueue-Moves o q t payload).next_id
  next_id-call q (dequeue_call o t) = (dequeue-Moves o q t).next_id
  next_id-call q (ack_call o id) = (ack-Moves o q id).next_id
  next_id-call q (nack_call o id) = (nack-Moves o q id).next_id
  next_id-call q (snapshot_call o) = next_id-take_snapshot o q

  keeps_file :
      (q q' : Queue)
      → Moves q q'
      → IsDurable json (read_snapshot json snapshot_json q.snapshot_file) q'.state q'.wal
      → Saved json snapshot_json q'
  keeps_file q q' m d =
      subst (λ f. IsDurable json (read_snapshot json snapshot_json f) q'.state q'.wal) (sym m.file)
        d

  -- A clean call, whether it succeeds or fails, leaves files that hold what the memory holds.
  pub call-Saved :
      (q : Queue) (c : Call)
      → q.state.next_id + 1 < u64_mod
      → IsCleanCall c
      → Saved json snapshot_json q
      → Saved json snapshot_json (call json snapshot_json q c)
  unfolding call
  call-Saved q (enqueue_call o t payload) room clean d =
      keeps_file q _ (enqueue-Moves o q t payload)
        (enqueue-Durable json snapshot_json _ o clean.0 q d t payload room clean.1)
  call-Saved q (dequeue_call o t) room clean d =
      keeps_file q _ (dequeue-Moves o q t) (dequeue-Durable json snapshot_json _ o clean q d t)
  call-Saved q (ack_call o id) room clean d =
      keeps_file q _ (ack-Moves o q id) (ack-Durable json snapshot_json _ o clean q d id)
  call-Saved q (nack_call o id) room clean d =
      keeps_file q _ (nack-Moves o q id) (nack-Durable json snapshot_json _ o clean q d id)
  call-Saved q (snapshot_call o) room clean d = snapshot-Saved json snapshot_json q o clean d

  pub calls-Saved :
      (cs : List Call) (q : Queue)
      → q.state.next_id + length cs < u64_mod
      → All IsCleanCall cs
      → Saved json snapshot_json q
      → Saved json snapshot_json (calls json snapshot_json q cs)
  unfolding calls
  calls-Saved [] q room clean d = d
  calls-Saved (c ∷ cs) q room clean d =
      calls-Saved cs (call json snapshot_json q c) (omega (arith, next_id-call q c)) clean.1
        (call-Saved q c (omega arith) clean.0 d)

  -- A new queue serves any calls and snapshots, fewer than there are ids, with payloads of bytes; a
  -- record may fail to serialise and a snapshot's file may fail to be written, but no flush or fsync
  -- of the log fails, and its truncation does not. Then `open` on the two files that it leaves
  -- succeeds, and gives the same queue of every tenant, the same messages in flight, the same total
  -- and a counter of ids that is no larger.
  pub recovery :
      (bound : ℕ) (cs : List Call)
      → length cs < u64_mod
      → All IsCleanCall cs
      → let q = calls json snapshot_json (new_queue json snapshot_json bound) cs in
        (q' : FileBackedQueue json snapshot_json) × (open_files json snapshot_json bound
            q.snapshot_file q.wal.lines
          ≡ ok q')
        × SameQueues q'.state q.state
  recovery bound cs room clean =
      reopened json snapshot_json (calls json snapshot_json (new_queue json snapshot_json bound) cs)
        (calls-Saved cs (new_queue json snapshot_json bound) (omega arith) clean
          (new-Saved json snapshot_json bound))
        bound
