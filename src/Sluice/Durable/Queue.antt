-- ===== src/Sluice/Durable/Queue.antt =====
-- crates/sluice/src/file_backed.rs: `FileBackedQueue`. Each call that writes the log takes the
-- outcome of its append.
use kaleidoscope.Prelude.{
  ℕ, ◌%◌, String, true, false, Option, none, some, List, [], ◌∷◌, ◌++◌, leb, if◌then◌else◌, Result,
  ok, err, ◌>>=◌, length, u64_add, u64_sub, u64_mod, nat_key, string_key,
}
use kaleidoscope.Prelude.Map.{get, insert, remove, sum_by}
use kaleidoscope.Sluice.Types.{
  TenantId, MessageId, Payload, Message, EnqueueError, full, persistence_failed, InnerState,
  RecordedEvent, enqueued, dequeued, acked, nacked, queue_of, put_rest,
}
use kaleidoscope.Sluice.Hex.{encode_hex}
use kaleidoscope.Sluice.Durable.Snapshot.{snapshot_of, load_snapshot}
use kaleidoscope.Sluice.Durable.Log.{
  WalRecord, Codec, Outcome, LogFile, flushed, Snapshot, Loaded, fresh, append_wal, replay,
  parse_error,
}

-- How `snapshot` ends: all done; an error of the flush of the log; an error with the old snapshot in
-- place; an error between the rename of the new snapshot and the truncation of the log.
pub data SnapshotOutcome : Type 0 where
  stored : SnapshotOutcome
  not_flushed : String → SnapshotOutcome
  not_written : String → SnapshotOutcome
  not_truncated : String → SnapshotOutcome

module _ (json : Codec WalRecord) (snapshot_json : Codec Snapshot) where
  -- `state` and `wal` are the fields of `Inner`; `snapshot_file` is the file beside the log.
  pub record FileBackedQueue : Type 0 where
    pub cap : ℕ
    pub events : List RecordedEvent
    pub state : InnerState
    pub wal : LogFile json.Line
    pub snapshot_file : Option snapshot_json.Line

  unfoldable pub record_event : FileBackedQueue → RecordedEvent → InnerState → FileBackedQueue
  record_event q event state = record q { events = q.events ++ event ∷ []; state = state }

  unfoldable pub enqueue_appended :
      FileBackedQueue
      → Message
      → List Message
      → Result (Unit {0}) EnqueueError
      → FileBackedQueue × Result MessageId EnqueueError
  enqueue_appended q message queue (err e) = (q, err e)
  enqueue_appended q message queue (ok u) = (
    record_event q (enqueued message.tenant true) (record (q.state) {
      pending = insert q.state.pending message.tenant (queue ++ message ∷ []);
      total = u64_add q.state.total 1;
    }),
    ok message.id,
  )

  unfoldable pub enqueue :
      Outcome
      → FileBackedQueue
      → TenantId
      → Payload
      → FileBackedQueue × Result MessageId EnqueueError
  unfolding record_event enqueue_appended
  enqueue outcome q tenant payload =
      let queue = queue_of q.state.pending tenant in
      let pending = insert q.state.pending tenant queue in
      let id = u64_add q.state.next_id 1 in
      let message : Message = record { id = id; tenant = tenant; payload = payload } in
      let (wal, appended) =
        append_wal json outcome q.wal (WalRecord.enqueue id tenant (encode_hex payload)) in
      if leb q.cap (length queue)
      then (
        record_event q (enqueued tenant false) (record (q.state) { pending = pending }),
        err (full tenant q.cap),
      )
      else enqueue_appended
          (record q { wal = wal; state = record (q.state) { next_id = id; pending = pending } })
          message queue appended

  unfoldable pub dequeue_appended :
      FileBackedQueue
      → TenantId
      → Message
      → List Message
      → Result (Unit {0}) EnqueueError
      → FileBackedQueue × Result (Option Message) EnqueueError
  dequeue_appended q tenant message rest (err e) = (q, err e)
  dequeue_appended q tenant message rest (ok u) = (
    record_event q (dequeued tenant) (record (q.state) {
      pending = put_rest q.state.pending tenant rest;
      total = u64_sub q.state.total 1;
      in_flight = insert q.state.in_flight message.id message;
    }),
    ok (some message),
  )

  unfoldable pub dequeue_from :
      Outcome
      → FileBackedQueue
      → TenantId
      → Option (List Message)
      → FileBackedQueue × Result (Option Message) EnqueueError
  dequeue_from outcome q tenant none = (q, ok none)
  dequeue_from outcome q tenant (some []) = (q, ok none)
  dequeue_from outcome q tenant (some (message ∷ rest)) =
      let (wal, appended) = append_wal json outcome q.wal (WalRecord.dequeue message.id) in
      dequeue_appended (record q { wal = wal }) tenant message rest appended

  unfoldable pub dequeue :
      Outcome → FileBackedQueue → TenantId → FileBackedQueue × Result (Option Message) EnqueueError
  unfolding record_event dequeue_appended dequeue_from
  dequeue outcome q tenant = dequeue_from outcome q tenant (get q.state.pending tenant)

  unfoldable pub ack_appended :
      FileBackedQueue
      → MessageId
      → TenantId
      → Result (Unit {0}) EnqueueError
      → FileBackedQueue × Result (Unit {0}) EnqueueError
  ack_appended q id tenant (err e) = (q, err e)
  ack_appended q id tenant (ok u) = (
    record_event q (acked tenant) (record (q.state) { in_flight = remove q.state.in_flight id }),
    ok tt,
  )

  unfoldable pub ack_found :
      Outcome
      → FileBackedQueue
      → MessageId
      → Option Message
      → FileBackedQueue × Result (Unit {0}) EnqueueError
  ack_found outcome q id none = (q, ok tt)
  ack_found outcome q id (some m) =
      let (wal, appended) = append_wal json outcome q.wal (WalRecord.ack id) in
      ack_appended (record q { wal = wal }) id m.tenant appended

  unfoldable pub ack :
      Outcome → FileBackedQueue → MessageId → FileBackedQueue × Result (Unit {0}) EnqueueError
  unfolding record_event ack_appended ack_found
  ack outcome q id = ack_found outcome q id (get q.state.in_flight id)

  unfoldable pub nack_appended :
      FileBackedQueue
      → MessageId
      → Message
      → Result (Unit {0}) EnqueueError
      → FileBackedQueue × Result (Unit {0}) EnqueueError
  nack_appended q id message (err e) = (q, err e)
  nack_appended q id message (ok u) = (
    record_event q (nacked message.tenant) (record (q.state) {
      in_flight = remove q.state.in_flight id;
      pending =
          insert q.state.pending message.tenant (message ∷ queue_of q.state.pending message.tenant);
      total = u64_add q.state.total 1;
    }),
    ok tt,
  )

  unfoldable pub nack_found :
      Outcome
      → FileBackedQueue
      → MessageId
      → Option Message
      → FileBackedQueue × Result (Unit {0}) EnqueueError
  nack_found outcome q id none = (q, ok tt)
  nack_found outcome q id (some message) =
      let (wal, appended) = append_wal json outcome q.wal (WalRecord.nack id) in
      nack_appended (record q { wal = wal }) id message appended

  unfoldable pub nack :
      Outcome → FileBackedQueue → MessageId → FileBackedQueue × Result (Unit {0}) EnqueueError
  unfolding record_event nack_appended nack_found
  nack outcome q id = nack_found outcome q id (get q.state.in_flight id)

  -- The first part of `open`: the snapshot, if there is one.
  unfoldable pub read_snapshot : Option snapshot_json.Line → Result Loaded EnqueueError
  unfolding parse_error
  read_snapshot none = ok fresh
  read_snapshot (some line) = parse_error (snapshot_json.from_str line) >>= load_snapshot

  unfoldable pub open_state : Loaded → InnerState
  open_state l = record {
    next_id = l.next_id;
    pending = l.pending;
    in_flight = l.in_flight;
    total = sum_by length l.pending % u64_mod;
  }

  -- `open` on the two files that a queue left, where every read succeeds.
  unfoldable pub open_files :
      ℕ → Option snapshot_json.Line → List json.Line → Result FileBackedQueue EnqueueError
  unfolding open_state
  open_files bound file wal = do
    l ← read_snapshot file >>= λ start. replay json start wal
    ok (record {
      cap = bound;
      events = [];
      state = open_state l;
      wal = record { lines = wal; buffered = [] };
      snapshot_file = file;
    })

  -- What stands in the files when the flush is done and the snapshot is a text.
  store :
      SnapshotOutcome
      → FileBackedQueue
      → snapshot_json.Line
      → FileBackedQueue × Result (Unit {0}) EnqueueError
  store stored q line =
      (record q { snapshot_file = some line; wal = record { lines = []; buffered = [] } }, ok tt)
  store (not_truncated reason) q line =
      (record q { snapshot_file = some line }, err (persistence_failed reason))
  store (not_written reason) q line = (q, err (persistence_failed reason))
  store (not_flushed reason) q line = (q, err (persistence_failed reason))

  unfoldable pub save :
      SnapshotOutcome
      → FileBackedQueue
      → Result snapshot_json.Line String
      → FileBackedQueue × Result (Unit {0}) EnqueueError
  unfolding store
  save (not_flushed reason) q text = (q, err (persistence_failed reason))
  save outcome q (err reason) = (record q { wal = flushed q.wal }, err (persistence_failed reason))
  save outcome q (ok line) = store outcome (record q { wal = flushed q.wal }) line

  -- `snapshot`
  unfoldable pub take_snapshot :
      SnapshotOutcome → FileBackedQueue → FileBackedQueue × Result (Unit {0}) EnqueueError
  unfolding save
  take_snapshot outcome q = save outcome q (snapshot_json.to_string (snapshot_of q.state))
