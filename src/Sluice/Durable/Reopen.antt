-- ===== src/Sluice/Durable/Reopen.antt =====
-- crates/sluice/src/file_backed.rs: a queue that is closed after any calls and opened again.
use mathlib.Core.List.{append-nil}
use kaleidoscope.Prelude.{
  ℕ, ◌≤◌, ◌%◌, ◌≡◌, refl, sym, ap, String, none, some, List, [], ◌∷◌, ◌++◌, arith, length, Result,
  ok, err, ◌>>=◌, u64_mod, nat_key, string_key, ◌∙◌,
}
use kaleidoscope.Prelude.Map.{get, sum_by}
use kaleidoscope.Sluice.Types.{TenantId, MessageId, Payload, InnerState, empty_state, queue_of}
use kaleidoscope.Sluice.Hex.{IsBytes}
use kaleidoscope.Sluice.Invariant.{IsWellFormed, empty_state-IsWellFormed}
use kaleidoscope.Sluice.Durable.Log.{
  WalRecord, Codec, Outcome, flushed, Snapshot, Loaded, fresh, replay,
}
use kaleidoscope.Sluice.Durable.Replay.{Recovers}
use kaleidoscope.Sluice.Durable.Snapshot.{
  snapshot_of, reloaded, load_snapshot-snapshot_of, reloaded-Recovers,
}
use kaleidoscope.Sluice.Durable.Recovery.{IsClean, IsDurable}
use kaleidoscope.Sluice.Durable.Totals.{sum_by_same}
use kaleidoscope.Sluice.Durable.Queue.{
  FileBackedQueue, SnapshotOutcome, stored, not_flushed, not_written, not_truncated, enqueue,
  dequeue, ack, nack, read_snapshot, open_state, open_files, save, take_snapshot,
}

-- One call, with the outcome of its writes.
pub data Call : Type 0 where
  enqueue_call : Outcome → TenantId → Payload → Call
  dequeue_call : Outcome → TenantId → Call
  ack_call : Outcome → MessageId → Call
  nack_call : Outcome → MessageId → Call
  snapshot_call : SnapshotOutcome → Call

-- The payload is a list of bytes, and no write fails, but for the text of a record or a snapshot, and
-- the snapshot's own file.
abbrev pub IsCleanCall : Call → Type 0
IsCleanCall (enqueue_call outcome t payload) = IsClean outcome × IsBytes payload
IsCleanCall (dequeue_call outcome t) = IsClean outcome
IsCleanCall (ack_call outcome id) = IsClean outcome
IsCleanCall (nack_call outcome id) = IsClean outcome
IsCleanCall (snapshot_call (not_flushed reason)) = ⊥
IsCleanCall (snapshot_call (not_truncated reason)) = ⊥
IsCleanCall (snapshot_call outcome) = Unit

-- The two states answer every call alike, up to the ids of later messages.
pub record SameQueues (a b : InnerState) : Type 0 where
  pub contents : (t : TenantId) → queue_of a.pending t ≡ queue_of b.pending t
  pub in_flight : (i : MessageId) → get a.in_flight i ≡ get b.in_flight i
  pub total : a.total ≡ b.total
  pub next_id : a.next_id ≤ b.next_id

module _ (json : Codec WalRecord) (snapshot_json : Codec Snapshot) where
  abbrev Queue : Type 0
  Queue = FileBackedQueue json snapshot_json

  -- The files hold what the memory holds.
  abbrev pub Saved : Queue → Type 0
  Saved q = IsDurable json (read_snapshot json snapshot_json q.snapshot_file) q.state q.wal

  module _ (q : Queue) (d : Saved q) where
    loads_again :
        (s : InnerState) (l : Loaded)
        → Recovers l s
        → IsWellFormed s
        → SameQueues (open_state json snapshot_json l) s
    unfolding open_state
    loads_again s l h w = record {
      contents = h.contents;
      in_flight = h.in_flight;
      total =
          ap (λ n. n % u64_mod)
            (sum_by_same length refl l.pending s.pending h.unique w.pending_unique
              λ t. ap length (unfold queue_of in h.contents t))
          ∙ sym w.total_exact;
      next_id = h.next_id;
    }

    -- A queue whose files hold what its memory holds opens again, and as it was.
    pub reopened :
        (bound : ℕ)
        → (q' : Queue) × (open_files json snapshot_json bound q.snapshot_file q.wal.lines ≡ ok q')
          × SameQueues q'.state q.state
    unfolding open_files
    reopened bound = (
      record {
        cap = bound;
        events = [];
        state = open_state json snapshot_json d.loaded;
        wal = record { lines = q.wal.lines; buffered = [] };
        snapshot_file = q.snapshot_file;
      },
      rw d.loads refl,
      loads_again q.state d.loaded d.recovers d.well,
    )

  unfoldable pub call : Queue → Call → Queue
  call q (enqueue_call outcome t payload) = (enqueue json snapshot_json outcome q t payload).0
  call q (dequeue_call outcome t) = (dequeue json snapshot_json outcome q t).0
  call q (ack_call outcome id) = (ack json snapshot_json outcome q id).0
  call q (nack_call outcome id) = (nack json snapshot_json outcome q id).0
  call q (snapshot_call outcome) = (take_snapshot json snapshot_json outcome q).0

  unfoldable pub calls : Queue → List Call → Queue
  calls q [] = q
  calls q (c ∷ cs) = calls (call q c) cs

  -- `open` where there are no files.
  abbrev pub new_queue : ℕ → Queue
  new_queue bound = record {
    cap = bound;
    events = [];
    state = empty_state;
    wal = record { lines = []; buffered = [] };
    snapshot_file = none;
  }

  pub open_new : (bound : ℕ) → open_files json snapshot_json bound none [] ≡ ok (new_queue bound)
  unfolding open_files open_state read_snapshot replay sum_by
  open_new bound = refl

  pub new-Saved : (bound : ℕ) → Saved (new_queue bound)
  unfolding read_snapshot replay queue_of get
  new-Saved bound = record {
    flushed_all = refl;
    well = empty_state-IsWellFormed;
    bytes = record { pending = λ t. tt; in_flight = λ i m h. ground arith };
    loaded = fresh;
    loads = refl;
    recovers = record {
      unique = tt;
      next_id = omega arith;
      contents = λ t. refl;
      in_flight = λ i. refl;
    };
  }

  reads_back :
      (q : Queue) (line : snapshot_json.Line)
      → Saved q
      → snapshot_json.to_string (snapshot_of q.state) ≡ ok line
      → (read_snapshot json snapshot_json (some line) >>= λ l. replay json l [])
        ≡ ok (reloaded q.state)
  unfolding read_snapshot replay
  reads_back q line d e =
      rw (snapshot_json.round_trip (snapshot_of q.state) line e)
        (rw (load_snapshot-snapshot_of q.state d.well d.bytes) refl)

  flushed-Saved : (q : Queue) → Saved q → Saved (record q { wal = flushed q.wal })
  flushed-Saved q d = record {
    flushed_all = refl;
    well = d.well;
    bytes = d.bytes;
    loaded = d.loaded;
    loads =
        ap (λ lines. read_snapshot json snapshot_json q.snapshot_file >>= λ l. replay json l lines)
          (ap (λ b. q.wal.lines ++ b) d.flushed_all ∙ append-nil q.wal.lines)
        ∙ d.loads;
    recovers = d.recovers;
  }

  pub snapshot-Saved :
      (q : Queue) (outcome : SnapshotOutcome)
      → IsCleanCall (snapshot_call outcome)
      → Saved q
      → Saved (take_snapshot json snapshot_json outcome q).0
  unfolding take_snapshot
  snapshot-Saved q outcome clean d =
      go outcome (snapshot_json.to_string (snapshot_of q.state)) refl clean
    where
      go :
          (o : SnapshotOutcome) (t : Result snapshot_json.Line String)
          → snapshot_json.to_string (snapshot_of q.state) ≡ t
          → IsCleanCall (snapshot_call o)
          → Saved (save json snapshot_json o q t).0
      go (not_flushed reason) t e c = absurd c
      go (not_truncated reason) t e c = absurd c
      go stored (err reason) e c = flushed-Saved q d
      go (not_written reason) (err reason') e c = flushed-Saved q d
      go stored (ok line) e c = record {
        flushed_all = refl;
        well = d.well;
        bytes = d.bytes;
        loaded = reloaded q.state;
        loads = unfold read_snapshot replay in reads_back q line d e;
        recovers = reloaded-Recovers q.state d.well;
      }
      go (not_written reason) (ok line) e c = flushed-Saved q d
