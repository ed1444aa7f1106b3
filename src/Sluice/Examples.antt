-- ===== src/Sluice/Examples.antt =====
-- Runs of the queues of crates/sluice, and the theorems about them at concrete inputs.
use kaleidoscope.Prelude.{
  ℕ, ◌+◌, ◌<◌, ◌≤◌, ◌≡◌, refl, String, Option, none, some, List, [], ◌∷◌, ◌++◌, arith, length,
  Result, ok, err, All, nat_key, string_key, true, false, sym,
}
use kaleidoscope.Prelude.Map.{get}
use kaleidoscope.Sluice.Types.{Message, EnqueueError, queue_of, held}
use kaleidoscope.Sluice.Spec.{View, Op, Shows}
use kaleidoscope.Sluice.Hex.{encode_hex, decode_hex, decode_hex-encode_hex}
use kaleidoscope.Sluice.Invariant.{IsWellFormed}
use kaleidoscope.Sluice.Memory.{new, enqueue}
use kaleidoscope.Sluice.Memory.Refinement.{step}
use kaleidoscope.Sluice.Memory.Traces.{
  run, promised, run_refines, run-IsWellFormed, new-IsWellFormed, held-run, HasRoomFor,
}
use kaleidoscope.Sluice.Durable.Log.{WalRecord, Codec, Outcome, Snapshot}
use kaleidoscope.Sluice.Durable.Queue.{FileBackedQueue, SnapshotOutcome, open_files, ack, nack}
use kaleidoscope.Sluice.Durable.Reopen.{
  Call, enqueue_call, dequeue_call, ack_call, nack_call, snapshot_call, SameQueues, Saved, call,
  calls, new_queue, new-Saved,
}
use kaleidoscope.Sluice.Durable.Crash.{recovery, calls-Saved}
use kaleidoscope.Sluice.Durable.Faults.{
  SameHeld, call_error, call_error-moves_nothing, lost_after_failed_ack,
}

abbrev script : List Op
script =
    Op.enqueue "a" (1 ∷ [])
    ∷ Op.enqueue "a" (2 ∷ [])
    ∷ Op.enqueue "a" (3 ∷ [])
    ∷ Op.dequeue "a"
    ∷ Op.nack 1
    ∷ Op.dequeue "a"
    ∷ []

abbrev no_messages : View
no_messages = record { last_id = 0; contents = λ t. []; held_by = λ i. none }

new-Shows : (bound : ℕ) → Shows (new bound).state no_messages
unfolding new queue_of get
new-Shows bound = record { last_id = refl; contents = λ t. refl; held_by = λ i. refl }

run_refines_example :
    Shows (run (new 2) script).0.state (promised 2 no_messages script).0
    × ((run (new 2) script).1 ≡ (promised 2 no_messages script).1)
unfolding new
run_refines_example = run_refines script (new 2) no_messages (new-Shows 2)

new-HasRoomFor : HasRoomFor (new 2) script
unfolding new
new-HasRoomFor = omega arith

run-IsWellFormed_example : IsWellFormed (run (new 2) script).0.state
run-IsWellFormed_example = run-IsWellFormed script (new 2) new-HasRoomFor (new-IsWellFormed 2)

abbrev one_message : List Op
one_message = Op.enqueue "a" (1 ∷ []) ∷ []

abbrev later_calls : List Op
later_calls = Op.dequeue "a" ∷ Op.nack 1 ∷ []

one_message-HasRoomFor : HasRoomFor (new 2) one_message
unfolding new
one_message-HasRoomFor = omega arith

issued_one : (run (new 2) one_message).0.state.next_id ≡ 1
unfolding run new step enqueue queue_of get
issued_one = refl

held-run_example :
    (held 1 (run (run (new 2) one_message).0 later_calls).0.state
      ≡ held 1 (run (new 2) one_message).0.state)
    × (held 1 (run (new 2) one_message).0.state ≤ 1)
held-run_example =
    held-run later_calls (run (new 2) one_message).0 1 (omega (arith, issued_one))
      (run-IsWellFormed one_message (new 2) one_message-HasRoomFor (new-IsWellFormed 2))
      (omega (arith, issued_one)) ((λ e. cc), ((λ e. cc), tt))

abbrev success : {R : Type 0} → R → Result R String
success r = ok r

same_line : {R : Type 0} (r line : R) → success r ≡ success line → success line ≡ success r
same_line r line h = sym h

-- A serialiser that writes the record itself.
abbrev plain : (R : Type 0) → Codec R
plain R = record {
  Line = R;
  is_empty = λ line. false;
  to_string = λ r. ok r;
  from_str = λ line. ok line;
  round_trip = same_line;
  non_empty = λ r line h. refl;
}

abbrev Queue : Type 0
Queue = FileBackedQueue (plain WalRecord) (plain Snapshot)

abbrev history : List Call
history =
    enqueue_call Outcome.done "a" (1 ∷ [])
    ∷ enqueue_call Outcome.done "b" (255 ∷ 0 ∷ [])
    ∷ dequeue_call Outcome.done "a"
    ∷ snapshot_call SnapshotOutcome.stored
    ∷ nack_call Outcome.done 1
    ∷ []

recovery_example :
    let q =
      calls
        (plain WalRecord)
        (plain Snapshot)
        (new_queue (plain WalRecord) (plain Snapshot) 8)
        history in
    (q' : Queue) × (open_files (plain WalRecord) (plain Snapshot) 8 q.snapshot_file q.wal.lines
      ≡ ok q')
    × SameQueues q'.state q.state
recovery_example =
    recovery (plain WalRecord) (plain Snapshot) 8 history (omega arith)
      ((tt, (omega arith, tt)), ((tt, (omega arith, (omega arith, tt))), (tt, (tt, (tt, tt)))))

decode_hex-encode_hex_example :
    decode_hex (encode_hex (0 ∷ 171 ∷ 255 ∷ [])) ≡ ok (0 ∷ 171 ∷ 255 ∷ [])
decode_hex-encode_hex_example = decode_hex-encode_hex (0 ∷ 171 ∷ 255 ∷ []) (omega arith)

-- One message, given to a consumer.
abbrev given : Queue
given =
    calls (plain WalRecord) (plain Snapshot) (new_queue (plain WalRecord) (plain Snapshot) 8)
      (enqueue_call Outcome.done "a" (1 ∷ []) ∷ dequeue_call Outcome.done "a" ∷ [])

given-Saved : Saved (plain WalRecord) (plain Snapshot) given
given-Saved =
    calls-Saved (plain WalRecord) (plain Snapshot)
      (enqueue_call Outcome.done "a" (1 ∷ []) ∷ dequeue_call Outcome.done "a" ∷ [])
      (new_queue (plain WalRecord) (plain Snapshot) 8) (omega arith)
      ((tt, (omega arith, tt)), (tt, tt)) (new-Saved (plain WalRecord) (plain Snapshot) 8)

abbrev first_message : Message
first_message = record { id = 1; tenant = "a"; payload = 1 ∷ [] }

given_holds : get given.state.in_flight 1 ≡ some first_message
unfolding calls call kaleidoscope.Sluice.Durable.Queue.enqueue
    kaleidoscope.Sluice.Durable.Queue.dequeue kaleidoscope.Sluice.Durable.Log.append_wal get
    kaleidoscope.Prelude.Map.insert queue_of
given_holds = refl

lost_after_failed_ack_example :
    let q1 = (ack (plain WalRecord) (plain Snapshot) (Outcome.failed "disk full") given 1).0 in
    let q2 = (nack (plain WalRecord) (plain Snapshot) Outcome.done q1 1).0 in
    (queue_of q2.state.pending "a" ≡ first_message ∷ queue_of given.state.pending "a")
    × ((q' : Queue) × (open_files (plain WalRecord) (plain Snapshot) 8 q2.snapshot_file q2.wal.lines
          ≡ ok q')
        × ((t : String) → queue_of q'.state.pending t ≡ queue_of given.state.pending t)
        × (get q'.state.in_flight 1 ≡ none))
lost_after_failed_ack_example =
    lost_after_failed_ack (plain WalRecord) (plain Snapshot) given 8 1 first_message "disk full"
      (WalRecord.ack 1) (WalRecord.nack 1) given-Saved given_holds refl refl

disk_full :
    call_error (plain WalRecord) (plain Snapshot) given (ack_call (Outcome.failed "disk full") 1)
    ≡ some (EnqueueError.persistence_failed "disk full")
unfolding call_error ack kaleidoscope.Sluice.Durable.Log.append_wal
disk_full = rw given_holds

call_error-moves_nothing_example :
    SameHeld
      (call
        (plain WalRecord)
        (plain Snapshot)
        given
        (ack_call (Outcome.failed "disk full") 1)).state
      given.state
call_error-moves_nothing_example =
    call_error-moves_nothing (plain WalRecord) (plain Snapshot) given
      (ack_call (Outcome.failed "disk full") 1) (EnqueueError.persistence_failed "disk full")
      disk_full
