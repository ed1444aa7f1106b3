-- ===== src/Beacon/States/Records.antt =====
-- crates/beacon/src/state_store.rs: the in-memory store, the records of the log and the snapshot.
use kaleidoscope.Prelude.{◌≡◌, String, Result, ok, string_key}
use kaleidoscope.Prelude.Map.{Map, get, insert}
use kaleidoscope.Storage.Log.{Reason}
use kaleidoscope.Beacon.StateMachine.{RuleState}

abbrev pub States : Type 0
States = Map String RuleState

pub data RuleStateStoreError : Type 0 where
  persistence_failed : Reason → RuleStateStoreError

pub record InMemoryRuleStateStore : Type 0 where
  pub states : States

unfoldable pub put_memory :
    InMemoryRuleStateStore
    → String
    → RuleState
    → InMemoryRuleStateStore × Result (Unit {0}) RuleStateStoreError
put_memory q rule_name state = (record { states = insert q.states rule_name state }, ok tt)

unfoldable pub load_all_memory : InMemoryRuleStateStore → Result States RuleStateStoreError
load_all_memory q = ok q.states

pub data WalRecord : Type 0 where
  put : String → RuleState → WalRecord

pub record Snapshot : Type 0 where
  pub rules : States

-- serde_json on a snapshot: the map that is read back has the values of the map that was written.
pub record SnapshotCodec : Type 1 where
  pub File : Type 0
  pub to_writer : Snapshot → Result File String
  pub from_reader : File → Result Snapshot String
  pub round_trip :
      (s : Snapshot) (f : File)
      → to_writer s ≡ ok f
      → (s' : Snapshot) × (from_reader f ≡ ok s')
        × ((name : String) → get s'.rules name ≡ get s.rules name)

-- The closure that `open` hands to the replay.
unfoldable pub apply_put : States → WalRecord → States
apply_put rules (WalRecord.put rule_name state) = insert rules rule_name state

-- How `snapshot` ends: all done; an error of the flush of the log; an error with the old snapshot in
-- place; an error between the rename of the new snapshot and the truncation of the log.
pub data SnapshotOutcome : Type 0 where
  stored : SnapshotOutcome
  not_flushed : String → SnapshotOutcome
  not_written : String → SnapshotOutcome
  not_truncated : String → SnapshotOutcome
