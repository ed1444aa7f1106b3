-- ===== src/Beacon/States/Store.antt =====
-- `FileBackedRuleStateStore` of crates/beacon/src/state_store.rs.
use kaleidoscope.Prelude.{String, Option, none, some, [], Result, ok, err, ◌>>=◌, string_key}
use kaleidoscope.Prelude.Map.{insert}
use kaleidoscope.WalRecovery.Replay.{Bytes, TornTail, replay_wal_tolerating_torn_tail}
use kaleidoscope.WalRecovery.Json.{JsonLines}
use kaleidoscope.Storage.Log.{Reason, Outcome, LogFile, flushed, append_wal, Appended}
use kaleidoscope.Beacon.StateMachine.{RuleState}
use kaleidoscope.Beacon.States.Records.{
  States, RuleStateStoreError, persistence_failed, WalRecord, Snapshot, SnapshotCodec, apply_put,
  SnapshotOutcome, stored, not_flushed, not_written, not_truncated,
}

module _ (json : JsonLines WalRecord) (snapshot_json : SnapshotCodec) where
  -- `rules` and `wal` are the fields of `Inner`; `snapshot_file` is the file beside the log.
  pub record FileBackedRuleStateStore : Type 0 where
    pub rules : States
    pub wal : LogFile
    pub snapshot_file : Option snapshot_json.File

  abbrev Store : Type 0
  Store = FileBackedRuleStateStore

  unfoldable pub load_all : Store → Result States RuleStateStoreError
  load_all q = ok q.rules

  unfoldable pub put_appended :
      Store → String → RuleState → Appended → Store × Result (Unit {0}) RuleStateStoreError
  put_appended q rule_name state (wal, err e) = (record q { wal = wal }, err (persistence_failed e))
  put_appended q rule_name state (wal, ok _) =
      (record q { wal = wal; rules = insert q.rules rule_name state }, ok tt)

  unfoldable pub put :
      Outcome → Store → String → RuleState → Store × Result (Unit {0}) RuleStateStoreError
  unfolding put_appended
  put outcome q rule_name state =
      put_appended q rule_name state (append_wal json outcome q.wal (WalRecord.put rule_name state))

  unfoldable pub load_parsed : Result Snapshot String → Result States RuleStateStoreError
  load_parsed (err e) = err (persistence_failed (Reason.parse e))
  load_parsed (ok snapshot) = ok snapshot.rules

  -- The part of `open` that reads the snapshot.
  unfoldable pub read_snapshot : Option snapshot_json.File → Result States RuleStateStoreError
  unfolding load_parsed
  read_snapshot none = ok []
  read_snapshot (some file) = load_parsed (snapshot_json.from_reader file)

  unfoldable pub replay : Bytes → States → Result (States × Option TornTail) RuleStateStoreError
  unfolding replay_wal_tolerating_torn_tail apply_put
  replay bytes rules =
      replay_wal_tolerating_torn_tail json.from_str (λ s r. ok (apply_put s r))
        (λ line e. persistence_failed (Reason.wal_parse line e)) bytes rules

  -- `open` on the bytes of the log and the snapshot's file. The log is opened for append.
  unfoldable pub open_files : Option snapshot_json.File → Bytes → Result Store RuleStateStoreError
  unfolding read_snapshot replay
  open_files snapshot_file bytes = do
    loaded ← read_snapshot snapshot_file
    replayed ← replay bytes loaded
    ok (record {
      rules = replayed.0;
      wal = record { bytes = bytes; buffered = [] };
      snapshot_file = snapshot_file;
    })

  unfoldable pub store_snapshot :
      SnapshotOutcome
      → Store
      → Result snapshot_json.File String
      → Store × Result (Unit {0}) RuleStateStoreError
  store_snapshot (not_flushed e) q text = (q, err (persistence_failed (Reason.io e)))
  store_snapshot stored q (err e) =
      (record q { wal = flushed q.wal }, err (persistence_failed (Reason.io e)))
  store_snapshot stored q (ok file) =
      (record q { wal = record { bytes = []; buffered = [] }; snapshot_file = some file }, ok tt)
  store_snapshot (not_written e) q text =
      (record q { wal = flushed q.wal }, err (persistence_failed (Reason.io e)))
  store_snapshot (not_truncated e) q (err e') =
      (record q { wal = flushed q.wal }, err (persistence_failed (Reason.io e')))
  store_snapshot (not_truncated e) q (ok file) = (
    record q { wal = flushed q.wal; snapshot_file = some file },
    err (persistence_failed (Reason.io e)),
  )

  unfoldable pub snapshot : SnapshotOutcome → Store → Store × Result (Unit {0}) RuleStateStoreError
  unfolding store_snapshot
  snapshot outcome q =
      store_snapshot outcome q (snapshot_json.to_writer (record { rules = q.rules }))
