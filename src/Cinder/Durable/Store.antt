-- ===== src/Cinder/Durable/Store.antt =====
-- `FileBackedTieringStore` of crates/cinder/src/file_backed.rs. Each write takes its outcome; the
-- serialisers of a record and of a snapshot are parameters.
use kaleidoscope.Prelude.{
  ℕ, ◌+◌, String, Option, none, some, List, [], ◌∷◌, ◌++◌, Result, ok, err, ◌>>=◌, pair_key,
  string_key,
}
use kaleidoscope.Prelude.Map.{Map, get}
use kaleidoscope.Sluice.Types.{TenantId}
use kaleidoscope.WalRecovery.Replay.{Bytes, TornTail, replay_wal_tolerating_torn_tail}
use kaleidoscope.WalRecovery.Json.{JsonLines}
use kaleidoscope.Storage.Log.{Reason, Outcome, LogFile, flushed, append_wal, Appended}
use kaleidoscope.Cinder.Types.{
  SystemTime, Tier, ItemId, ItemKey, TierEntry, Entries, TierPolicy, MigrateError, unknown_item,
  persistence_failed, RecordedEvent, placed, migrated,
}
use kaleidoscope.Cinder.Sweep.{Moves, to_migrate, set_tier, count_one, evaluated_events}
use kaleidoscope.Cinder.Durable.Records.{
  WalRecord, Snapshot, SnapshotCodec, apply_to_entries, SnapshotOutcome, stored, not_flushed,
  not_written, not_truncated, snapshot_of, load_entries,
}

module _ (json : JsonLines WalRecord) (snapshot_json : SnapshotCodec) where
  -- `entries` and `wal` are the fields of `Inner`; `snapshot_file` is the file beside the log.
  pub record FileBackedTieringStore : Type 0 where
    pub entries : Entries
    pub events : List RecordedEvent
    pub wal : LogFile
    pub snapshot_file : Option snapshot_json.File

  abbrev Store : Type 0
  Store = FileBackedTieringStore

  unfoldable pub place_appended :
      Store → TenantId → Tier → WalRecord → Appended → Store × Result (Unit {0}) MigrateError
  place_appended q tenant tier r (wal, err e) = (record q { wal = wal }, err (persistence_failed e))
  place_appended q tenant tier r (wal, ok _) = (
    record q {
      wal = wal;
      entries = apply_to_entries q.entries r;
      events = q.events ++ placed tenant tier ∷ [];
    },
    ok tt,
  )

  unfoldable pub place :
      Outcome
      → Store
      → TenantId
      → ItemId
      → Tier
      → SystemTime
      → Store × Result (Unit {0}) MigrateError
  unfolding place_appended apply_to_entries
  place outcome q tenant item tier placed_at =
      let r = WalRecord.place tenant item tier placed_at in
      place_appended q tenant tier r (append_wal json outcome q.wal r)

  unfoldable pub get_entry : Store → TenantId → ItemId → Option TierEntry
  get_entry q tenant item = get q.entries (tenant, item)

  unfoldable pub migrate_appended :
      Store
      → TenantId
      → TierEntry
      → Tier
      → WalRecord
      → Appended
      → Store × Result (Unit {0}) MigrateError
  migrate_appended q tenant entry to_tier r (wal, err e) =
      (record q { wal = wal }, err (persistence_failed e))
  migrate_appended q tenant entry to_tier r (wal, ok _) = (
    record q {
      wal = wal;
      entries = apply_to_entries q.entries r;
      events = q.events ++ migrated tenant entry.tier to_tier ∷ [];
    },
    ok tt,
  )

  unfoldable pub migrate_found :
      Outcome
      → Store
      → TenantId
      → ItemId
      → Tier
      → SystemTime
      → Option TierEntry
      → Store × Result (Unit {0}) MigrateError
  unfolding migrate_appended
  migrate_found outcome q tenant item to_tier migrated_at none = (q, err (unknown_item tenant item))
  migrate_found outcome q tenant item to_tier migrated_at (some entry) =
      let r = WalRecord.migrate tenant item to_tier migrated_at in
      migrate_appended q tenant entry to_tier r (append_wal json outcome q.wal r)

  -- The test of the key and the entry that is read after the append, before anything has changed it.
  unfoldable pub migrate :
      Outcome
      → Store
      → TenantId
      → ItemId
      → Tier
      → SystemTime
      → Store × Result (Unit {0}) MigrateError
  unfolding migrate_found
  migrate outcome q tenant item to_tier migrated_at =
      migrate_found outcome q tenant item to_tier migrated_at (get q.entries (tenant, item))

  -- The store, the count and the counts per tenant in the second loop of `evaluate_at`.
  pub record Swept : Type 0 where
    pub store : Store
    pub count : ℕ
    pub per_tenant : Map TenantId ℕ

  unfoldable pub moved : SystemTime → ItemKey → Tier → Tier → Swept → LogFile → Swept
  unfolding set_tier
  moved now key from to s wal = record {
    store = record (s.store) {
      wal = wal;
      entries = set_tier s.store.entries key to now (get s.store.entries key);
      events = s.store.events ++ migrated key.0 from to ∷ [];
    };
    count = s.count + 1;
    per_tenant = count_one s.per_tenant key.0;
  }

  unfoldable pub sweep_appended :
      (Swept → Swept × Result (Unit {0}) MigrateError)
      → SystemTime
      → ItemKey
      → Tier
      → Tier
      → Swept
      → Appended
      → Swept × Result (Unit {0}) MigrateError
  unfolding moved
  sweep_appended continue now key from to s (wal, err e) =
      (record s { store = record (s.store) { wal = wal } }, err (persistence_failed e))
  sweep_appended continue now key from to s (wal, ok _) = continue (moved now key from to s wal)

  -- The second loop, up to the first append that fails; `outcomes` are those of the first appends, and
  -- the others are done.
  unfoldable pub sweep :
      List Outcome → SystemTime → Moves → Swept → Swept × Result (Unit {0}) MigrateError
  unfolding sweep_appended
  sweep outcomes now [] s = (s, ok tt)
  sweep [] now ((key, (from, to)) ∷ moves) s =
      sweep_appended (sweep [] now moves) now key from to s
        (append_wal json Outcome.done s.store.wal (WalRecord.migrate key.0 key.1 to now))
  sweep (outcome ∷ outcomes) now ((key, (from, to)) ∷ moves) s =
      sweep_appended (sweep outcomes now moves) now key from to s
        (append_wal json outcome s.store.wal (WalRecord.migrate key.0 key.1 to now))

  unfoldable pub evaluate_swept :
      Swept × Result (Unit {0}) MigrateError → Store × Result ℕ MigrateError
  evaluate_swept (s, err e) = (s.store, err e)
  evaluate_swept (s, ok _) =
      (record (s.store) { events = s.store.events ++ evaluated_events s.per_tenant }, ok s.count)

  unfoldable pub evaluate_at :
      List Outcome → Store → SystemTime → TierPolicy → Store × Result ℕ MigrateError
  unfolding sweep evaluate_swept to_migrate
  evaluate_at outcomes q now policy = evaluate_swept (
      sweep outcomes now (to_migrate now policy q.entries)
        (record { store = q; count = 0; per_tenant = [] }))

  -- The part of `open` that reads the snapshot.
  unfoldable pub read_snapshot : Option snapshot_json.File → Result Entries MigrateError
  unfolding load_entries
  read_snapshot none = ok []
  read_snapshot (some file) = load_parsed (snapshot_json.from_reader file)
    where
      load_parsed : Result Snapshot String → Result Entries MigrateError
      load_parsed (err e) = err (persistence_failed (Reason.parse e))
      load_parsed (ok snapshot) = ok (load_entries [] snapshot.entries)

  -- The replay of the log, with its warning.
  unfoldable pub replay : Bytes → Entries → Result (Entries × Option TornTail) MigrateError
  unfolding replay_wal_tolerating_torn_tail apply_to_entries
  replay bytes entries =
      replay_wal_tolerating_torn_tail json.from_str (λ s r. ok (apply_to_entries s r))
        (λ line e. persistence_failed (Reason.wal_parse line e)) bytes entries

  -- `open` on the bytes of the log and the snapshot's file. The log is opened for append.
  unfoldable pub open_files : Option snapshot_json.File → Bytes → Result Store MigrateError
  unfolding read_snapshot replay
  open_files snapshot_file bytes = do
    loaded ← read_snapshot snapshot_file
    replayed ← replay bytes loaded
    ok (record {
      entries = replayed.0;
      events = [];
      wal = record { bytes = bytes; buffered = [] };
      snapshot_file = snapshot_file;
    })

  unfoldable pub store_snapshot :
      SnapshotOutcome
      → Store
      → Result snapshot_json.File String
      → Store × Result (Unit {0}) MigrateError
  store_snapshot outcome q (err e) =
      (record q { wal = flushed q.wal }, err (persistence_failed (Reason.io e)))
  store_snapshot stored q (ok file) =
      (record q { wal = record { bytes = []; buffered = [] }; snapshot_file = some file }, ok tt)
  store_snapshot (not_flushed e) q (ok file) = (q, err (persistence_failed (Reason.io e)))
  store_snapshot (not_written e) q (ok file) =
      (record q { wal = flushed q.wal }, err (persistence_failed (Reason.io e)))
  store_snapshot (not_truncated e) q (ok file) = (
    record q { wal = flushed q.wal; snapshot_file = some file },
    err (persistence_failed (Reason.io e)),
  )

  unfoldable pub snapshot : SnapshotOutcome → Store → Store × Result (Unit {0}) MigrateError
  unfolding store_snapshot snapshot_of
  snapshot (not_flushed e) q = (q, err (persistence_failed (Reason.io e)))
  snapshot outcome q = store_snapshot outcome q (snapshot_json.to_writer (snapshot_of q.entries))
