-- ===== src/Cinder/Durable/Recovery.antt =====
-- crates/cinder/src/file_backed.rs: `open` after any calls, and after a crash in an append.
use kaleidoscope.Prelude.{ℕ, ◌≡◌, refl, false, Option, none, List, [], ◌∷◌, ◌++◌, ok, All, pair_key}
use kaleidoscope.Sluice.Types.{TenantId}
use kaleidoscope.WalRecovery.Replay.{Bytes, is_nil, TornTail}
use kaleidoscope.WalRecovery.Lines.{terminated}
use kaleidoscope.WalRecovery.Json.{JsonLines}
use kaleidoscope.Storage.Log.{Reason}
use kaleidoscope.Storage.Replayed.{fold, replayed-Logged, replayed-torn}
use kaleidoscope.Cinder.Types.{ItemId, persistence_failed}
use kaleidoscope.Cinder.Durable.Records.{WalRecord, SnapshotCodec, apply_to_entries}
use kaleidoscope.Cinder.Durable.Store.{
  FileBackedTieringStore, get_entry, read_snapshot, replay, open_files,
}
use kaleidoscope.Cinder.Durable.Saved.{Saved}
use kaleidoscope.Cinder.Durable.Calls.{Call, IsCleanCall, calls, calls-Saved}

module _ (json : JsonLines WalRecord) (snapshot_json : SnapshotCodec) where
  abbrev Cinder : Type 0
  Cinder = FileBackedTieringStore json snapshot_json

  -- What `open` gives in a directory without files.
  abbrev pub new_store : Cinder
  new_store = record {
    entries = [];
    events = [];
    wal = record { bytes = []; buffered = [] };
    snapshot_file = none;
  }

  pub new_store-Saved : Saved json snapshot_json new_store
  unfolding read_snapshot fold terminated
  new_store-Saved = record {
    loaded = [];
    loads = refl;
    records = [];
    logged = record { lines = []; written = tt; file = refl; flushed_all = refl };
    same = λ k. refl;
    unique = tt;
  }

  opened :
      (q : Cinder) (d : Saved json snapshot_json q) (bytes : Bytes) (warning : Option TornTail)
      → replay json snapshot_json bytes d.loaded
        ≡ ok (fold apply_to_entries d.loaded d.records, warning)
      → (q' : Cinder) × (open_files json snapshot_json q.snapshot_file bytes ≡ ok q')
        × ((tenant : TenantId) (item : ItemId)
            → get_entry json snapshot_json q' tenant item
              ≡ get_entry json snapshot_json q tenant item)
  unfolding open_files get_entry
  opened q d bytes warning e = (
    record {
      entries = fold apply_to_entries d.loaded d.records;
      events = [];
      wal = record { bytes = bytes; buffered = [] };
      snapshot_file = q.snapshot_file;
    },
    rw (d.loads) (rw e refl),
    λ tenant item. d.same (tenant, item),
  )

  pub reopened :
      (q : Cinder)
      → Saved json snapshot_json q
      → (q' : Cinder) × (open_files json snapshot_json q.snapshot_file q.wal.bytes ≡ ok q')
        × ((tenant : TenantId) (item : ItemId)
            → get_entry json snapshot_json q' tenant item
              ≡ get_entry json snapshot_json q tenant item)
  unfolding replay
  reopened q d = opened q d q.wal.bytes none (
      replayed-Logged json apply_to_entries (λ line e. persistence_failed (Reason.wal_parse line e))
        q.wal d.records d.loaded d.logged)

  -- A new store serves any calls: placements, migrations, evaluations and snapshots. A record may fail
  -- to serialise and a snapshot may fail at any of its steps, but no flush or fsync of an append fails.
  -- Then `open` on the two files that it leaves succeeds, and every item has the entry that it had.
  pub recovered :
      (cs : List Call)
      → All IsCleanCall cs
      → let q = calls json snapshot_json new_store cs in
        (q' : FileBackedTieringStore json snapshot_json) × (open_files json snapshot_json
            q.snapshot_file q.wal.bytes
          ≡ ok q')
        × ((tenant : TenantId) (item : ItemId)
            → get_entry json snapshot_json q' tenant item
              ≡ get_entry json snapshot_json q tenant item)
  recovered cs clean =
      reopened (calls json snapshot_json new_store cs)
        (calls-Saved json snapshot_json cs new_store clean new_store-Saved)

  -- A new store serves any calls, with no flush or fsync of an append failing, and a crash cuts the
  -- append of one more record: a proper prefix of its text, not empty, is the end of the log. Then
  -- `open` on the two files succeeds, and every item has the entry that it had before that append.
  pub torn_append :
      (cs : List Call) (r : WalRecord) (l front : Bytes) (d : ℕ) (rest : Bytes)
      → All IsCleanCall cs
      → json.to_string r ≡ ok l
      → l ≡ front ++ d ∷ rest
      → is_nil front ≡ false
      → let q = calls json snapshot_json new_store cs in
        (q' : FileBackedTieringStore json snapshot_json) × (open_files json snapshot_json
            q.snapshot_file
            (q.wal.bytes ++ front)
          ≡ ok q')
        × ((tenant : TenantId) (item : ItemId)
            → get_entry json snapshot_json q' tenant item
              ≡ get_entry json snapshot_json q tenant item)
  unfolding replay
  torn_append cs r l front d rest clean e parts nonempty =
      let q = calls json snapshot_json new_store cs in
      let saved = calls-Saved json snapshot_json cs new_store clean new_store-Saved in
      opened q saved (q.wal.bytes ++ front) _ (
        replayed-torn json apply_to_entries (λ line e. persistence_failed (Reason.wal_parse line e))
          q.wal saved.records r l front d rest saved.loaded saved.logged e parts nonempty)
