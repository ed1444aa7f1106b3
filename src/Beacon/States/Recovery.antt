-- ===== src/Beacon/States/Recovery.antt =====
-- crates/beacon/src/state_store.rs: `open` after any calls, with or without a torn last line.
use kaleidoscope.Prelude.{
  ℕ, ◌≡◌, refl, sym, subst, String, Option, none, List, [], ◌∷◌, ◌++◌, ok, All, string_key,
}
use kaleidoscope.Prelude.Map.{get}
use mathlib.Core.List.{append-nil}
use kaleidoscope.WalRecovery.Replay.{Bytes, TornTail}
use kaleidoscope.WalRecovery.Lines.{terminated}
use kaleidoscope.WalRecovery.Json.{JsonLines}
use kaleidoscope.Storage.Log.{Reason, Outcome}
use kaleidoscope.Storage.Replayed.{IsClean, fold, replayed-Logged, replayed-torn}
use kaleidoscope.Beacon.StateMachine.{RuleState}
use kaleidoscope.Beacon.States.Records.{
  WalRecord, SnapshotCodec, apply_put, persistence_failed, SnapshotOutcome,
}
use kaleidoscope.Beacon.States.Store.{
  FileBackedRuleStateStore, put, read_snapshot, replay, open_files, snapshot,
}
use kaleidoscope.Beacon.States.Saved.{Saved, put-Saved, snapshot-Saved}

-- One call, with the outcome of its writes.
pub data Call : Type 0 where
  put_call : Outcome → String → RuleState → Call
  snapshot_call : SnapshotOutcome → Call

-- No flush and no fsync of an append fails. A snapshot may fail in any way.
abbrev pub IsCleanCall : Call → Type 0
IsCleanCall (put_call o name state) = IsClean o
IsCleanCall (snapshot_call o) = Unit

module _ (json : JsonLines WalRecord) (snapshot_json : SnapshotCodec) where
  abbrev Store : Type 0
  Store = FileBackedRuleStateStore json snapshot_json

  unfoldable pub calls : Store → List Call → Store
  calls q [] = q
  calls q (put_call o name state ∷ cs) = calls (put json snapshot_json o q name state).0 cs
  calls q (snapshot_call o ∷ cs) = calls (snapshot json snapshot_json o q).0 cs

  calls-Saved :
      (cs : List Call) (q : Store)
      → All IsCleanCall cs
      → Saved json snapshot_json q
      → Saved json snapshot_json (calls q cs)
  unfolding calls
  calls-Saved [] q clean d = d
  calls-Saved (put_call o name state ∷ cs) q clean d =
      calls-Saved cs _ clean.1 (put-Saved json snapshot_json o q name state clean.0 d)
  calls-Saved (snapshot_call o ∷ cs) q clean d =
      calls-Saved cs _ clean.1 (snapshot-Saved json snapshot_json o q d)

  -- What `open` gives in a directory without files.
  abbrev pub new_store : Store
  new_store = record {
    rules = [];
    wal = record { bytes = []; buffered = [] };
    snapshot_file = none;
  }

  new_store-Saved : Saved json snapshot_json new_store
  unfolding read_snapshot fold terminated
  new_store-Saved = record {
    loaded = [];
    loads = refl;
    records = [];
    logged = record { lines = []; written = tt; file = refl; flushed_all = refl };
    same = λ n. refl;
  }

  opened :
      (q : Store) (d : Saved json snapshot_json q) (bytes : Bytes) (warning : Option TornTail)
      → replay json snapshot_json bytes d.loaded ≡ ok (fold apply_put d.loaded d.records, warning)
      → (q' : Store) × (open_files json snapshot_json q.snapshot_file bytes ≡ ok q')
        × ((n : String) → get q'.rules n ≡ get q.rules n)
  unfolding open_files
  opened q d bytes warning e = (
    record {
      rules = fold apply_put d.loaded d.records;
      wal = record { bytes = bytes; buffered = [] };
      snapshot_file = q.snapshot_file;
    },
    rw (d.loads) (rw e refl),
    d.same,
  )

  -- A new store serves any puts and snapshots; a record may fail to serialise and a snapshot may fail at
  -- any of its steps, but no flush or fsync of an append fails. A crash may then cut the append of one
  -- more record: the end of the log is a proper prefix of its text, empty if there is no crash. Then
  -- `open` on the two files succeeds, and every rule has the state that it had.
  pub states_recovered :
      (cs : List Call) (r : WalRecord) (l front : Bytes) (d : ℕ) (rest : Bytes)
      → All IsCleanCall cs
      → json.to_string r ≡ ok l
      → l ≡ front ++ d ∷ rest
      → let q = calls new_store cs in
        (q' : FileBackedRuleStateStore json snapshot_json) × (open_files json snapshot_json
            q.snapshot_file
            (q.wal.bytes ++ front)
          ≡ ok q')
        × ((n : String) → get q'.rules n ≡ get q.rules n)
  unfolding replay
  states_recovered cs r l [] d rest clean e parts =
      let q = calls new_store cs in
      let saved = calls-Saved cs new_store clean new_store-Saved in
      subst
        (λ b.
          (q' : Store) × (open_files json snapshot_json q.snapshot_file b ≡ ok q')
          × ((n : String) → get q'.rules n ≡ get q.rules n))
        (sym (append-nil q.wal.bytes))
        (opened q saved q.wal.bytes none (
          replayed-Logged json apply_put (λ line e. persistence_failed (Reason.wal_parse line e))
            q.wal saved.records saved.loaded saved.logged))
  states_recovered cs r l (c ∷ front) d rest clean e parts =
      let q = calls new_store cs in
      let saved = calls-Saved cs new_store clean new_store-Saved in
      opened q saved (q.wal.bytes ++ c ∷ front) _ (
        replayed-torn json apply_put (λ line e. persistence_failed (Reason.wal_parse line e)) q.wal
          saved.records r l (c ∷ front) d rest saved.loaded saved.logged e parts refl)
