-- ===== src/Cinder/Durable/Calls.antt =====
-- crates/cinder/src/file_backed.rs: sequences of calls, with snapshots, of a store.
use kaleidoscope.Prelude.{
  ◌≡◌, refl, sym, ap, ◌∙◌, String, some, List, [], ◌∷◌, ◌++◌, Result, ok, err, All, pair_key,
}
use kaleidoscope.Prelude.Map.{get}
use mathlib.Core.List.{append-nil}
use kaleidoscope.Sluice.Types.{TenantId}
use kaleidoscope.WalRecovery.Json.{JsonLines}
use kaleidoscope.Storage.Log.{Outcome, flushed}
use kaleidoscope.Storage.Replayed.{IsClean, fold, Logged}
use kaleidoscope.Cinder.Types.{SystemTime, Tier, ItemId, ItemKey, TierPolicy, MigrateError}
use kaleidoscope.Cinder.Sweep.{Moves, to_migrate}
use kaleidoscope.Cinder.Durable.Records.{
  WalRecord, SnapshotCodec, apply_to_entries, SnapshotOutcome, stored, not_flushed, not_written,
  not_truncated, snapshot_of, load_entries,
}
use kaleidoscope.Cinder.Durable.Effects.{effects, get-fold, effects_again, get-load_entries}
use kaleidoscope.Cinder.Durable.Store.{
  FileBackedTieringStore, place, migrate, Swept, moved, sweep_appended, sweep, evaluate_swept,
  evaluate_at, read_snapshot, store_snapshot, snapshot,
}
use kaleidoscope.Cinder.Durable.Saved.{Saved, after_append, place-Saved, migrate-Saved}

-- One call, with the outcomes of its writes.
pub data Call : Type 0 where
  place_call : Outcome → TenantId → ItemId → Tier → SystemTime → Call
  migrate_call : Outcome → TenantId → ItemId → Tier → SystemTime → Call
  evaluate_call : List Outcome → SystemTime → TierPolicy → Call
  snapshot_call : SnapshotOutcome → Call

-- No flush and no fsync of an append fails. A snapshot may fail in any way.
abbrev pub IsCleanCall : Call → Type 0
IsCleanCall (place_call o tenant item tier at) = IsClean o
IsCleanCall (migrate_call o tenant item tier at) = IsClean o
IsCleanCall (evaluate_call os now policy) = All IsClean os
IsCleanCall (snapshot_call o) = Unit

module _ (json : JsonLines WalRecord) (snapshot_json : SnapshotCodec) where
  abbrev pub Cinder : Type 0
  Cinder = FileBackedTieringStore json snapshot_json

  abbrev Sweeping : Type 0
  Sweeping = Swept json snapshot_json

  abbrev pub Held : Cinder → Type 0
  Held = Saved json snapshot_json

  sweep-Saved :
      (os : List Outcome) (now : SystemTime) (ms : Moves) (s : Sweeping)
      → All IsClean os
      → Held s.store
      → Held (sweep json snapshot_json os now ms s).0.store
  unfolding sweep sweep_appended moved apply_to_entries
  sweep-Saved os now [] s clean d = d
  sweep-Saved [] now ((key, (from, to)) ∷ ms) s clean d =
      after_append json snapshot_json (λ a. a.0.store)
        (sweep_appended json snapshot_json (sweep json snapshot_json [] now ms) now key from to s)
        Outcome.done s.store (WalRecord.migrate key.0 key.1 to now) tt d (λ e. d)
        (λ wal went.
          sweep-Saved [] now ms (moved json snapshot_json now key from to s wal) tt
            (went _ refl refl refl))
  sweep-Saved (o ∷ os) now ((key, (from, to)) ∷ ms) s clean d =
      after_append json snapshot_json (λ a. a.0.store)
        (sweep_appended json snapshot_json (sweep json snapshot_json os now ms) now key from to s) o
        s.store (WalRecord.migrate key.0 key.1 to now) clean.0 d (λ e. d)
        (λ wal went.
          sweep-Saved os now ms (moved json snapshot_json now key from to s wal) clean.1
            (went _ refl refl refl))

  -- `Saved` does not read the events.
  swept-Saved :
      (out : Sweeping × Result (Unit {0}) MigrateError)
      → Held out.0.store
      → Held (evaluate_swept json snapshot_json out).0
  unfolding evaluate_swept
  swept-Saved (s, err e) d = d
  swept-Saved (s, ok u) d = record {
    loaded = d.loaded;
    loads = d.loads;
    records = d.records;
    logged = d.logged;
    same = d.same;
    unique = d.unique;
  }

  flushed-Logged : (q : Cinder) (d : Held q) → Logged json (flushed q.wal) d.records
  unfolding flushed
  flushed-Logged q d = record {
    lines = d.logged.lines;
    written = d.logged.written;
    file = ap (λ b. q.wal.bytes ++ b) d.logged.flushed_all ∙ append-nil q.wal.bytes ∙ d.logged.file;
    flushed_all = refl;
  }

  flushed-Saved : (q : Cinder) → Held q → Held (record q { wal = flushed q.wal })
  flushed-Saved q d = record {
    loaded = d.loaded;
    loads = d.loads;
    records = d.records;
    logged = flushed-Logged q d;
    same = d.same;
    unique = d.unique;
  }

  written_back :
      (q : Cinder) (file : snapshot_json.File)
      → snapshot_json.to_writer (snapshot_of q.entries) ≡ ok file
      → read_snapshot json snapshot_json (some file)
        ≡ ok (load_entries [] (snapshot_of q.entries).entries)
  unfolding read_snapshot
  written_back q file e = rw (snapshot_json.round_trip (snapshot_of q.entries) file e) refl

  store_snapshot-Saved :
      (o : SnapshotOutcome) (q : Cinder) (text : Result snapshot_json.File String)
      → snapshot_json.to_writer (snapshot_of q.entries) ≡ text
      → Held q
      → Held (store_snapshot json snapshot_json o q text).0
  unfolding store_snapshot fold
  store_snapshot-Saved o q (err e) t d = flushed-Saved q d
  store_snapshot-Saved stored q (ok file) t d = record {
    loaded = load_entries [] (snapshot_of q.entries).entries;
    loads = written_back q file t;
    records = [];
    logged = record {
      lines = [];
      written = tt;
      file = unfold kaleidoscope.WalRecovery.Lines.terminated in refl;
      flushed_all = refl;
    };
    same = λ k. get-load_entries q.entries k d.unique;
    unique = d.unique;
  }
  store_snapshot-Saved (not_flushed e) q (ok file) t d = d
  store_snapshot-Saved (not_written e) q (ok file) t d = flushed-Saved q d
  store_snapshot-Saved (not_truncated e) q (ok file) t d = record {
    loaded = load_entries [] (snapshot_of q.entries).entries;
    loads = written_back q file t;
    records = d.records;
    logged = flushed-Logged q d;
    same = λ k. replayed_again q d k (get-load_entries q.entries k d.unique);
    unique = d.unique;
  }
    where
      replayed_again :
          (q : Cinder) (d : Held q) (k : ItemKey)
          → get (load_entries [] (snapshot_of q.entries).entries) k ≡ get q.entries k
          → get
              (fold apply_to_entries (load_entries [] (snapshot_of q.entries).entries) d.records)
              k
            ≡ get q.entries k
      replayed_again q d k read =
          let led : effects k d.records (get d.loaded k) ≡ get q.entries k =
            sym (get-fold d.records d.loaded k) ∙ d.same k in
          get-fold d.records (load_entries [] (snapshot_of q.entries).entries) k
          ∙ ap (effects k d.records) (read ∙ sym led)
          ∙ effects_again k d.records (get d.loaded k)
          ∙ led

  snapshot-Saved :
      (o : SnapshotOutcome) (q : Cinder) → Held q → Held (snapshot json snapshot_json o q).0
  unfolding snapshot
  snapshot-Saved stored q d = store_snapshot-Saved stored q _ refl d
  snapshot-Saved (not_flushed e) q d = d
  snapshot-Saved (not_written e) q d = store_snapshot-Saved (not_written e) q _ refl d
  snapshot-Saved (not_truncated e) q d = store_snapshot-Saved (not_truncated e) q _ refl d

  unfoldable pub call : Cinder → Call → Cinder
  call q (place_call o tenant item tier at) = (place json snapshot_json o q tenant item tier at).0
  call q (migrate_call o tenant item to at) = (migrate json snapshot_json o q tenant item to at).0
  call q (evaluate_call os now policy) = (evaluate_at json snapshot_json os q now policy).0
  call q (snapshot_call o) = (snapshot json snapshot_json o q).0

  unfoldable pub calls : Cinder → List Call → Cinder
  calls q [] = q
  calls q (c ∷ cs) = calls (call q c) cs

  call-Saved : (q : Cinder) (c : Call) → IsCleanCall c → Held q → Held (call q c)
  unfolding call evaluate_at
  call-Saved q (place_call o tenant item tier at) clean d =
      place-Saved json snapshot_json o q tenant item tier at clean d
  call-Saved q (migrate_call o tenant item to at) clean d =
      migrate-Saved json snapshot_json o q tenant item to at clean d
  call-Saved q (evaluate_call os now policy) clean d = swept-Saved _ (
      sweep-Saved os now (to_migrate now policy q.entries)
        (record { store = q; count = 0; per_tenant = [] }) clean d)
  call-Saved q (snapshot_call o) clean d = snapshot-Saved o q d

  pub calls-Saved : (cs : List Call) (q : Cinder) → All IsCleanCall cs → Held q → Held (calls q cs)
  unfolding calls
  calls-Saved [] q clean d = d
  calls-Saved (c ∷ cs) q clean d = calls-Saved cs (call q c) clean.1 (call-Saved q c clean.0 d)
