-- ===== src/Cinder/Durable/TornAppend.antt =====
-- crates/cinder/src/file_backed.rs: an append to a log that was opened with a torn last line.
use kaleidoscope.Prelude.{
  ℕ, ◌+◌, ◌≡◌, refl, sym, ap, ◌∙◌, subst, String, false, Option, List, [], ◌∷◌, ◌++◌, Result, ok,
  err, ◌>>=◌, length, pair_key,
}
use mathlib.Core.List.{append_assoc}
use kaleidoscope.Sluice.Types.{TenantId}
use kaleidoscope.WalRecovery.Replay.{Bytes, newline, is_nil, TornTail}
use kaleidoscope.WalRecovery.Utf8.{IsLine-append, from_utf8_lossy}
use kaleidoscope.WalRecovery.Lines.{IsLine, terminated}
use kaleidoscope.WalRecovery.Json.{JsonLines}
use kaleidoscope.WalRecovery.Prefix.{replay_corrupt}
use kaleidoscope.WalRecovery.Crash.{front-IsLine}
use kaleidoscope.Storage.Log.{Reason, Outcome, flushed, buffer_line, append_wal, write_line}
use kaleidoscope.Storage.Replayed.{apply_all-fold}
use kaleidoscope.Cinder.Types.{SystemTime, Tier, ItemId, Entries, MigrateError, persistence_failed}
use kaleidoscope.Cinder.Durable.Records.{WalRecord, SnapshotCodec, apply_to_entries}
use kaleidoscope.Cinder.Durable.Store.{
  FileBackedTieringStore, place, place_appended, read_snapshot, replay, open_files,
}
use kaleidoscope.Cinder.Durable.Saved.{Saved}

module _ (json : JsonLines WalRecord) (snapshot_json : SnapshotCodec) where
  abbrev Cinder : Type 0
  Cinder = FileBackedTieringStore json snapshot_json

  -- `open` appends to the file as it is.
  opens_file :
      (file : Option snapshot_json.File) (bytes : Bytes) (q : Cinder)
      → open_files json snapshot_json file bytes ≡ ok q
      → (q.wal ≡ record { bytes = bytes; buffered = [] }) × (q.snapshot_file ≡ file)
  unfolding open_files
  opens_file file bytes q h = by_snapshot (read_snapshot json snapshot_json file) h
    where
      by_replay :
          (r : Result (Entries × Option TornTail) MigrateError)
          → (r >>= λ replayed. ok (record {
            entries = replayed.0;
            events = [];
            wal = record { bytes = bytes; buffered = [] };
            snapshot_file = file;
          }))
            ≡ ok q
          → (q.wal ≡ record { bytes = bytes; buffered = [] }) × (q.snapshot_file ≡ file)
      by_replay (err e) h = cc
      by_replay (ok replayed) h =
          let same : record {
            entries = replayed.0;
            events = [];
            wal = record { bytes = bytes; buffered = [] };
            snapshot_file = file;
          }
              ≡ q =
            cc h in
          (sym (ap (λ s. s.wal) same), sym (ap (λ s. s.snapshot_file) same))

      by_snapshot :
          (r : Result Entries MigrateError)
          → (r >>= λ loaded. replay json snapshot_json bytes loaded >>= λ replayed. ok (record {
            entries = replayed.0;
            events = [];
            wal = record { bytes = bytes; buffered = [] };
            snapshot_file = file;
          }))
            ≡ ok q
          → (q.wal ≡ record { bytes = bytes; buffered = [] }) × (q.snapshot_file ≡ file)
      by_snapshot (err e) h = cc
      by_snapshot (ok loaded) h = by_replay (replay json snapshot_json bytes loaded) h

  abbrev on_error : ℕ → String → MigrateError
  on_error line e = persistence_failed (Reason.wal_parse line e)

  glued_bytes :
      (file front k : Bytes) (lines : List Bytes)
      → file ≡ terminated lines
      → (file ++ front) ++ (k ++ newline ∷ []) ≡ terminated lines ++ ((front ++ k) ++ newline ∷ [])
  glued_bytes file front k lines e =
      append_assoc file front (k ++ newline ∷ [])
      ∙ ap (λ b. b ++ (front ++ (k ++ newline ∷ []))) e
      ∙ ap (λ b. terminated lines ++ b) (sym (append_assoc front k (newline ∷ [])))

  -- The log after a torn line and a line that was appended to it.
  glued :
      (q : Cinder) (d : Saved json snapshot_json q) (c : ℕ) (cs k : Bytes) (e : String)
      → IsLine ((c ∷ cs) ++ k)
      → json.from_str (from_utf8_lossy ((c ∷ cs) ++ k)) ≡ err e
      → replay json snapshot_json ((q.wal.bytes ++ c ∷ cs) ++ (k ++ newline ∷ [])) d.loaded
        ≡ err (on_error (length d.logged.lines + 1) e)
  unfolding replay
  glued q d c cs k e line bad =
      ap (λ b. replay json snapshot_json b d.loaded)
        (glued_bytes q.wal.bytes (c ∷ cs) k d.logged.lines d.logged.file)
      ∙ replay_corrupt json (λ s r. ok (apply_to_entries s r)) on_error d.records d.logged.lines c
          (cs ++ k) [] d.loaded e d.logged.written line bad
      ∙ ap (λ first. first >>= λ s'. err (on_error (length d.logged.lines + 1) e))
          (apply_all-fold json apply_to_entries on_error d.loaded d.records)

  placed_late :
      (q1 : Cinder) (bytes : Bytes) (tenant : TenantId) (item : ItemId) (tier : Tier)
      (at : SystemTime) (k : Bytes)
      → q1.wal ≡ record { bytes = bytes; buffered = [] }
      → json.to_string (WalRecord.place tenant item tier at) ≡ ok k
      → ((place json snapshot_json Outcome.done q1 tenant item tier at).1 ≡ ok tt)
        × ((place json snapshot_json Outcome.done q1 tenant item tier at).0.wal.bytes
            ≡ bytes ++ (k ++ newline ∷ []))
        × ((place json snapshot_json Outcome.done q1 tenant item tier at).0.snapshot_file
            ≡ q1.snapshot_file)
  unfolding place place_appended append_wal write_line flushed buffer_line
  placed_late q1 bytes tenant item tier at k wal text =
      rw text (refl, ap (λ w. w.bytes ++ (w.buffered ++ (k ++ newline ∷ []))) wal, refl)

  reopen_fails :
      (file : Option snapshot_json.File) (bytes : Bytes) (loaded : Entries) (e : MigrateError)
      → read_snapshot json snapshot_json file ≡ ok loaded
      → replay json snapshot_json bytes loaded ≡ err e
      → open_files json snapshot_json file bytes ≡ err e
  unfolding open_files
  reopen_fails file bytes loaded e loads fails = rw loads (rw fails refl)

  -- The files of a store lead to its entries, and a crash has cut the append of one more record to a
  -- proper prefix of its text, not empty. The log is opened, and a placement is written to it without an
  -- error. If the prefix and the text of the placement, read as one line, do not parse, then `open` on
  -- the files fails, and reports that line.
  pub append_after_torn :
      (q q1 : FileBackedTieringStore json snapshot_json) (r : WalRecord) (l front : Bytes) (c : ℕ)
      (rest : Bytes) (tenant : TenantId) (item : ItemId) (tier : Tier) (at : SystemTime) (k : Bytes)
      (e : String)
      → (d : Saved json snapshot_json q) → json.to_string r ≡ ok l
      → l ≡ front ++ c ∷ rest
      → is_nil front ≡ false
      → open_files json snapshot_json q.snapshot_file (q.wal.bytes ++ front) ≡ ok q1
      → json.to_string (WalRecord.place tenant item tier at) ≡ ok k
      → json.from_str (from_utf8_lossy (front ++ k)) ≡ err e
      → let done = place json snapshot_json Outcome.done q1 tenant item tier at in
        (done.1 ≡ ok tt)
        × (open_files json snapshot_json done.0.snapshot_file done.0.wal.bytes
            ≡ err (persistence_failed (Reason.wal_parse (length d.logged.lines + 1) e)))
  append_after_torn q q1 r l [] c rest tenant item tier at k e d text parts nonempty opened placed
        bad =
      cc
  append_after_torn q q1 r l (b ∷ front) c rest tenant item tier at k e d text parts nonempty opened
        placed bad =
      let (wal, file) = opens_file q.snapshot_file (q.wal.bytes ++ b ∷ front) q1 opened in
      let (result, bytes, same_file) =
        placed_late q1 (q.wal.bytes ++ b ∷ front) tenant item tier at k wal placed in
      let torn : IsLine (b ∷ front) =
        front-IsLine (b ∷ front) (c ∷ rest) (subst IsLine parts (json.one_line r l text)) in
      (
        result,
        ap
              (λ f.
                open_files json snapshot_json f
                  (place json snapshot_json Outcome.done q1 tenant item tier at).0.wal.bytes)
              (same_file ∙ file)
            ∙ ap (λ w. open_files json snapshot_json q.snapshot_file w) bytes
            ∙ reopen_fails q.snapshot_file _ d.loaded _ d.loads (
                glued q d b front k e
                  (IsLine-append (b ∷ front) k torn
                    (json.one_line (WalRecord.place tenant item tier at) k placed))
                  bad),
      )
