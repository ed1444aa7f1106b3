-- ===== src/Cinder/Durable/Faults.antt =====
-- crates/cinder/src/file_backed.rs: an append whose flush fails, and the next one that succeeds.
use kaleidoscope.Prelude.{
  ◌≡◌, refl, sym, ap, ◌∙◌, subst, String, Bool, true, false, some, [], ◌∷◌, ◌++◌, ok, err, ◌==◌,
  pair_key,
}
use kaleidoscope.Prelude.Map.{get}
use mathlib.Core.List.{append_assoc}
use kaleidoscope.Sluice.Types.{TenantId}
use kaleidoscope.WalRecovery.Replay.{Bytes, newline}
use kaleidoscope.WalRecovery.Json.{JsonLines}
use kaleidoscope.Storage.Log.{
  Reason, Outcome, LogFile, flushed, buffer_line, append_wal, write_line,
}
use kaleidoscope.Storage.Replayed.{Logged, Logged-line, fold, fold-append}
use kaleidoscope.Cinder.Types.{
  SystemTime, Tier, ItemId, ItemKey, TierEntry, Entries, persistence_failed,
}
use kaleidoscope.Cinder.Evaluate.{moved_to}
use kaleidoscope.Cinder.Durable.Records.{WalRecord, SnapshotCodec, apply_to_entries}
use kaleidoscope.Cinder.Durable.Effects.{effect, get-apply_to_entries, apply_to_entries-IsUnique}
use kaleidoscope.Cinder.Durable.Store.{
  FileBackedTieringStore, get_entry, place, place_appended, migrate, migrate_found,
  migrate_appended, open_files,
}
use kaleidoscope.Cinder.Durable.Saved.{Saved}
use kaleidoscope.Cinder.Durable.Recovery.{reopened}

abbrev pub same_item : ItemKey → ItemKey → Bool
same_item a b = a == b

-- The line that a failed flush has left is written by the next flush.
flushed_late :
    (wal : LogFile) (l k : Bytes)
    → flushed (buffer_line (buffer_line wal l) k)
      ≡ flushed (buffer_line (flushed (buffer_line wal l)) k)
unfolding flushed buffer_line
flushed_late wal l k =
    ap (λ b. record { bytes = b; buffered = [] })
      (sym (append_assoc wal.bytes (wal.buffered ++ (l ++ newline ∷ [])) (k ++ newline ∷ [])))

module _ (json : JsonLines WalRecord) (snapshot_json : SnapshotCodec) where
  abbrev Cinder : Type 0
  Cinder = FileBackedTieringStore json snapshot_json

  -- A store whose memory is what both records would have left.
  both :
      (q : Cinder) (r r' : WalRecord) (l k : Bytes)
      → (d : Saved json snapshot_json q) → json.to_string r ≡ ok l
      → json.to_string r' ≡ ok k
      → Saved json snapshot_json (record q {
        entries = apply_to_entries (apply_to_entries q.entries r) r';
        wal = flushed (buffer_line (buffer_line q.wal l) k);
      })
  both q r r' l k d el ek = record {
    loaded = d.loaded;
    loads = d.loads;
    records = (d.records ++ r ∷ []) ++ r' ∷ [];
    logged =
        subst (λ w. Logged json w ((d.records ++ r ∷ []) ++ r' ∷ [])) (sym (flushed_late q.wal l k))
          (Logged-line json (flushed (buffer_line q.wal l)) (d.records ++ r ∷ []) r' k
            (Logged-line json q.wal d.records r l d.logged el) ek);
    same = λ i.
        ap (λ m. get m i)
          (fold-append apply_to_entries d.loaded (d.records ++ r ∷ []) r'
            ∙ ap (λ m. apply_to_entries m r') (fold-append apply_to_entries d.loaded d.records r))
        ∙ get-apply_to_entries (apply_to_entries (fold apply_to_entries d.loaded d.records) r) r' i
        ∙ ap (effect i r') (
            get-apply_to_entries (fold apply_to_entries d.loaded d.records) r i
            ∙ ap (effect i r) (d.same i)
            ∙ sym (get-apply_to_entries q.entries r i))
        ∙ sym (get-apply_to_entries (apply_to_entries q.entries r) r' i);
    unique =
        apply_to_entries-IsUnique (apply_to_entries q.entries r) r'
          (apply_to_entries-IsUnique q.entries r d.unique);
  }

  migrated_then_placed :
      (m : Entries) (tenant tenant' : TenantId) (item item' : ItemId) (to tier : Tier)
      (at at' : SystemTime) (e : TierEntry)
      → (same_item (tenant', item') (tenant, item)) ≡ false
      → get m (tenant, item) ≡ some e
      → get
          (apply_to_entries
            (apply_to_entries m (WalRecord.migrate tenant item to at))
            (WalRecord.place tenant' item' tier at'))
          (tenant, item)
        ≡ some (moved_to to at e)
  migrated_then_placed m tenant tenant' item item' to tier at at' e other found =
      let key : same_item (tenant, item) (tenant, item) ≡ true =
        (pair_key.same_iff (tenant, item) (tenant, item)).1 refl in
      get-apply_to_entries (apply_to_entries m (WalRecord.migrate tenant item to at))
        (WalRecord.place tenant' item' tier at') (tenant, item)
      ∙ rw other (
          get-apply_to_entries m (WalRecord.migrate tenant item to at) (tenant, item)
          ∙ rw key (rw found refl))

  unmoved :
      (m : Entries) (tenant tenant' : TenantId) (item item' : ItemId) (tier : Tier)
      (at' : SystemTime) (e : TierEntry)
      → (same_item (tenant', item') (tenant, item)) ≡ false
      → get m (tenant, item) ≡ some e
      → get (apply_to_entries m (WalRecord.place tenant' item' tier at')) (tenant, item) ≡ some e
  unmoved m tenant tenant' item item' tier at' e other found =
      get-apply_to_entries m (WalRecord.place tenant' item' tier at') (tenant, item)
      ∙ rw other found

  -- Of a store whose files hold its entries: a migration whose flush fails returns an error and leaves the
  -- item in its tier; but its line stays in the buffer, and the next placement of another item writes it. The
  -- item is still in its tier in memory, and the store that `open` gives has it migrated.
  pub failed_migrate_lands :
      (q : FileBackedTieringStore json snapshot_json) (tenant tenant' : TenantId)
      (item item' : ItemId) (to tier : Tier) (at at' : SystemTime) (e : TierEntry) (reason : String)
      (l k : Bytes)
      → Saved json snapshot_json q
      → get_entry json snapshot_json q tenant item ≡ some e
      → (same_item (tenant', item') (tenant, item)) ≡ false
      → json.to_string (WalRecord.migrate tenant item to at) ≡ ok l
      → json.to_string (WalRecord.place tenant' item' tier at') ≡ ok k
      → let failure = migrate json snapshot_json (Outcome.failed reason) q tenant item to at in
        let q2 = (place json snapshot_json Outcome.done failure.0 tenant' item' tier at').0 in
        (failure.1 ≡ err (persistence_failed (Reason.io reason)))
        × (get_entry json snapshot_json q2 tenant item ≡ some e)
        × ((q' : FileBackedTieringStore json snapshot_json) × (open_files json snapshot_json
                q2.snapshot_file q2.wal.bytes
              ≡ ok q')
            × (get_entry json snapshot_json q' tenant item ≡ some (moved_to to at e)))
  unfolding migrate migrate_found migrate_appended place place_appended append_wal write_line
      get_entry
  failed_migrate_lands q tenant tenant' item item' to tier at at' e reason l k d found other el ek =
      let d2 =
        both q (WalRecord.migrate tenant item to at) (WalRecord.place tenant' item' tier at') l k d
          el ek in
      let (q', opens, same) = reopened json snapshot_json _ d2 in
      rw (found, el)
        (rw ek (
          refl,
          unmoved q.entries tenant tenant' item item' tier at' e other found,
          (
            q',
            opens,
            same tenant item
                ∙ migrated_then_placed q.entries tenant tenant' item item' to tier at at' e other
                    found,
          ),
        ))
