-- ===== src/Cinder/Durable/Saved.antt =====
-- crates/cinder/src/file_backed.rs: the files of a store lead to its entries, after every clean call.
use kaleidoscope.Prelude.{
  ◌≡◌, refl, sym, ap, ◌∙◌, subst, Option, none, some, List, [], ◌∷◌, ◌++◌, ok, err, inl, inr,
  pair_key,
}
use kaleidoscope.Prelude.Map.{get, IsUnique}
use kaleidoscope.Sluice.Types.{TenantId}
use kaleidoscope.WalRecovery.Json.{JsonLines}
use kaleidoscope.Storage.Log.{Reason, Outcome, LogFile, append_wal, Appended}
use kaleidoscope.Storage.Replayed.{IsClean, fold, fold-append, Logged, append_clean}
use kaleidoscope.Cinder.Types.{SystemTime, Tier, ItemId, ItemKey, TierEntry, Entries}
use kaleidoscope.Cinder.Durable.Records.{WalRecord, SnapshotCodec, apply_to_entries}
use kaleidoscope.Cinder.Durable.Effects.{effect, get-apply_to_entries, apply_to_entries-IsUnique}
use kaleidoscope.Cinder.Durable.Store.{
  FileBackedTieringStore, place_appended, place, migrate_appended, migrate_found, migrate,
  read_snapshot,
}

module _ (json : JsonLines WalRecord) (snapshot_json : SnapshotCodec) where
  abbrev Cinder : Type 0
  Cinder = FileBackedTieringStore json snapshot_json

  -- The snapshot loads, the log is the lines of some records, and both lead to the entries in memory.
  pub record Saved (q : Cinder) : Type 0 where
    pub loaded : Entries
    pub loads : read_snapshot json snapshot_json q.snapshot_file ≡ ok loaded
    pub records : List WalRecord
    pub logged : Logged json q.wal records
    pub same : (k : ItemKey) → get (fold apply_to_entries loaded records) k ≡ get q.entries k
    pub unique : IsUnique q.entries

  appended :
      (q q' : Cinder) (r : WalRecord)
      → (d : Saved q) → q'.snapshot_file ≡ q.snapshot_file
      → Logged json q'.wal (d.records ++ r ∷ [])
      → q'.entries ≡ apply_to_entries q.entries r
      → Saved q'
  appended q q' r d file logged entries = record {
    loaded = d.loaded;
    loads = ap (read_snapshot json snapshot_json) file ∙ d.loads;
    records = d.records ++ r ∷ [];
    logged = logged;
    same = λ k.
        ap (λ m. get m k) (fold-append apply_to_entries d.loaded d.records r)
        ∙ get-apply_to_entries (fold apply_to_entries d.loaded d.records) r k
        ∙ ap (effect k r) (d.same k)
        ∙ sym (ap (λ m. get m k) entries ∙ get-apply_to_entries q.entries r k);
    unique = subst IsUnique (sym entries) (apply_to_entries-IsUnique q.entries r d.unique);
  }

  -- A step that appends one record: it fails and leaves the files and the entries, or goes on with the
  -- record applied.
  pub after_append :
      {A : Type 0} (view : A → Cinder) (f : Appended → A) (o : Outcome) (q : Cinder) (r : WalRecord)
      → IsClean o
      → Saved q
      → ((e : Reason) → Saved (view (f (q.wal, err e))))
      → ((wal : LogFile)
          → ((q' : Cinder)
              → q'.snapshot_file ≡ q.snapshot_file
              → q'.wal ≡ wal
              → q'.entries ≡ apply_to_entries q.entries r
              → Saved q')
          → Saved (view (f (wal, ok tt))))
      → Saved (view (f (append_wal json o q.wal r)))
  after_append view f o q r clean d failed went =
      elim (append_clean json o q.wal d.records r clean d.logged) [
        | inl (e, same) ↦ subst (λ a. Saved (view (f a))) (sym same) (failed e)
        | inr (wal, same, logged) ↦
            subst (λ a. Saved (view (f a))) (sym same)
              (went wal (λ q' file is_wal entries.
                appended q q' r d file
                  (subst (λ w. Logged json w (d.records ++ r ∷ [])) (sym is_wal) logged) entries))
      ]

  pub place-Saved :
      (o : Outcome) (q : Cinder) (tenant : TenantId) (item : ItemId) (tier : Tier)
      (placed_at : SystemTime)
      → IsClean o
      → Saved q
      → Saved (place json snapshot_json o q tenant item tier placed_at).0
  unfolding place place_appended
  place-Saved o q tenant item tier placed_at clean d =
      let r = WalRecord.place tenant item tier placed_at in
      after_append (λ a. a.0) (place_appended json snapshot_json q tenant tier r) o q r clean d
        (λ e. d) (λ wal went. went _ refl refl refl)

  migrate_found-Saved :
      (o : Outcome) (q : Cinder) (tenant : TenantId) (item : ItemId) (to : Tier) (at : SystemTime)
      (entry : Option TierEntry)
      → IsClean o
      → Saved q
      → Saved (migrate_found json snapshot_json o q tenant item to at entry).0
  unfolding migrate_found migrate_appended
  migrate_found-Saved o q tenant item to at none clean d = d
  migrate_found-Saved o q tenant item to at (some entry) clean d =
      let r = WalRecord.migrate tenant item to at in
      after_append (λ a. a.0) (migrate_appended json snapshot_json q tenant entry to r) o q r clean
        d (λ e. d) (λ wal went. went _ refl refl refl)

  pub migrate-Saved :
      (o : Outcome) (q : Cinder) (tenant : TenantId) (item : ItemId) (to : Tier) (at : SystemTime)
      → IsClean o
      → Saved q
      → Saved (migrate json snapshot_json o q tenant item to at).0
  unfolding migrate
  migrate-Saved o q tenant item to at clean d =
      migrate_found-Saved o q tenant item to at (get q.entries (tenant, item)) clean d
