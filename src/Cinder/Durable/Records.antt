-- ===== src/Cinder/Durable/Records.antt =====
-- crates/cinder/src/file_backed.rs: the records of the log, the snapshot, and how they are applied.
use kaleidoscope.Prelude.{◌≡◌, String, List, [], ◌∷◌, Result, ok, map, pair_key}
use kaleidoscope.Prelude.Map.{get, insert}
use kaleidoscope.Sluice.Types.{TenantId}
use kaleidoscope.Cinder.Types.{SystemTime, Tier, ItemId, ItemKey, TierEntry, Entries}
use kaleidoscope.Cinder.Sweep.{set_tier}

pub data WalRecord : Type 0 where
  place : TenantId → ItemId → Tier → SystemTime → WalRecord
  migrate : TenantId → ItemId → Tier → SystemTime → WalRecord

pub record SnapshotEntry : Type 0 where
  pub tenant : TenantId
  pub item : ItemId
  pub entry : TierEntry

pub record Snapshot : Type 0 where
  pub entries : List SnapshotEntry

-- serde_json on a snapshot: what was written is read back.
pub record SnapshotCodec : Type 1 where
  pub File : Type 0
  pub to_writer : Snapshot → Result File String
  pub from_reader : File → Result Snapshot String
  pub round_trip : (s : Snapshot) (f : File) → to_writer s ≡ ok f → from_reader f ≡ ok s

unfoldable pub apply_to_entries : Entries → WalRecord → Entries
unfolding set_tier
apply_to_entries entries (WalRecord.place tenant item tier placed_at) =
    insert entries (tenant, item)
      (record { tier = tier; placed_at = placed_at; migrated_at = placed_at })
apply_to_entries entries (WalRecord.migrate tenant item to_tier migrated_at) =
    set_tier entries (tenant, item) to_tier migrated_at (get entries (tenant, item))

-- How `snapshot` ends: all done; an error of the flush of the log; an error with the old snapshot in
-- place; an error between the rename of the new snapshot and the truncation of the log.
pub data SnapshotOutcome : Type 0 where
  stored : SnapshotOutcome
  not_flushed : String → SnapshotOutcome
  not_written : String → SnapshotOutcome
  not_truncated : String → SnapshotOutcome

unfoldable pub to_snapshot_entry : (ItemKey × TierEntry) → SnapshotEntry
to_snapshot_entry ((tenant, item), entry) = record { tenant = tenant; item = item; entry = entry }

unfoldable pub snapshot_of : Entries → Snapshot
unfolding to_snapshot_entry
snapshot_of entries = record { entries = map to_snapshot_entry entries }

unfoldable pub load_entries : Entries → List SnapshotEntry → Entries
load_entries entries [] = entries
load_entries entries (s ∷ rest) = load_entries (insert entries (s.tenant, s.item) s.entry) rest
