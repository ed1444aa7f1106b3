-- ===== src/Cinder/Examples.antt =====
-- Runs of the stores of crates/cinder, and the theorems about them at concrete inputs.
mod Torn
use kaleidoscope.Prelude.{
  ℕ, ◌≡◌, refl, String, Bool, true, false, Option, none, some, List, [], ◌∷◌, ◌++◌, arith, Result,
  ok, err, ◌==◌, ◌&&◌, sym, nat_beq, string_key, pair_key, eq_iff, nat_beq_iff,
}
use kaleidoscope.Prelude.Map.{get, sum_by, contains_key, insert}
use kaleidoscope.Sluice.Types.{TenantId}
use kaleidoscope.WalRecovery.Json.{JsonLines}
use kaleidoscope.WalRecovery.Switches.{print, two_records}
use kaleidoscope.Storage.Log.{Reason, Outcome, append_wal}
use kaleidoscope.Cinder.Sweep.{due}
use kaleidoscope.Cinder.Types.{
  hot, warm, cold, ItemId, ItemKey, TierEntry, TierPolicy, persistence_failed, threshold_from,
  next_forward, duration_since,
}
use kaleidoscope.Cinder.Memory.{InMemoryTieringStore, get_entry, evaluate_at}
use kaleidoscope.Cinder.Evaluate.{forwarded, moves, moved_to, evaluate_at_lem}
use kaleidoscope.Cinder.Again.{evaluate_at-again}
use kaleidoscope.Cinder.Durable.Records.{
  WalRecord, place, migrate, Snapshot, SnapshotCodec, SnapshotOutcome, snapshot_of,
}
use kaleidoscope.Cinder.Durable.Saved.{Saved}
use kaleidoscope.Storage.Replayed.{fold}
use kaleidoscope.WalRecovery.Lines.{terminated}
use kaleidoscope.Cinder.Durable.Store.{FileBackedTieringStore, open_files}
use kaleidoscope.Cinder.Durable.Store
use kaleidoscope.Cinder.Durable.Calls.{Call, place_call, evaluate_call, snapshot_call, calls, call}
use kaleidoscope.Cinder.Durable.Recovery.{new_store, recovered, torn_append}
use kaleidoscope.Cinder.Durable.Equivalence.{memory_of, evaluate_at-refines}
use kaleidoscope.Cinder.Durable.Faults.{failed_migrate_lands}

abbrev policy : TierPolicy
policy = record { hot_to_warm = 10; warm_to_cold = 20 }

-- A young hot item, an old hot one, and an old warm one.
abbrev three_items : InMemoryTieringStore
three_items = record {
  entries =
      (("a", "x"), record { tier = hot; placed_at = 95; migrated_at = 95 })
      ∷ (("a", "y"), record { tier = hot; placed_at = 80; migrated_at = 80 })
      ∷ (("b", "x"), record { tier = warm; placed_at = 0; migrated_at = 50 })
      ∷ [];
  events = [];
}

abbrev at_100 : InMemoryTieringStore
at_100 = (evaluate_at three_items 100 policy).0

evaluate_at_lem_example :
    ((tenant : TenantId) (item : ItemId)
      → get_entry at_100 tenant item ≡ forwarded 100 policy (get_entry three_items tenant item))
    × ((evaluate_at three_items 100 policy).1 ≡ ok (sum_by (moves 100 policy) three_items.entries))
evaluate_at_lem_example =
    evaluate_at_lem three_items 100 policy (unfold contains_key in (refl, (refl, (refl, tt))))

two_moved : (evaluate_at three_items 100 policy).1 ≡ ok 2
unfolding evaluate_at due threshold_from next_forward duration_since
two_moved = refl

evaluate_at-again_example :
    ((tenant : TenantId) (item : ItemId)
      → get_entry (evaluate_at at_100 100 policy).0 tenant item ≡ get_entry at_100 tenant item)
    × ((evaluate_at at_100 100 policy).1 ≡ ok 0)
evaluate_at-again_example =
    evaluate_at-again three_items 100 policy (unfold contains_key in (refl, (refl, (refl, tt))))
      (omega arith)

-- A serialiser that knows the placement of one item and the migration of another.
abbrev known : String → String → String → ℕ → ℕ → Bool
known p tenant item at time = (tenant == "a" && item == p) && nat_beq at time

abbrev first_if : Bool → Bool → Option Bool
first_if b true = some b
first_if b false = none

module _ (p : String) where
  abbrev encode : WalRecord → Option Bool
  encode (place tenant item hot at) = first_if true (known p tenant item at 7)
  encode (migrate tenant item warm at) = first_if false (known "x" tenant item at 9)
  encode (place tenant item warm at) = none
  encode (place tenant item cold at) = none
  encode (migrate tenant item hot at) = none
  encode (migrate tenant item cold at) = none

  abbrev decode : Bool → WalRecord
  decode true = place "a" p hot 7
  decode false = migrate "a" "x" warm 9

  decode-encode : (r : WalRecord) (b : Bool) → encode r ≡ some b → decode b ≡ r
  decode-encode (place tenant item hot at) b h =
      ground (arith, eq_iff tenant "a", eq_iff item p, nat_beq_iff at 7)
  decode-encode (migrate tenant item warm at) b h =
      ground (arith, eq_iff tenant "a", eq_iff item "x", nat_beq_iff at 9)
  decode-encode (place tenant item warm at) b h = cc
  decode-encode (place tenant item cold at) b h = cc
  decode-encode (migrate tenant item hot at) b h = cc
  decode-encode (migrate tenant item cold at) b h = cc

  abbrev json : JsonLines WalRecord
  json = two_records encode decode decode-encode

abbrev read_back : Snapshot → Result Snapshot String
read_back s = ok s

read_back_same : (s f : Snapshot) → read_back s ≡ ok f → read_back f ≡ ok s
read_back_same s f h = sym h

abbrev whole : SnapshotCodec
whole = record {
  File = Snapshot;
  to_writer = read_back;
  from_reader = read_back;
  round_trip = read_back_same;
}

abbrev history : List Call
history =
    place_call Outcome.done "a" "x" hot 7
    ∷ snapshot_call (SnapshotOutcome.not_truncated "disk full")
    ∷ evaluate_call [] 9 (record { hot_to_warm = 2; warm_to_cold = 5 })
    ∷ []

abbrev served : FileBackedTieringStore (json "x") whole
served = calls (json "x") whole (new_store (json "x") whole) history

recovered_example :
    (q' : FileBackedTieringStore (json "x") whole) × (open_files
        (json "x")
        whole
        served.snapshot_file
        served.wal.bytes
      ≡ ok q')
    × ((tenant : TenantId) (item : ItemId)
        → Store.get_entry (json "x") whole q' tenant item
          ≡ Store.get_entry (json "x") whole served tenant item)
recovered_example = recovered (json "x") whole history (tt, (tt, (tt, tt)))

torn_append_example :
    (q' : FileBackedTieringStore (json "x") whole) × (open_files
        (json "x")
        whole
        served.snapshot_file
        (served.wal.bytes ++ 195 ∷ [])
      ≡ ok q')
    × ((tenant : TenantId) (item : ItemId)
        → Store.get_entry (json "x") whole q' tenant item
          ≡ Store.get_entry (json "x") whole served tenant item)
torn_append_example =
    torn_append (json "x") whole history (place "a" "x" hot 7) (195 ∷ 169 ∷ []) (195 ∷ []) 169 []
      (tt, (tt, (tt, tt))) (unfold print in refl) refl refl

-- The store before the evaluation.
abbrev before : FileBackedTieringStore (json "x") whole
before =
    calls (json "x") whole (new_store (json "x") whole) (place_call Outcome.done "a" "x" hot 7 ∷ [])

abbrev quick : TierPolicy
quick = record { hot_to_warm = 2; warm_to_cold = 5 }

moved_one : (Store.evaluate_at (json "x") whole [] before 9 quick).1 ≡ ok 1
unfolding Store.evaluate_at calls call Store.place print append_wal insert due threshold_from
    next_forward duration_since
moved_one = refl

evaluate_at-refines_example :
    evaluate_at (memory_of (json "x") whole before) 9 quick
    ≡ (memory_of (json "x") whole (Store.evaluate_at (json "x") whole [] before 9 quick).0, ok 1)
evaluate_at-refines_example = evaluate_at-refines (json "x") whole [] before 9 quick 1 moved_one

abbrev young : TierEntry
young = record { tier = hot; placed_at = 0; migrated_at = 0 }

abbrev one_item : List (ItemKey × TierEntry)
one_item = (("a", "x"), young) ∷ []

-- A store that has been opened on a snapshot.
abbrev loaded_one : FileBackedTieringStore (json "y") whole
loaded_one = record {
  entries = one_item;
  events = [];
  wal = record { bytes = []; buffered = [] };
  snapshot_file = some (snapshot_of one_item);
}

loaded_one-Saved : Saved (json "y") whole loaded_one
unfolding Store.read_snapshot snapshot_of fold terminated contains_key insert
loaded_one-Saved = record {
  loaded = one_item;
  loads = refl;
  records = [];
  logged = record { lines = []; written = tt; file = refl; flushed_all = refl };
  same = λ k. refl;
  unique = (refl, tt);
}

failed_migrate_lands_example :
    let failure =
      Store.migrate (json "y") whole (Outcome.failed "disk full") loaded_one "a" "x" warm 9 in
    let q2 = (Store.place (json "y") whole Outcome.done failure.0 "a" "y" hot 7).0 in
    (failure.1 ≡ err (persistence_failed (Reason.io "disk full")))
    × (Store.get_entry (json "y") whole q2 "a" "x" ≡ some young)
    × ((q' : FileBackedTieringStore (json "y") whole) × (open_files
            (json "y")
            whole
            q2.snapshot_file
            q2.wal.bytes
          ≡ ok q')
        × (Store.get_entry (json "y") whole q' "a" "x" ≡ some (moved_to warm 9 young)))
failed_migrate_lands_example =
    failed_migrate_lands (json "y") whole loaded_one "a" "a" "x" "y" warm hot 9 7 young "disk full"
      (195 ∷ 168 ∷ []) (195 ∷ 169 ∷ []) loaded_one-Saved
      (unfold Store.get_entry in unfold get in refl) refl (unfold print in refl)
      (unfold print in refl)
