-- ===== src/Cinder/Examples/Torn.antt =====
-- An append to a torn log of crates/cinder, at concrete bytes.
use kaleidoscope.Prelude.{◌+◌, ◌≡◌, refl, some, [], ◌∷◌, ◌++◌, ok, err, length, pair_key}
use kaleidoscope.Prelude.Map.{insert}
use kaleidoscope.WalRecovery.Utf8.{from_utf8_lossy}
use kaleidoscope.WalRecovery.Switches.{print, parse}
use kaleidoscope.Storage.Log.{Reason, Outcome}
use kaleidoscope.Cinder.Types.{hot, persistence_failed}
use kaleidoscope.Cinder.Durable.Records.{place, snapshot_of}
use kaleidoscope.Cinder.Durable.Store.{FileBackedTieringStore, open_files}
use kaleidoscope.Cinder.Durable.Store
use kaleidoscope.Cinder.Durable.TornAppend.{append_after_torn}
use kaleidoscope.Cinder.Examples.{json, whole, one_item, loaded_one, loaded_one-Saved}

-- The store that is opened when half of a placement is in the log.
abbrev opened_torn : FileBackedTieringStore (json "y") whole
opened_torn = record {
  entries = one_item;
  events = [];
  wal = record { bytes = 195 ∷ []; buffered = [] };
  snapshot_file = some (snapshot_of one_item);
}

opens_torn :
    open_files (json "y") whole loaded_one.snapshot_file (loaded_one.wal.bytes ++ 195 ∷ [])
    ≡ ok opened_torn
unfolding open_files snapshot_of insert parse
opens_torn = refl

append_after_torn_example :
    let placed = Store.place (json "y") whole Outcome.done opened_torn "a" "y" hot 7 in
    (placed.1 ≡ ok tt)
    × (open_files (json "y") whole placed.0.snapshot_file placed.0.wal.bytes
        ≡ err (
            persistence_failed
              (Reason.wal_parse (length loaded_one-Saved.logged.lines + 1) "trailing characters")))
append_after_torn_example =
    append_after_torn (json "y") whole loaded_one opened_torn (place "a" "y" hot 7) (195 ∷ 169 ∷ [])
      (195 ∷ []) 169 [] "a" "y" hot 7 (195 ∷ 169 ∷ []) "trailing characters" loaded_one-Saved
      (unfold print in refl) refl refl opens_torn (unfold print in refl)
      (unfold parse from_utf8_lossy in refl)
