-- ===== src/Storage/Log.antt =====
-- `append_wal` (crates/cinder/src/file_backed.rs and its like): one record as a line of a file, behind
-- a `BufWriter`.
use kaleidoscope.Prelude.{ℕ, String, [], ◌∷◌, ◌++◌, Result, ok, err}
use kaleidoscope.WalRecovery.Replay.{Bytes, newline}
use kaleidoscope.WalRecovery.Json.{JsonLines}

-- The reason of an error, by the call that failed: its text has the same prefix.
pub data Reason : Type 0 where
  io : String → Reason
  parse : String → Reason
  wal_parse : ℕ → String → Reason

-- How the writes and the fsync of one append end: all done; an error of the flush, with the line
-- kept in the buffer; an error of the fsync, with the line in the file.
pub data Outcome : Type 0 where
  done : Outcome
  failed : String → Outcome
  unsynced : String → Outcome

-- The bytes of the file, and those that a failed flush has left in the buffer.
pub record LogFile : Type 0 where
  pub bytes : Bytes
  pub buffered : Bytes

unfoldable pub flushed : LogFile → LogFile
flushed wal = record { bytes = wal.bytes ++ wal.buffered; buffered = [] }

unfoldable pub buffer_line : LogFile → Bytes → LogFile
buffer_line wal line = record wal { buffered = wal.buffered ++ (line ++ newline ∷ []) }

abbrev pub Appended : Type 0
Appended = LogFile × Result (Unit {0}) Reason

unfoldable pub write_line : Outcome → LogFile → Result Bytes String → Appended
unfolding flushed buffer_line
write_line outcome wal (err error) = (wal, err (parse error))
write_line done wal (ok line) = (flushed (buffer_line wal line), ok tt)
write_line (failed error) wal (ok line) = (buffer_line wal line, err (io error))
write_line (unsynced error) wal (ok line) = (flushed (buffer_line wal line), err (io error))

unfoldable pub append_wal : {R : Type 0} → JsonLines R → Outcome → LogFile → R → Appended
unfolding write_line
append_wal json outcome wal r = write_line outcome wal (json.to_string r)
