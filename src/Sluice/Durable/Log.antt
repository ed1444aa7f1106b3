-- ===== src/Sluice/Durable/Log.antt =====
-- crates/sluice/src/file_backed.rs: the log records, the append and the replay. A file of lines is
-- the list of its lines; serde_json is a parameter.
use kaleidoscope.Prelude.{
  ℕ, ◌≡◌, String, Bool, false, Option, none, some, List, [], ◌∷◌, ◌++◌, ltb, if◌then◌else◌, Result,
  ok, err, ◌>>=◌, nat_key, string_key, ◌==◌,
}
use kaleidoscope.Prelude.Map.{Map, get, insert, remove}
use kaleidoscope.Sluice.Types.{
  TenantId, MessageId, Message, EnqueueError, persistence_failed, queue_of,
}
use kaleidoscope.Sluice.Hex.{decode_hex}

pub data WalRecord : Type 0 where
  enqueue : MessageId → TenantId → List ℕ → WalRecord
  dequeue : MessageId → WalRecord
  ack : MessageId → WalRecord
  nack : MessageId → WalRecord

pub record MessageSnapshot : Type 0 where
  pub id : MessageId
  pub tenant : TenantId
  pub payload_hex : List ℕ

pub record TenantPending : Type 0 where
  pub tenant : TenantId
  pub messages : List MessageSnapshot

pub record Snapshot : Type 0 where
  pub next_id : ℕ
  pub pending : List TenantPending
  pub in_flight : List MessageSnapshot

-- What serde_json does for one type of records: a record that was written is read back, and no
-- record is an empty line.
pub record Codec (R : Type 0) : Type 1 where
  pub Line : Type 0
  pub is_empty : Line → Bool
  pub to_string : R → Result Line String
  pub from_str : Line → Result R String
  pub round_trip : (r : R) (line : Line) → to_string r ≡ ok line → from_str line ≡ ok r
  pub non_empty : (r : R) (line : Line) → to_string r ≡ ok line → is_empty line ≡ false

-- How the writes and the fsync of one append end: all done; an error of the flush, with the line
-- kept in the buffer; an error of the fsync, with the line in the file.
pub data Outcome : Type 0 where
  done : Outcome
  failed : String → Outcome
  unsynced : String → Outcome

-- A `BufWriter` over the log: the lines of the file, and those of a flush that failed, which the
-- next flush writes.
pub record LogFile (Line : Type 0) : Type 0 where
  pub lines : List Line
  pub buffered : List Line

abbrev pub flushed : {Line : Type 0} → LogFile Line → LogFile Line
flushed wal = record { lines = wal.lines ++ wal.buffered; buffered = [] }

unfoldable pub parse_error {ℓ} : {A : Type ℓ} → Result A String → Result A EnqueueError
parse_error (ok a) = ok a
parse_error (err reason) = err (persistence_failed reason)

-- The maps that `open` fills.
pub record Loaded : Type 0 where
  pub next_id : ℕ
  pub pending : Map TenantId (List Message)
  pub in_flight : Map MessageId Message

abbrev pub fresh : Loaded
fresh = record { next_id = 0; pending = []; in_flight = [] }

-- `q.iter().position(|m| m.id == msg_id)` and `q.remove(pos)`
cons_found : Message → Option (Message × List Message) → Option (Message × List Message)
cons_found m none = none
cons_found m (some (n, rest)) = some (n, m ∷ rest)

unfoldable pub take_id : MessageId → List Message → Option (Message × List Message)
unfolding cons_found
take_id id [] = none
take_id id (m ∷ ms) =
    let rest = take_id id ms in if m.id == id then some (m, ms) else cons_found m rest

-- The scan over the tenants, which stops at the first that has the id.
abbrev pub Found : Type 0
Found = TenantId × Message × Map TenantId (List Message)

scan_on :
    TenantId
    → List Message
    → Map TenantId (List Message)
    → Option (Message × List Message)
    → Option Found
    → Option Found
scan_on t queue p (some (m, rest)) later = some (t, m, (t, rest) ∷ p)
scan_on t queue p none none = none
scan_on t queue p none (some (u, m, p')) = some (u, m, (t, queue) ∷ p')

unfoldable pub scan : MessageId → Map TenantId (List Message) → Option Found
unfolding scan_on
scan id [] = none
scan id ((t, queue) ∷ p) = scan_on t queue p (take_id id queue) (scan id p)

-- `if q.is_empty() { pending.remove(&tenant) }`
unfoldable pub prune : Map TenantId (List Message) → TenantId → Map TenantId (List Message)
prune p t = elim (get p t) [ none ↦ p | some queue ↦ elim queue [ [] ↦ remove p t | m ∷ rest ↦ p ] ]

redeliver : Loaded → MessageId → Option Message → Loaded
redeliver l id none = l
redeliver l id (some m) = record l {
  in_flight = remove l.in_flight id;
  pending = insert l.pending m.tenant (m ∷ queue_of l.pending m.tenant);
}

hold_found : Loaded → MessageId → Option Found → Loaded
hold_found l id none = l
hold_found l id (some (t, m, p)) = record l {
  pending = prune p t;
  in_flight = insert l.in_flight id m;
}

unfoldable pub apply_record : Loaded → WalRecord → Result Loaded EnqueueError
unfolding redeliver hold_found
apply_record l (enqueue id tenant payload_hex) = do
  payload ← decode_hex payload_hex
  let message : Message = record { id = id; tenant = tenant; payload = payload }
  ok (record l {
    next_id = if ltb l.next_id id then id else l.next_id;
    pending = insert l.pending tenant (queue_of l.pending tenant ++ message ∷ []);
  })
apply_record l (dequeue id) = ok (hold_found l id (scan id l.pending))
apply_record l (ack id) = ok (record l { in_flight = remove l.in_flight id })
apply_record l (nack id) = ok (redeliver l id (get l.in_flight id))

module _ (json : Codec WalRecord) where
  -- The log after the append, and its result.
  abbrev pub Appended : Type 0
  Appended = LogFile json.Line × Result (Unit {0}) EnqueueError

  abbrev pub buffer : LogFile json.Line → json.Line → LogFile json.Line
  buffer wal line = record wal { buffered = wal.buffered ++ line ∷ [] }

  unfoldable pub write_line : Outcome → LogFile json.Line → Result json.Line String → Appended
  write_line outcome wal (err reason) = (wal, err (persistence_failed reason))
  write_line done wal (ok line) = (flushed (buffer wal line), ok tt)
  write_line (failed reason) wal (ok line) = (buffer wal line, err (persistence_failed reason))
  write_line (unsynced reason) wal (ok line) =
      (flushed (buffer wal line), err (persistence_failed reason))

  unfoldable pub append_wal : Outcome → LogFile json.Line → WalRecord → Appended
  unfolding write_line
  append_wal outcome wal r = write_line outcome wal (json.to_string r)

  -- The body of the loop over the lines of the log: an empty line is skipped.
  unfoldable pub replay_line : Loaded → json.Line → Result Loaded EnqueueError
  unfolding parse_error
  replay_line l line =
      if json.is_empty line
      then ok l
      else parse_error (json.from_str line) >>= λ r. apply_record l r

  unfoldable pub replay : Loaded → List json.Line → Result Loaded EnqueueError
  unfolding replay_line
  replay l [] = ok l
  replay l (line ∷ lines) = replay_line l line >>= λ l'. replay l' lines
