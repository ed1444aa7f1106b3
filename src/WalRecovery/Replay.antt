-- ===== src/WalRecovery/Replay.antt =====
-- crates/wal-recovery/src/lib.rs: `replay_wal_tolerating_torn_tail`. A file is the list of its bytes,
-- and a text the list of the bytes of its UTF-8. The parser of one line is a parameter.
use kaleidoscope.Prelude.{
  ℕ, ◌+◌, String, Bool, false, Option, none, some, List, [], ◌∷◌, nat_beq, if◌then◌else◌, Result,
  ok, err, ◌>>=◌, length, ◌&&◌, not,
}
pub use kaleidoscope.WalRecovery.Utf8.{Bytes, newline, is_nil}
use kaleidoscope.WalRecovery.Utf8.{from_utf8_lossy}

-- `text.split('\n')`: one part more than there are newlines.
unfoldable pub cons_head : ℕ → List Bytes → List Bytes
cons_head c [] = (c ∷ []) ∷ []
cons_head c (part ∷ parts) = (c ∷ part) ∷ parts

unfoldable pub split : Bytes → List Bytes
unfolding cons_head
split [] = [] ∷ []
split (c ∷ cs) = let parts = split cs in if nat_beq c newline then [] ∷ parts else cons_head c parts

-- `wal_bytes.last() == Some(&b'\n')`
unfoldable pub ends_with_newline : Bytes → Bool
ends_with_newline [] = false
ends_with_newline (c ∷ []) = nat_beq c newline
ends_with_newline (c ∷ d ∷ cs) = ends_with_newline (d ∷ cs)

-- The fields of the warning `wal.recovery.torn_tail_dropped`.
pub record TornTail : Type 0 where
  pub line : ℕ
  pub dropped_bytes : ℕ

-- `S` is what the closure `apply` writes to; the outcome is that and the warning, if one is given.
module _ {R S E : Type 0} (from_str : Bytes → Result R String) (apply : S → R → Result S E)
    (on_parse_error : ℕ → String → E) where
  abbrev pub Replayed : Type 0
  Replayed = Result (S × Option TornTail) E

  -- What follows a line: the parsed record and the rest of the loop, or an end.
  unfoldable pub after_line :
      Bool → Bool → ℕ → Bytes → S → Result R String → (S → Replayed) → Replayed
  after_line ends last index line s (ok r) continue = apply s r >>= continue
  after_line ends last index line s (err error) continue =
      if last && not ends
      then ok (s, some (record { line = index + 1; dropped_bytes = length line }))
      else err (on_parse_error (index + 1) error)

  -- The loop over the parts, from the part at `index`.
  unfoldable pub replay_parts : Bool → ℕ → List Bytes → S → Replayed
  unfolding after_line
  replay_parts ends index [] s = ok (s, none)
  replay_parts ends index ([] ∷ parts) s = replay_parts ends (index + 1) parts s
  replay_parts ends index ((c ∷ cs) ∷ parts) s =
      after_line ends (is_nil parts) index (c ∷ cs) s (from_str (c ∷ cs))
        (replay_parts ends (index + 1) parts)

  unfoldable pub replay_wal_tolerating_torn_tail : Bytes → S → Replayed
  unfolding replay_parts split ends_with_newline from_utf8_lossy
  replay_wal_tolerating_torn_tail [] s = ok (s, none)
  replay_wal_tolerating_torn_tail (b ∷ bytes) s =
      replay_parts (ends_with_newline (b ∷ bytes)) 0 (split (from_utf8_lossy (b ∷ bytes))) s
