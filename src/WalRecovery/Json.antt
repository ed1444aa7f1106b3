-- ===== src/WalRecovery/Json.antt =====
-- crates/wal-recovery/src/lib.rs: what the replay relies on in serde_json, and a log that it wrote.
use kaleidoscope.Prelude.{ℕ, ◌≡◌, String, false, List, [], ◌∷◌, ◌++◌, Result, ok, err, All}
use kaleidoscope.WalRecovery.Replay.{Bytes, is_nil}
use kaleidoscope.WalRecovery.Utf8.{from_utf8_lossy}
use kaleidoscope.WalRecovery.Lines.{IsLine}

-- serde_json on one type of records: what was written is read back; the text of a record is one
-- line, not empty, and valid UTF-8; and a proper prefix of it, read as a file is, is no record.
pub record JsonLines (R : Type 0) : Type 1 where
  pub to_string : R → Result Bytes String
  pub from_str : Bytes → Result R String
  pub round_trip : (r : R) (l : Bytes) → to_string r ≡ ok l → from_str l ≡ ok r
  pub one_line : (r : R) (l : Bytes) → to_string r ≡ ok l → IsLine l
  pub non_empty : (r : R) (l : Bytes) → to_string r ≡ ok l → is_nil l ≡ false
  pub is_utf8 : (r : R) (l : Bytes) → to_string r ≡ ok l → from_utf8_lossy l ≡ l
  pub prefix_fails :
      (r : R) (l front : Bytes) (c : ℕ) (rest : Bytes)
      → to_string r ≡ ok l
      → l ≡ front ++ c ∷ rest
      → is_nil front ≡ false
      → (e : String) × (from_str (from_utf8_lossy front) ≡ err e)

module _ {R : Type 0} (json : JsonLines R) where
  -- The records of the lines.
  abbrev pub Written : List R → List Bytes → Type 0
  Written [] [] = Unit
  Written [] (l ∷ ls) = ⊥
  Written (r ∷ rs) [] = ⊥
  Written (r ∷ rs) (l ∷ ls) = (json.to_string r ≡ ok l) × Written rs ls

  pub Written-lines : (rs : List R) (ls : List Bytes) → Written rs ls → All IsLine ls
  Written-lines [] [] w = tt
  Written-lines [] (l ∷ ls) w = absurd w
  Written-lines (r ∷ rs) [] w = absurd w
  Written-lines (r ∷ rs) (l ∷ ls) w = (json.one_line r l w.0, Written-lines rs ls w.1)

  pub Written-utf8 :
      (rs : List R) (ls : List Bytes) → Written rs ls → All (λ l. from_utf8_lossy l ≡ l) ls
  Written-utf8 [] [] w = tt
  Written-utf8 [] (l ∷ ls) w = absurd w
  Written-utf8 (r ∷ rs) [] w = absurd w
  Written-utf8 (r ∷ rs) (l ∷ ls) w = (json.is_utf8 r l w.0, Written-utf8 rs ls w.1)
