-- ===== src/Codex/Fuzzy.antt =====
-- `levenshtein` of crates/codex/src/fuzzy.rs, with its two rows. A string is the list of its `char`s.
use kaleidoscope.Prelude.{ℕ, zero, suc, ◌+◌, List, [], ◌∷◌, length, nat_beq, if◌then◌else◌}
use Prim.Native.Nat.{min}

abbrev pub Chars : Type 0
Chars = List ℕ

-- `if a_chars[i - 1] == b_chars[j - 1] { 0 } else { 1 }`
abbrev pub cost : ℕ → ℕ → ℕ
cost a b = if nat_beq a b then 0 else 1

-- The loop over `j`: `left` is the cell before, the row above starts at the cell before too. A row that
-- is too short does not occur.
unfoldable pub next_cells : ℕ → Chars → ℕ → List ℕ → List ℕ
next_cells a [] left prev = []
next_cells a (b ∷ bs) left [] = []
next_cells a (b ∷ bs) left (diagonal ∷ []) = []
next_cells a (b ∷ bs) left (diagonal ∷ up ∷ prev) =
    let cell = min (min (up + 1) (left + 1)) (diagonal + cost a b) in
    cell ∷ next_cells a bs cell (up ∷ prev)

-- The loop over `i`, with the rows swapped after every step.
unfoldable pub rows : ℕ → Chars → Chars → List ℕ → List ℕ
unfolding next_cells
rows i [] b prev = prev
rows i (a ∷ a_rest) b prev = rows (i + 1) a_rest b (i ∷ next_cells a b i prev)

-- `(from..=from + n).collect()`
unfoldable pub range : ℕ → ℕ → List ℕ
range from zero = from ∷ []
range from (suc n) = from ∷ range (from + 1) n

-- `row[j]`, which is in range.
unfoldable pub cell_at : List ℕ → ℕ → ℕ
cell_at [] j = 0
cell_at (x ∷ row) zero = x
cell_at (x ∷ row) (suc j) = cell_at row j

unfoldable pub levenshtein : Chars → Chars → ℕ
unfolding rows range cell_at
levenshtein [] b = length b
levenshtein (x ∷ a) [] = length (x ∷ a)
levenshtein (x ∷ a) (y ∷ b) =
    cell_at (rows 1 (x ∷ a) (y ∷ b) (range 0 (length (y ∷ b)))) (length (y ∷ b))
