-- ===== src/Codex/Distance.antt =====
-- crates/codex/src/fuzzy.rs: the two rows against the recursive definition of the distance.
use kaleidoscope.Prelude.{ℕ, ◌+◌, ◌≡◌, refl, ap, ◌∙◌, List, [], ◌∷◌, arith, length}
use Prim.Native.Nat.{min}
use kaleidoscope.Codex.Fuzzy.{Chars, cost, next_cells, rows, range, cell_at, levenshtein}

-- The distance of one more character to a list, from the distances `f` without it.
unfoldable pub column : ℕ → (Chars → ℕ) → Chars → ℕ
column x f [] = f [] + 1
column x f (y ∷ ys) = min (min (f (y ∷ ys) + 1) (column x f ys + 1)) (f ys + cost x y)

-- The distance of two lists of characters, the last one first.
unfoldable pub edit : Chars → Chars → ℕ
edit [] = length
edit (x ∷ xs) = column x (edit xs)

unfoldable pub reverse_onto : Chars → Chars → Chars
reverse_onto [] done = done
reverse_onto (x ∷ xs) done = reverse_onto xs (x ∷ done)

-- The cells of a row after the one for `done`.
unfoldable row : (Chars → ℕ) → Chars → Chars → List ℕ
row f done [] = []
row f done (b ∷ bs) = f (b ∷ done) ∷ row f (b ∷ done) bs

next_cells-row :
    (x : ℕ) (f : Chars → ℕ) (bs done : Chars)
    → next_cells x bs (column x f done) (f done ∷ row f done bs) ≡ row (column x f) done bs
unfolding next_cells row column
next_cells-row x f [] done = refl
next_cells-row x f (b ∷ bs) done =
    ap (λ cells. column x f (b ∷ done) ∷ cells) (next_cells-row x f bs (b ∷ done))

edit_nothing : (xs : Chars) → edit xs [] ≡ length xs
unfolding edit column
edit_nothing [] = refl
edit_nothing (x ∷ xs) = omega (arith, edit_nothing xs)

next_cells-edit :
    (a : ℕ) (b done : Chars)
    → next_cells a b (edit (a ∷ done) []) (edit done [] ∷ row (edit done) [] b)
      ≡ row (edit (a ∷ done)) [] b
unfolding edit
next_cells-edit a b done = next_cells-row a (edit done) b []

corner : (a : ℕ) (done : Chars) (i : ℕ) → i ≡ length done + 1 → i ≡ edit (a ∷ done) []
unfolding edit column
corner a done i e = omega (arith, e, edit_nothing done)

rows-row :
    (a_rest b done : Chars) (i : ℕ)
    → i ≡ length done + 1
    → rows i a_rest b (edit done [] ∷ row (edit done) [] b)
      ≡ edit (reverse_onto a_rest done) [] ∷ row (edit (reverse_onto a_rest done)) [] b
unfolding rows reverse_onto
rows-row [] b done i e = refl
rows-row (a ∷ a_rest) b done i e =
    ap (λ c. rows (i + 1) a_rest b (c ∷ next_cells a b c (edit done [] ∷ row (edit done) [] b)))
      (corner a done i e)
    ∙ ap (λ cells. rows (i + 1) a_rest b (edit (a ∷ done) [] ∷ cells)) (next_cells-edit a b done)
    ∙ rows-row a_rest b (a ∷ done) (i + 1) (omega (arith, e))

range-row : (b done : Chars) → range (length done) (length b) ≡ length done ∷ row length done b
unfolding range row
range-row [] done = refl
range-row (y ∷ b) done =
    ap (λ cells. length done ∷ cells)
      (ap (λ from. range from (length b))
          (let e : length done + 1 ≡ length (y ∷ done) = omega arith in e)
        ∙ range-row b (y ∷ done))

cell_at-row :
    (f : Chars → ℕ) (b done : Chars)
    → cell_at (f done ∷ row f done b) (length b) ≡ f (reverse_onto b done)
unfolding cell_at row reverse_onto
cell_at-row f [] done = refl
cell_at-row f (y ∷ b) done = cell_at-row f b (y ∷ done)

reverse_onto-length : (xs done : Chars) → length (reverse_onto xs done) ≡ length xs + length done
unfolding reverse_onto
reverse_onto-length [] done = omega arith
reverse_onto-length (x ∷ xs) done = omega (arith, reverse_onto-length xs (x ∷ done))

first_row : (b : Chars) → range 0 (length b) ≡ edit [] [] ∷ row (edit []) [] b
unfolding edit
first_row b = range-row b []

pub levenshtein-edit :
    (a b : Chars) → levenshtein a b ≡ edit (reverse_onto a []) (reverse_onto b [])
unfolding levenshtein edit reverse_onto
levenshtein-edit [] b = omega (arith, reverse_onto-length b [])
levenshtein-edit (x ∷ a) [] =
    omega (arith, reverse_onto-length (x ∷ a) [], edit_nothing (reverse_onto (x ∷ a) []))
levenshtein-edit (x ∷ a) (y ∷ b) =
    ap (λ r. cell_at (rows 1 (x ∷ a) (y ∷ b) r) (length (y ∷ b))) (first_row (y ∷ b))
    ∙ ap (λ r. cell_at r (length (y ∷ b))) (rows-row (x ∷ a) (y ∷ b) [] 1 refl)
    ∙ cell_at-row (edit (reverse_onto (x ∷ a) [])) (y ∷ b) []
