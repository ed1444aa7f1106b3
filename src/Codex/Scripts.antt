-- ===== src/Codex/Scripts.antt =====
-- crates/codex/src/fuzzy.rs: the result of `levenshtein` is the least number of edits of single
-- characters.
use kaleidoscope.Prelude.{
  ℕ, ◌+◌, ◌≤◌, ◌≡◌, refl, sym, ap, ◌∙◌, subst, [], ◌∷◌, ◌++◌, arith, length, nat_beq, nat_beq_iff,
  ◌⊎◌, inl, inr, Bool-cases,
}
use Prim.Native.Nat.{min}
use mathlib.Core.List.{append_assoc}
use kaleidoscope.Codex.Fuzzy.{Chars, cost, levenshtein}
use kaleidoscope.Codex.Distance.{column, edit, reverse_onto, levenshtein-edit}

-- A way from one text to another, read from the left: characters are kept, replaced, deleted and
-- inserted, and all but the first are counted.
pub data Script : Chars → Chars → ℕ → Type 0 where
  start : Script [] [] 0
  keep : (c : ℕ) (a b : Chars) (n : ℕ) → Script a b n → Script (a ++ c ∷ []) (b ++ c ∷ []) n
  replace :
      (c d : ℕ) (a b : Chars) (n : ℕ) → Script a b n → Script (a ++ c ∷ []) (b ++ d ∷ []) (n + 1)
  delete : (c : ℕ) (a b : Chars) (n : ℕ) → Script a b n → Script (a ++ c ∷ []) b (n + 1)
  insert : (d : ℕ) (a b : Chars) (n : ℕ) → Script a b n → Script a (b ++ d ∷ []) (n + 1)

reverse_onto-snoc :
    (a done : Chars) (c : ℕ) → reverse_onto (a ++ c ∷ []) done ≡ c ∷ reverse_onto a done
unfolding reverse_onto
reverse_onto-snoc [] done c = refl
reverse_onto-snoc (x ∷ a) done c = reverse_onto-snoc a (x ∷ done) c

-- No single step of a script beats the distance.
edit-kept : (c : ℕ) (a b : Chars) → edit (c ∷ a) (c ∷ b) ≤ edit a b
unfolding edit column
edit-kept c a b = ground (arith, nat_beq_iff c c)

edit-replaced : (c d : ℕ) (a b : Chars) → edit (c ∷ a) (d ∷ b) ≤ edit a b + 1
unfolding edit column
edit-replaced c d a b = ground arith

edit-deleted : (c : ℕ) (a b : Chars) → edit (c ∷ a) b ≤ edit a b + 1
unfolding edit column
edit-deleted c a [] = omega arith
edit-deleted c a (d ∷ b) = ground arith

edit-inserted : (d : ℕ) (a b : Chars) → edit a (d ∷ b) ≤ edit a b + 1
unfolding edit column
edit-inserted d [] b = omega arith
edit-inserted d (c ∷ a) b = ground arith

least : (a b : Chars) (n : ℕ) → Script a b n → edit (reverse_onto a []) (reverse_onto b []) ≤ n
least a b n start = unfold edit in unfold reverse_onto in omega arith
least _ _ n (keep c a b m s) =
    rw (reverse_onto-snoc a [] c, reverse_onto-snoc b [] c)
      (omega (arith, edit-kept c (reverse_onto a []) (reverse_onto b []), least a b m s))
least _ _ n (replace c d a b m s) =
    rw (reverse_onto-snoc a [] c, reverse_onto-snoc b [] d)
      (omega (arith, edit-replaced c d (reverse_onto a []) (reverse_onto b []), least a b m s))
least _ _ n (delete c a b m s) =
    rw (reverse_onto-snoc a [] c)
      (omega (arith, edit-deleted c (reverse_onto a []) (reverse_onto b []), least a b m s))
least _ _ n (insert d a b m s) =
    rw (reverse_onto-snoc b [] d)
      (omega (arith, edit-inserted d (reverse_onto a []) (reverse_onto b []), least a b m s))

reverse_onto-append : (a done : Chars) → reverse_onto a done ≡ reverse_onto a [] ++ done
unfolding reverse_onto
reverse_onto-append [] done = refl
reverse_onto-append (x ∷ a) done =
    reverse_onto-append a (x ∷ done)
    ∙ sym (append_assoc (reverse_onto a []) (x ∷ []) done)
    ∙ ap (λ front. front ++ done) (sym (reverse_onto-append a (x ∷ [])))

last_first : (x : ℕ) (a : Chars) → reverse_onto a [] ++ x ∷ [] ≡ reverse_onto (x ∷ a) []
unfolding reverse_onto
last_first x a = sym (reverse_onto-append a (x ∷ []))

reverse_twice : (a : Chars) → reverse_onto (reverse_onto a []) [] ≡ a
reverse_twice [] = unfold reverse_onto in refl
reverse_twice (x ∷ a) =
    ap (λ l. reverse_onto l []) (sym (last_first x a))
    ∙ reverse_onto-snoc (reverse_onto a []) [] x
    ∙ ap (λ l. x ∷ l) (reverse_twice a)

-- A script between lists whose last character comes first.
abbrev Between : Chars → Chars → ℕ → Type 0
Between a b n = Script (reverse_onto a []) (reverse_onto b []) n

deleted : (x : ℕ) (a b : Chars) (n : ℕ) → Between a b n → Between (x ∷ a) b (n + 1)
deleted x a b n s =
    subst (λ l. Script l (reverse_onto b []) (n + 1)) (last_first x a)
      (delete x (reverse_onto a []) (reverse_onto b []) n s)

inserted : (y : ℕ) (a b : Chars) (n : ℕ) → Between a b n → Between a (y ∷ b) (n + 1)
inserted y a b n s =
    subst (λ l. Script (reverse_onto a []) l (n + 1)) (last_first y b)
      (insert y (reverse_onto a []) (reverse_onto b []) n s)

paired : (x y : ℕ) (a b : Chars) (n : ℕ) → Between a b n → Between (x ∷ a) (y ∷ b) (n + cost x y)
paired x y a b n s = elim (Bool-cases (nat_beq x y)) [
  | inl e ↦
      let same : x ≡ y = (nat_beq_iff x y).0 e in
      let kept : Script (reverse_onto (x ∷ a) []) (reverse_onto (x ∷ b) []) n =
        subst (λ l. Script l (reverse_onto (x ∷ b) []) n) (last_first x a)
          (subst (λ l. Script (reverse_onto a [] ++ x ∷ []) l n) (last_first x b)
            (keep x (reverse_onto a []) (reverse_onto b []) n s)) in
      subst (λ m. Between (x ∷ a) (y ∷ b) m) (rw e (omega arith))
        (subst (λ z. Between (x ∷ a) (z ∷ b) n) same kept)
  | inr e ↦
      subst (λ m. Between (x ∷ a) (y ∷ b) m) (rw e refl)
        (subst (λ l. Script l (reverse_onto (y ∷ b) []) (n + 1)) (last_first x a)
          (subst (λ l. Script (reverse_onto a [] ++ x ∷ []) l (n + 1)) (last_first y b)
            (replace x y (reverse_onto a []) (reverse_onto b []) n s)))
]

one_of : (p q r : ℕ) → (min (min p q) r ≡ p) ⊎ ((min (min p q) r ≡ q) ⊎ (min (min p q) r ≡ r))
one_of p q r = ground arith

all_inserted : (b : Chars) → Between [] b (length b)
all_inserted [] = unfold reverse_onto in start
all_inserted (y ∷ b) =
    subst (λ m. Between [] (y ∷ b) m) (let e : length b + 1 ≡ length (y ∷ b) = omega arith in e)
      (inserted y [] b (length b) (all_inserted b))

column_attained :
    (x : ℕ) (a : Chars) (f : Chars → ℕ)
    → ((b : Chars) → Between a b (f b))
    → (b : Chars) → Between (x ∷ a) b (column x f b)
unfolding column
column_attained x a f ih [] = deleted x a [] (f []) (ih [])
column_attained x a f ih (y ∷ b) =
    elim (one_of (f (y ∷ b) + 1) (column x f b + 1) (f b + cost x y)) [
      | inl e ↦
          subst (λ m. Between (x ∷ a) (y ∷ b) m) (sym e)
            (deleted x a (y ∷ b) (f (y ∷ b)) (ih (y ∷ b)))
      | inr (inl e) ↦
          subst (λ m. Between (x ∷ a) (y ∷ b) m) (sym e)
            (inserted y (x ∷ a) b (column x f b) (column_attained x a f ih b))
      | inr (inr e) ↦ subst (λ m. Between (x ∷ a) (y ∷ b) m) (sym e) (paired x y a b (f b) (ih b))
    ]

attained : (a b : Chars) → Between a b (edit a b)
unfolding edit
attained [] b = all_inserted b
attained (x ∷ a) b = column_attained x a (edit a) (attained a) b

-- The result is the number of edits of a script from the first text to the second, and no script has
-- fewer.
pub levenshtein-Script :
    (a b : Chars) → Script a b (levenshtein a b) × ((n : ℕ) → Script a b n → levenshtein a b ≤ n)
levenshtein-Script a b =
    let is : levenshtein a b ≡ edit (reverse_onto a []) (reverse_onto b []) =
      levenshtein-edit a b in
    (
      subst (λ l. Script l b (levenshtein a b)) (reverse_twice a)
          (subst (λ l. Script (reverse_onto (reverse_onto a []) []) l (levenshtein a b))
            (reverse_twice b)
            (subst (λ m. Between (reverse_onto a []) (reverse_onto b []) m) (sym is)
              (attained (reverse_onto a []) (reverse_onto b [])))),
      (λ n s. omega (arith, is, least a b n s)),
    )
