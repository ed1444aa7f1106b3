-- ===== src/Codex/Nearest.antt =====
-- `nearest_blessed_match` of crates/codex/src/fuzzy.rs: the suggestion for a name.
use kaleidoscope.Prelude.{
  ℕ, ◌≤◌, ◌<◌, ◌≡◌, refl, Bool, true, false, Option, none, some, List, [], ◌∷◌, arith, ltb, leb,
  nat_beq, if◌then◌else◌, ◌&&◌, ◌||◌, All, ◌⊎◌, inl, inr, sym, ap, subst, ◌∙◌, Bool-cases, leb→le,
  leb→gt,
}
use kaleidoscope.Codex.Fuzzy.{Chars, levenshtein}

pub data BlessedAttribute : Type 0 where
  exact : Chars → BlessedAttribute
  prefix : Chars → BlessedAttribute

unfoldable pub blessed_name : BlessedAttribute → Chars
blessed_name (exact blessed) = blessed
blessed_name (prefix blessed) = blessed

abbrev pub threshold : ℕ
threshold = 2

-- `left_name <= right_name`, by characters.
unfoldable pub name_le : Chars → Chars → Bool
name_le [] b = true
name_le (x ∷ a) [] = false
name_le (x ∷ a) (y ∷ b) = ltb x y || (nat_beq x y && name_le a b)

-- A candidate and its distance.
abbrev pub Candidate : Type 0
Candidate = Chars × ℕ

-- Whether the comparison of the two is not `Greater`.
unfoldable pub not_greater : Candidate → Candidate → Bool
unfolding name_le
not_greater a b = ltb a.1 b.1 || (nat_beq a.1 b.1 && name_le a.0 b.0)

-- `min_by`: the first of the least.
unfoldable pub lesser : Candidate → Candidate → Candidate
unfolding not_greater
lesser best c = if not_greater best c then best else c

unfoldable pub min_from : Candidate → List Candidate → Candidate
unfolding lesser
min_from best [] = best
min_from best (c ∷ cs) = min_from (lesser best c) cs

unfoldable pub candidates : Chars → List BlessedAttribute → List Candidate
unfolding blessed_name
candidates attribute_name [] = []
candidates attribute_name (entry ∷ catalogue) =
    (blessed_name entry, levenshtein attribute_name (blessed_name entry))
    ∷ candidates attribute_name catalogue

unfoldable pub within : Candidate → Option Chars
within (name, distance) = if leb distance threshold then some name else none

unfoldable pub nearest_in : List Candidate → Option Chars
unfolding min_from within
nearest_in [] = none
nearest_in (c ∷ cs) = within (min_from c cs)

unfoldable pub nearest_blessed_match : Chars → List BlessedAttribute → Option Chars
unfolding nearest_in candidates
nearest_blessed_match attribute_name catalogue = nearest_in (candidates attribute_name catalogue)

-- The name of an entry of a catalogue.
abbrev pub IsBlessed : Chars → List BlessedAttribute → Type 0
IsBlessed name [] = ⊥
IsBlessed name (entry ∷ catalogue) = (blessed_name entry ≡ name) ⊎ IsBlessed name catalogue

-- What an answer says of a catalogue.
abbrev pub IsAnswer : Chars → List BlessedAttribute → Option Chars → Type 0
IsAnswer attribute_name catalogue none =
    All (λ entry. threshold < levenshtein attribute_name (blessed_name entry)) catalogue
IsAnswer attribute_name catalogue (some name) =
    IsBlessed name catalogue
    × (levenshtein attribute_name name ≤ threshold)
    × All
        (λ entry. levenshtein attribute_name name ≤ levenshtein attribute_name (blessed_name entry))
        catalogue

better : (a b : Candidate) → not_greater a b ≡ true → a.1 ≤ b.1
unfolding not_greater
better a b h = ground arith

worse : (a b : Candidate) → not_greater a b ≡ false → b.1 ≤ a.1
unfolding not_greater
worse a b h = ground arith

lesser-cases :
    (a b : Candidate) → ((lesser a b ≡ a) × (a.1 ≤ b.1)) ⊎ ((lesser a b ≡ b) × (b.1 ≤ a.1))
unfolding lesser
lesser-cases a b = elim (Bool-cases (not_greater a b)) [
  | inl e ↦ inl (ap (λ t. if t then a else b) e, better a b e)
  | inr e ↦ inr (ap (λ t. if t then a else b) e, worse a b e)
]

-- The least of the candidates: one of them, and no other has a smaller distance.
record Least (attribute_name : Chars) (first best : Candidate) (catalogue : List BlessedAttribute)
    : Type 0 where
  is_one :
      (best ≡ first) ⊎ (IsBlessed best.0 catalogue × (best.1 ≡ levenshtein attribute_name best.0))
  no_worse : best.1 ≤ first.1
  no_better : All (λ entry. best.1 ≤ levenshtein attribute_name (blessed_name entry)) catalogue

-- The least of a tail or the entry before it is an entry of the whole, with its distance.
found :
    (attribute_name : Chars) (entry : BlessedAttribute) (catalogue : List BlessedAttribute)
    (best : Candidate)
    → (best ≡ (blessed_name entry, levenshtein attribute_name (blessed_name entry)))
      ⊎ (IsBlessed best.0 catalogue × (best.1 ≡ levenshtein attribute_name best.0))
    → IsBlessed best.0 (entry ∷ catalogue) × (best.1 ≡ levenshtein attribute_name best.0)
found attribute_name entry catalogue best (inl e) = (
  inl (sym (ap (λ c. c.0) e)),
  ap (λ c. c.1) e ∙ ap (levenshtein attribute_name) (sym (ap (λ c. c.0) e)),
)
found attribute_name entry catalogue best (inr (m, d)) = (inr m, d)

min_from-Least :
    (attribute_name : Chars) (first : Candidate) (catalogue : List BlessedAttribute)
    → Least attribute_name first (min_from first (candidates attribute_name catalogue)) catalogue
unfolding min_from candidates blessed_name
min_from-Least attribute_name first [] = record {
  is_one = inl refl;
  no_worse = omega arith;
  no_better = tt;
}
min_from-Least attribute_name first (entry ∷ catalogue) = elim (lesser-cases first here) [
  | inl (e, le) ↦
      let rest = min_from-Least attribute_name first catalogue in
      subst
        (λ c.
          Least attribute_name first (min_from c (candidates attribute_name catalogue))
            (entry ∷ catalogue))
        (sym e)
        (record {
          is_one = later (min_from first (candidates attribute_name catalogue)) rest.is_one;
          no_worse = rest.no_worse;
          no_better = (omega (arith, le, rest.no_worse), rest.no_better);
        })
  | inr (e, le) ↦
      let rest = min_from-Least attribute_name here catalogue in
      subst
        (λ c.
          Least attribute_name first (min_from c (candidates attribute_name catalogue))
            (entry ∷ catalogue))
        (sym e)
        (record {
          is_one = inr (
              found attribute_name entry catalogue
                (min_from here (candidates attribute_name catalogue)) rest.is_one);
          no_worse = omega (arith, le, rest.no_worse);
          no_better = (rest.no_worse, rest.no_better);
        })
]
  where
    here : Candidate
    here = (blessed_name entry, levenshtein attribute_name (blessed_name entry))

    later :
        (best : Candidate)
        → (best ≡ first)
          ⊎ (IsBlessed best.0 catalogue × (best.1 ≡ levenshtein attribute_name best.0))
        → (best ≡ first)
          ⊎ (IsBlessed best.0 (entry ∷ catalogue) × (best.1 ≡ levenshtein attribute_name best.0))
    later best (inl e) = inl e
    later best (inr (m, d)) = inr (inr m, d)

weaken-All :
    {P Q : BlessedAttribute → Type 0} (weaken : (entry : BlessedAttribute) → P entry → Q entry)
    (catalogue : List BlessedAttribute)
    → All P catalogue
    → All Q catalogue
weaken-All weaken [] all = tt
weaken-All weaken (entry ∷ catalogue) (p, all) = (weaken entry p, weaken-All weaken catalogue all)

within-IsAnswer :
    (attribute_name : Chars) (entry : BlessedAttribute) (catalogue : List BlessedAttribute)
    (best : Candidate)
    → Least attribute_name
        (blessed_name entry, levenshtein attribute_name (blessed_name entry))
        best
        catalogue
    → IsAnswer attribute_name (entry ∷ catalogue) (within best)
unfolding within
within-IsAnswer attribute_name entry catalogue best least =
    let (m, d) = found attribute_name entry catalogue best least.is_one in
    elim (Bool-cases (leb best.1 threshold)) [
      | inl e ↦ rw e (
        m,
        omega (arith, leb→le best.1 threshold e, d),
        weaken-All (λ other le. omega (arith, le, d)) (entry ∷ catalogue)
            (least.no_worse, least.no_better),
      )
      | inr e ↦ rw e (
          weaken-All (λ other le. omega (arith, le, leb→gt best.1 threshold e)) (entry ∷ catalogue)
            (least.no_worse, least.no_better))
    ]

-- The suggestion for a name is a name of the catalogue at distance two or less, and no name of the catalogue is nearer;
-- when there is no suggestion, every name of the catalogue is further than two edits away.
pub nearest_blessed_match-IsAnswer :
    (attribute_name : Chars) (catalogue : List BlessedAttribute)
    → IsAnswer attribute_name catalogue (nearest_blessed_match attribute_name catalogue)
unfolding nearest_blessed_match candidates nearest_in
nearest_blessed_match-IsAnswer attribute_name [] = tt
nearest_blessed_match-IsAnswer attribute_name (entry ∷ catalogue) =
    within-IsAnswer attribute_name entry catalogue _ (
      min_from-Least attribute_name
        (blessed_name entry, levenshtein attribute_name (blessed_name entry)) catalogue)
