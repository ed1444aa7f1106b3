-- ===== src/Codex/Examples.antt =====
-- crates/codex/src/fuzzy.rs at concrete words.
use kaleidoscope.Prelude.{ℕ, ◌≤◌, ◌≡◌, refl, List, some, [], ◌∷◌}
use kaleidoscope.Codex.Fuzzy.{Chars, levenshtein}
use kaleidoscope.Codex.Nearest.{
  BlessedAttribute, exact, prefix, nearest_blessed_match, IsAnswer, nearest_blessed_match-IsAnswer,
}
use kaleidoscope.Codex.Scripts.{Script, levenshtein-Script}

-- "kitten" and "smitten", by the places of the letters in the alphabet.
abbrev kitten : Chars
kitten = 11 ∷ 9 ∷ 20 ∷ 20 ∷ 5 ∷ 14 ∷ []

abbrev smitten : Chars
smitten = 19 ∷ 13 ∷ 9 ∷ 20 ∷ 20 ∷ 5 ∷ 14 ∷ []

two_edits : levenshtein kitten smitten ≡ 2
unfolding levenshtein
two_edits = refl

levenshtein-Script_example :
    Script kitten smitten (levenshtein kitten smitten)
    × ((n : ℕ) → Script kitten smitten n → levenshtein kitten smitten ≤ n)
levenshtein-Script_example = levenshtein-Script kitten smitten

abbrev sitten : Chars
sitten = 19 ∷ 9 ∷ 20 ∷ 20 ∷ 5 ∷ 14 ∷ []

abbrev corpus : List BlessedAttribute
corpus = exact kitten ∷ prefix smitten ∷ []

-- Both names are one edit away: the first in the order of names is suggested.
suggested : nearest_blessed_match sitten corpus ≡ some kitten
unfolding nearest_blessed_match levenshtein
suggested = refl

nearest_blessed_match-IsAnswer_example :
    IsAnswer sitten corpus (nearest_blessed_match sitten corpus)
nearest_blessed_match-IsAnswer_example = nearest_blessed_match-IsAnswer sitten corpus
