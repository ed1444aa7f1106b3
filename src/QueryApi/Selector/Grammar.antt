-- ===== src/QueryApi/Selector/Grammar.antt =====
-- crates/query-api/src/selector.rs: the grammar of its module comment, with the operators `=~` and `!~`
-- besides, as relations between what is read and the text.
use kaleidoscope.Prelude.{is_whitespace, ℕ, ◌≡◌, ◌≢◌, ◌⊎◌, true, List, [], ◌∷◌, ◌++◌, All}
use kaleidoscope.QueryApi.Selector.Characters.{
  Chars, is_ascii_whitespace, is_name_start, is_name_continue, is_label_name_continue,
}
use kaleidoscope.QueryApi.Selector.Parser.{
  MatchOp, equal, not_equal, matches, not_matches, LabelMatcher, Selector,
}

abbrev pub Spaces : Chars → Type 0
Spaces = All (λ c. is_ascii_whitespace c ≡ true)

abbrev pub Continues : Chars → Type 0
Continues = All (λ c. is_label_name_continue c ≡ true)

-- `[a-zA-Z_:][a-zA-Z0-9_:.]*`
abbrev pub IsLabelName : Chars → Type 0
IsLabelName [] = ⊥
IsLabelName (c ∷ cs) = (is_name_start c ≡ true) × Continues cs

-- `[a-zA-Z_:][a-zA-Z0-9_:]*`
abbrev pub IsMetricName : Chars → Type 0
IsMetricName [] = ⊥
IsMetricName (c ∷ cs) = (is_name_start c ≡ true) × All (λ d. is_name_continue d ≡ true) cs

abbrev pub op_text : MatchOp → Chars
op_text equal = b'=' ∷ []
op_text not_equal = b'!' ∷ b'=' ∷ []
op_text matches = b'=' ∷ b'~' ∷ []
op_text not_matches = b'!' ∷ b'~' ∷ []

-- The character behind a backslash, and the one that the escape stands for.
abbrev pub Escape : ℕ → ℕ → Type 0
Escape d e =
    ((d ≡ b'"') × (e ≡ b'"'))
    ⊎ ((d ≡ b'\\') × (e ≡ b'\\'))
    ⊎ ((d ≡ b'n') × (e ≡ 10))
    ⊎ ((d ≡ b't') × (e ≡ 9))

-- A value and its spelling between the quotes.
pub data Spells : Chars → Chars → Type 0 where
  nothing : Spells [] []
  plain :
      {c : ℕ} {value text : Chars}
      → c ≢ b'"'
      → c ≢ b'\\'
      → Spells value text
      → Spells (c ∷ value) (c ∷ text)
  escaped :
      {c d e : ℕ} {value text : Chars}
      → c ≡ b'\\'
      → Escape d e
      → Spells value text
      → Spells (e ∷ value) (c ∷ d ∷ text)

-- A matcher and its text.
pub record Writes (m : LabelMatcher) (text : Chars) : Type 0 where
  pub before_op : Chars
  pub after_op : Chars
  pub inside : Chars
  pub named : IsLabelName m.name
  pub spaces_before : Spaces before_op
  pub spaces_after : Spaces after_op
  pub spelled : Spells m.value inside
  pub written :
      text ≡ m.name ++ (before_op ++ (op_text m.op ++ (after_op ++ (b'"' ∷ (inside ++ b'"' ∷ [])))))

-- Matchers and the text between the braces: a comma between two matchers, and one more at the end if
-- there is a matcher.
pub data Lists : List LabelMatcher → Chars → Type 0 where
  nothing : {cs : Chars} → Spaces cs → Lists [] cs
  last :
      {m : LabelMatcher} {cs : Chars} (before text after : Chars)
      → Spaces before
      → Writes m text
      → Spaces after
      → cs ≡ before ++ (text ++ after)
      → Lists (m ∷ []) cs
  more :
      {m : LabelMatcher} {ms : List LabelMatcher} {cs : Chars} (before text after rest : Chars)
      → Spaces before
      → Writes m text
      → Spaces after
      → Lists ms rest
      → cs ≡ before ++ (text ++ (after ++ b',' ∷ rest))
      → Lists (m ∷ ms) cs

-- A selector and its text, trimmed.
pub data Denotes : Selector → Chars → Type 0 where
  bare :
      {s : Selector} {text : Chars}
      → IsMetricName s.name
      → s.matchers ≡ []
      → text ≡ s.name
      → Denotes s text
  braces :
      {s : Selector} {text : Chars} (inner : Chars)
      → IsMetricName s.name
      → Lists s.matchers inner
      → text ≡ s.name ++ b'{' ∷ (inner ++ b'}' ∷ [])
      → Denotes s text

-- A selector and a query.
pub record Selects (s : Selector) (raw : Chars) : Type 0 where
  pub before : Chars
  pub text : Chars
  pub after : Chars
  pub space_before : All (λ c. is_whitespace c ≡ true) before
  pub space_after : All (λ c. is_whitespace c ≡ true) after
  pub denotes : Denotes s text
  pub written : raw ≡ before ++ (text ++ after)
