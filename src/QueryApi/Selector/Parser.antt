-- ===== src/QueryApi/Selector/Parser.antt =====
-- crates/query-api/src/selector.rs: the parser of a selector. A `Peekable<Chars>` is the list of the
-- characters that are left, which every reader returns. `parse_matcher_list` takes fuel.
use kaleidoscope.Prelude.{
  is_nil, is_whitespace, trim, ℕ, zero, suc, Bool, true, false, Option, none, some, List, [], ◌∷◌,
  ◌++◌, nat_beq, if◌then◌else◌, ◌&&◌, Result, ok, err, ◌>>=◌, length,
}
use kaleidoscope.QueryApi.Selector.Characters.{
  Chars, is_ascii_whitespace, is_name_start, is_name_continue, is_label_name_continue,
}

pub data MatchOp : Type 0 where
  equal : MatchOp
  not_equal : MatchOp
  matches : MatchOp
  not_matches : MatchOp

pub record LabelMatcher : Type 0 where
  pub name : Chars
  pub op : MatchOp
  pub value : Chars

pub record Selector : Type 0 where
  pub name : Chars
  pub matchers : List LabelMatcher

-- The reasons, one for each text.
pub data ParseError : Type 0 where
  expected_name : ParseError
  unsupported : ParseError
  section_not_closed : ParseError
  unrecognised_syntax : ParseError
  missing_label_name : ParseError
  not_quoted : ParseError
  literal_not_closed : ParseError
  bad_escape : ParseError

-- What a reader returns: its value and the characters that are left.
abbrev pub Parsed : Type 0 → Type 0
Parsed A = Result (A × Chars) ParseError

unfoldable pub skip_whitespace : Chars → Chars
unfolding is_ascii_whitespace
skip_whitespace [] = []
skip_whitespace (c ∷ cs) = if is_ascii_whitespace c then skip_whitespace cs else c ∷ cs

-- The loop of `read_label_name`.
unfoldable pub read_continue : Chars → Chars → Chars × Chars
unfolding is_label_name_continue
read_continue name [] = (name, [])
read_continue name (c ∷ cs) =
    let rest = read_continue (name ++ c ∷ []) cs in
    if is_label_name_continue c then rest else (name, c ∷ cs)

unfoldable pub read_label_name : Chars → Parsed Chars
unfolding is_name_start read_continue
read_label_name [] = err missing_label_name
read_label_name (c ∷ cs) =
    if is_name_start c then ok (read_continue (c ∷ []) cs) else err missing_label_name

-- `chars.next()` if the next character is `~`.
unfoldable pub after_equals : Chars → Parsed MatchOp
after_equals [] = ok (equal, [])
after_equals (c ∷ cs) = if nat_beq c b'~' then ok (matches, cs) else ok (equal, c ∷ cs)

unfoldable pub after_not_equals : Chars → Parsed MatchOp
after_not_equals [] = ok (not_equal, [])
after_not_equals (c ∷ cs) =
    if nat_beq c b'~' then err unrecognised_syntax else ok (not_equal, c ∷ cs)

unfoldable pub after_bang : Chars → Parsed MatchOp
unfolding after_not_equals
after_bang [] = err unrecognised_syntax
after_bang (c ∷ cs) =
    if nat_beq c b'~'
    then ok (not_matches, cs)
    else if nat_beq c b'='
    then after_not_equals cs
    else err unrecognised_syntax

unfoldable pub read_operator : Chars → Parsed MatchOp
unfolding after_equals after_bang
read_operator [] = err unrecognised_syntax
read_operator (c ∷ cs) =
    if nat_beq c b'='
    then after_equals cs
    else if nat_beq c b'!'
    then after_bang cs
    else err unrecognised_syntax

-- The character that an escape stands for.
unfoldable pub unescape : ℕ → Result ℕ ParseError
unescape c =
    if nat_beq c b'"'
    then ok b'"'
    else if nat_beq c b'\\'
    then ok b'\\'
    else if nat_beq c b'n'
    then ok 10
    else if nat_beq c b't'
    then ok 9
    else err bad_escape

-- The loop of `read_string_literal`.
unfoldable pub read_characters : Chars → Chars → Parsed Chars
unfolding unescape
read_characters value [] = err literal_not_closed
read_characters value (c ∷ []) =
    if nat_beq c b'"'
    then ok (value, [])
    else if nat_beq c b'\\'
    then err bad_escape
    else err literal_not_closed
read_characters value (c ∷ d ∷ cs) =
    let escaped = unescape d >>= λ e. read_characters (value ++ e ∷ []) cs in
    let plain = read_characters (value ++ c ∷ []) (d ∷ cs) in
    if nat_beq c b'"' then ok (value, d ∷ cs) else if nat_beq c b'\\' then escaped else plain

unfoldable pub read_string_literal : Chars → Parsed Chars
unfolding read_characters
read_string_literal [] = err not_quoted
read_string_literal (c ∷ cs) = if nat_beq c b'"' then read_characters [] cs else err not_quoted

unfoldable pub parse_matcher : Chars → Parsed LabelMatcher
unfolding read_label_name skip_whitespace read_operator read_string_literal
parse_matcher cs = do
  (label, cs1) ← read_label_name cs
  (operator, cs2) ← read_operator (skip_whitespace cs1)
  (literal, cs3) ← read_string_literal (skip_whitespace cs2)
  ok (record { name = label; op = operator; value = literal }, cs3)

-- What the loop does behind a matcher: it returns, reads a comma and goes on, or fails.
unfoldable pub after_matcher {ℓ} : {A : Type ℓ} → Chars → A → (Chars → A) → A → A
after_matcher [] done more junk = done
after_matcher (c ∷ cs) done more junk = if nat_beq c b',' then more cs else junk

abbrev pub Matchers : Type 0
Matchers = Option (Result (List LabelMatcher) ParseError)

-- The rest of a round, by what `parse_matcher` gives.
unfoldable pub after_parse :
    Parsed LabelMatcher → List LabelMatcher → (Chars → List LabelMatcher → Matchers) → Matchers
after_parse (err e) matchers loop = some (err e)
after_parse (ok (matcher, rest)) matchers loop =
    after_matcher (skip_whitespace rest) (some (ok (matchers ++ matcher ∷ [])))
      (λ next. loop next (matchers ++ matcher ∷ [])) (some (err unrecognised_syntax))

-- The loop; `none` means that the fuel ran out.
unfoldable pub matcher_loop : ℕ → Chars → List LabelMatcher → Matchers
matcher_loop zero cs matchers = none
matcher_loop (suc fuel) cs matchers =
    if is_nil (skip_whitespace cs)
    then some (ok matchers)
    else after_parse (parse_matcher (skip_whitespace cs)) matchers (matcher_loop fuel)

-- Each round reads a character at least.
unfoldable pub parse_matcher_list : Chars → Matchers
parse_matcher_list inner = matcher_loop (suc (length inner)) inner []

unfoldable pub behind : ℕ → Option (Chars × Chars) → Option (Chars × Chars)
behind c none = none
behind c (some (a, b)) = some (c ∷ a, b)

-- `trimmed.find('{')`: the text before the brace and the text after it.
unfoldable pub find_open : Chars → Option (Chars × Chars)
unfolding behind
find_open [] = none
find_open (c ∷ cs) = if nat_beq c b'{' then some ([], cs) else behind c (find_open cs)

unfoldable pub ends_with_close : Chars → Bool
ends_with_close [] = false
ends_with_close (c ∷ []) = nat_beq c b'}'
ends_with_close (c ∷ d ∷ cs) = ends_with_close (d ∷ cs)

-- The text without its last character.
unfoldable pub drop_last : Chars → Chars
drop_last [] = []
drop_last (c ∷ []) = []
drop_last (c ∷ d ∷ cs) = c ∷ drop_last (d ∷ cs)

-- The cases of `split_at_brace`, by what `find` gives.
unfoldable pub split_found :
    Chars → Option (Chars × Chars) → Result (Chars × Option Chars) ParseError
split_found trimmed none = ok (trimmed, none)
split_found trimmed (some (name_part, rest)) =
    if ends_with_close trimmed
    then ok (name_part, some (drop_last rest))
    else err section_not_closed

unfoldable pub split_at_brace : Chars → Result (Chars × Option Chars) ParseError
unfolding split_found
split_at_brace trimmed = split_found trimmed (find_open trimmed)

unfoldable pub all_continue : Chars → Bool
unfolding is_name_continue
all_continue [] = true
all_continue (c ∷ cs) = is_name_continue c && all_continue cs

unfoldable pub is_bare_metric_name : Chars → Bool
unfolding is_name_start all_continue
is_bare_metric_name [] = false
is_bare_metric_name (c ∷ cs) = is_name_start c && all_continue cs

unfoldable pub parse_braces : Option Chars → Matchers
parse_braces none = some (ok [])
parse_braces (some inner) = parse_matcher_list inner

-- The selector of a name and the outcome of its matchers.
unfoldable pub with_matchers : Chars → Matchers → Option (Result Selector ParseError)
with_matchers name none = none
with_matchers name (some (err e)) = some (err e)
with_matchers name (some (ok matchers)) = some (ok (record { name = name; matchers = matchers }))

-- The cases of `parse`, by what `split_at_brace` gives.
unfoldable pub parse_parts :
    Result (Chars × Option Chars) ParseError → Option (Result Selector ParseError)
parse_parts (err e) = some (err e)
parse_parts (ok (name_part, brace_part)) =
    if is_bare_metric_name name_part
    then with_matchers name_part (parse_braces brace_part)
    else some (err unsupported)

unfoldable pub parse : Chars → Option (Result Selector ParseError)
unfolding parse_parts
parse raw =
    if is_nil (trim is_whitespace raw)
    then some (err expected_name)
    else parse_parts (split_at_brace (trim is_whitespace raw))
