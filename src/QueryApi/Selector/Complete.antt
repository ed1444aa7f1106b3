-- ===== src/QueryApi/Selector/Complete.antt =====
-- crates/query-api/src/selector.rs: the readers on the texts of the grammar.
use mathlib.Core.List.{append_assoc, append-nil}
use kaleidoscope.Prelude.{
  is_nil, ℕ, zero, suc, ◌<◌, ◌≤◌, ◌≡◌, ◌≢◌, refl, sym, ap, ◌∙◌, subst, true, false, some, List, [],
  ◌∷◌, ◌++◌, arith, ok, err, length, length-append,
}
use kaleidoscope.QueryApi.Selector.Characters.{
  Chars, is_ascii_whitespace, is_name_start, is_label_name_continue,
}
use kaleidoscope.QueryApi.Selector.Parser.{
  MatchOp, equal, not_equal, matches, not_matches, LabelMatcher, ParseError, skip_whitespace,
  read_continue, read_label_name, read_operator, unescape, read_characters, read_string_literal,
  parse_matcher, after_matcher, after_parse, matcher_loop,
}
use kaleidoscope.QueryApi.Selector.Grammar.{
  Spaces, Continues, IsLabelName, op_text, Escape, Spells, plain, escaped, Writes, Lists, last,
  more,
}

pub skip_whitespace-append :
    (ws cs : Chars) → Spaces ws → skip_whitespace (ws ++ cs) ≡ skip_whitespace cs
unfolding skip_whitespace
skip_whitespace-append [] cs h = refl
skip_whitespace-append (c ∷ ws) cs h = rw h.0 (skip_whitespace-append ws cs h.1)

-- A text whose first character is not white space.
abbrev pub Starts : Chars → Type 0
Starts [] = Unit
Starts (c ∷ cs) = is_ascii_whitespace c ≡ false

pub skip_whitespace-Starts :
    (ws cs : Chars) → Spaces ws → Starts cs → skip_whitespace (ws ++ cs) ≡ cs
unfolding skip_whitespace
skip_whitespace-Starts ws [] h s = skip_whitespace-append ws [] h
skip_whitespace-Starts ws (c ∷ cs) h s = skip_whitespace-append ws (c ∷ cs) h ∙ rw s

-- A text whose first character does not continue a label name.
abbrev pub EndsName : Chars → Type 0
EndsName [] = Unit
EndsName (c ∷ cs) = is_label_name_continue c ≡ false

read_continue-append :
    (name n cs : Chars) → Continues n → EndsName cs → read_continue name (n ++ cs) ≡ (name ++ n, cs)
unfolding read_continue
read_continue-append name [] [] h e = ap (λ l. (l, [])) (sym (append-nil name))
read_continue-append name [] (c ∷ cs) h e = rw e (ap (λ l. (l, c ∷ cs)) (sym (append-nil name)))
read_continue-append name (c ∷ n) cs h e = rw h.0 (
    read_continue-append (name ++ c ∷ []) n cs h.1 e
    ∙ ap (λ l. (l, cs)) (append_assoc name (c ∷ []) n))

pub read_label_name-append :
    (n cs : Chars) → IsLabelName n → EndsName cs → read_label_name (n ++ cs) ≡ ok (n, cs)
unfolding read_label_name
read_label_name-append [] cs h e = elim h [ ]
read_label_name-append (c ∷ n) cs h e = rw h.0 (ap ok (read_continue-append (c ∷ []) n cs h.1 e))

-- The operator and the quote behind it.
abbrev NotTilde : Chars → Type 0
NotTilde [] = Unit
NotTilde (c ∷ cs) = c ≢ b'~'

pub read_operator-append :
    (op : MatchOp) (cs : Chars) → NotTilde cs → read_operator (op_text op ++ cs) ≡ ok (op, cs)
unfolding read_operator
read_operator-append equal [] h = refl
read_operator-append equal (c ∷ cs) h = ground arith
read_operator-append not_equal [] h = refl
read_operator-append not_equal (c ∷ cs) h = ground arith
read_operator-append matches cs h = refl
read_operator-append not_matches cs h = refl

unescape-Escape : (d e : ℕ) → Escape d e → unescape d ≡ ok e
unfolding unescape
unescape-Escape d e h = ground arith

-- One round of the loop, at each kind of character.
pub read_plain :
    (acc : Chars) (c : ℕ) (cs : Chars)
    → c ≢ b'"'
    → c ≢ b'\\'
    → read_characters acc (c ∷ cs) ≡ read_characters (acc ++ c ∷ []) cs
unfolding read_characters
read_plain acc c [] p q = ground arith
read_plain acc c (d ∷ cs) p q = ground arith

pub read_escape :
    (acc : Chars) (c d e : ℕ) (cs : Chars)
    → c ≡ b'\\'
    → unescape d ≡ ok e
    → read_characters acc (c ∷ d ∷ cs) ≡ read_characters (acc ++ e ∷ []) cs
unfolding read_characters
read_escape acc c d e cs p q = ground arith

pub read_quote : (acc cs : Chars) → read_characters acc (b'"' ∷ cs) ≡ ok (acc, cs)
unfolding read_characters
read_quote acc [] = refl
read_quote acc (d ∷ cs) = refl

pub read_characters-append :
    (acc : Chars) {value text : Chars} (rest : Chars)
    → Spells value text
    → read_characters acc (text ++ b'"' ∷ rest) ≡ ok (acc ++ value, rest)
read_characters-append acc rest Spells.nothing =
    read_quote acc rest ∙ ap (λ l. ok (l, rest)) (sym (append-nil acc))
read_characters-append acc rest (plain {c} {value} {text} p q s) =
    read_plain acc c (text ++ b'"' ∷ rest) p q
    ∙ read_characters-append (acc ++ c ∷ []) rest s
    ∙ ap (λ l. ok (l, rest)) (append_assoc acc (c ∷ []) value)
read_characters-append acc rest (escaped {c} {d} {e} {value} {text} b h s) =
    read_escape acc c d e (text ++ b'"' ∷ rest) b (unescape-Escape d e h)
    ∙ read_characters-append (acc ++ e ∷ []) rest s
    ∙ ap (λ l. ok (l, rest)) (append_assoc acc (e ∷ []) value)

read_string_literal-append :
    {value text : Chars} (rest : Chars)
    → Spells value text
    → read_string_literal (b'"' ∷ (text ++ b'"' ∷ rest)) ≡ ok (value, rest)
unfolding read_string_literal
read_string_literal-append rest s = read_characters-append [] rest s

space_ends : (c : ℕ) → is_ascii_whitespace c ≡ true → is_label_name_continue c ≡ false
unfolding is_ascii_whitespace is_label_name_continue
space_ends c h = ground arith

spaces-EndsName : (ws cs : Chars) → Spaces ws → EndsName cs → EndsName (ws ++ cs)
spaces-EndsName [] cs h e = e
spaces-EndsName (c ∷ ws) cs h e = space_ends c h.0

op-EndsName : (op : MatchOp) (cs : Chars) → EndsName (op_text op ++ cs)
unfolding is_label_name_continue
op-EndsName equal cs = refl
op-EndsName not_equal cs = refl
op-EndsName matches cs = refl
op-EndsName not_matches cs = refl

op-Starts : (op : MatchOp) (cs : Chars) → Starts (op_text op ++ cs)
unfolding is_ascii_whitespace
op-Starts equal cs = refl
op-Starts not_equal cs = refl
op-Starts matches cs = refl
op-Starts not_matches cs = refl

space_not_tilde : (c : ℕ) → is_ascii_whitespace c ≡ true → c ≢ b'~'
unfolding is_ascii_whitespace
space_not_tilde c h = ground arith

spaces-NotTilde : (ws cs : Chars) → Spaces ws → NotTilde (ws ++ b'"' ∷ cs)
spaces-NotTilde [] cs h = ground arith
spaces-NotTilde (c ∷ ws) cs h = space_not_tilde c h.0

start_not_space : (c : ℕ) → is_name_start c ≡ true → is_ascii_whitespace c ≡ false
unfolding is_name_start is_ascii_whitespace
start_not_space c h = ground arith

name-Starts : (n cs : Chars) → IsLabelName n → Starts (n ++ cs)
name-Starts [] cs h = elim h [ ]
name-Starts (c ∷ n) cs h = start_not_space c h.0

name-not_nil : (n cs : Chars) → IsLabelName n → is_nil (n ++ cs) ≡ false
name-not_nil [] cs h = elim h [ ]
name-not_nil (c ∷ n) cs h = refl

quote-Starts : (cs : Chars) → Starts (b'"' ∷ cs)
unfolding is_ascii_whitespace
quote-Starts cs = refl

module _ {m : LabelMatcher} {text : Chars} (w : Writes m text) (rest : Chars) where
  literal : Chars
  literal = b'"' ∷ (w.inside ++ b'"' ∷ rest)

  -- The text of a matcher in front of what is left.
  text_parts : text ++ rest ≡ m.name ++ (w.before_op ++ (op_text m.op ++ (w.after_op ++ literal)))
  unfolding literal
  text_parts = ap (λ t. t ++ rest) w.written ∙ simp append_assoc

  pub text-Starts : Starts (text ++ rest)
  text-Starts = subst Starts (sym text_parts) (name-Starts m.name _ w.named)

  pub text-not_nil : is_nil (text ++ rest) ≡ false
  text-not_nil = ap is_nil text_parts ∙ name-not_nil m.name _ w.named

  pub parse_matcher-append : parse_matcher (text ++ rest) ≡ ok (m, rest)
  unfolding parse_matcher literal
  parse_matcher-append = rw (
    text_parts,
    read_label_name-append m.name (w.before_op ++ (op_text m.op ++ (w.after_op ++ literal))) w.named
        (spaces-EndsName w.before_op _ w.spaces_before (op-EndsName m.op _)),
    skip_whitespace-Starts w.before_op (op_text m.op ++ (w.after_op ++ literal)) w.spaces_before
        (op-Starts m.op _),
    read_operator-append m.op (w.after_op ++ literal)
        (spaces-NotTilde w.after_op (w.inside ++ b'"' ∷ rest) w.spaces_after),
    skip_whitespace-Starts w.after_op literal w.spaces_after
        (quote-Starts (w.inside ++ b'"' ∷ rest)),
    read_string_literal-append rest w.spelled,
  )

module _ (fuel : ℕ) (acc : List LabelMatcher) {m : LabelMatcher} (before text after rest : Chars)
    (spaces_before : Spaces before) (w : Writes m text) (spaces_after : Spaces after)
    (starts : Starts rest) where
  -- One round of the loop.
  pub loop_matcher :
      matcher_loop (suc fuel) (before ++ (text ++ (after ++ rest))) acc
      ≡ after_matcher rest
          (some (ok (acc ++ m ∷ [])))
          (λ next. matcher_loop fuel next (acc ++ m ∷ []))
          (some (err ParseError.unrecognised_syntax))
  unfolding matcher_loop after_parse
  loop_matcher = rw (
    skip_whitespace-Starts before (text ++ (after ++ rest)) spaces_before
        (text-Starts w (after ++ rest)),
    text-not_nil w (after ++ rest),
    parse_matcher-append w (after ++ rest),
    skip_whitespace-Starts after rest spaces_after starts,
  )

no_matchers :
    (fuel : ℕ) (acc : List LabelMatcher) (cs : Chars)
    → Spaces cs
    → matcher_loop (suc fuel) cs acc ≡ some (ok (acc ++ []))
unfolding matcher_loop
no_matchers fuel acc cs h =
    let blank : skip_whitespace cs ≡ [] =
      ap skip_whitespace (sym (append-nil cs)) ∙ skip_whitespace-Starts cs [] h tt in
    rw blank (ap (λ l. some (ok l)) (sym (append-nil acc)))

length-before :
    (before text after rest : Chars)
    → suc (length rest) ≤ length (before ++ (text ++ (after ++ b',' ∷ rest)))
length-before before text after rest = omega (
  arith,
  length-append before (text ++ (after ++ b',' ∷ rest)),
  length-append text (after ++ b',' ∷ rest),
  length-append after (b',' ∷ rest),
)

comma-Starts : (cs : Chars) → Starts (b',' ∷ cs)
unfolding is_ascii_whitespace
comma-Starts cs = refl

pub matcher_loop-Lists :
    (fuel : ℕ) (acc : List LabelMatcher) {ms : List LabelMatcher} {cs : Chars}
    → Lists ms cs
    → length cs < fuel
    → matcher_loop fuel cs acc ≡ some (ok (acc ++ ms))
unfolding after_matcher
matcher_loop-Lists zero acc l h = elim h [ ]
matcher_loop-Lists (suc fuel) acc (Lists.nothing {cs} spaces) h = no_matchers fuel acc cs spaces
matcher_loop-Lists (suc fuel) acc (last {m} before text after spaces w spaces' e) h =
    ap (λ t. matcher_loop (suc fuel) t acc)
      (e ∙ ap (λ t. before ++ (text ++ t)) (sym (append-nil after)))
    ∙ loop_matcher fuel acc before text after [] spaces w spaces' tt
matcher_loop-Lists (suc fuel) acc (more {m} {ms} before text after rest spaces w spaces' l e) h =
    ap (λ t. matcher_loop (suc fuel) t acc) e
    ∙ loop_matcher fuel acc before text after (b',' ∷ rest) spaces w spaces' (comma-Starts rest)
    ∙ matcher_loop-Lists fuel (acc ++ m ∷ []) l
        (omega (arith, ap length e, length-before before text after rest))
    ∙ ap (λ l. some (ok l)) (append_assoc acc (m ∷ []) ms)
