-- ===== src/QueryApi/Selector/Grammatical.antt =====
-- crates/query-api/src/selector.rs: a query is parsed exactly if it is in the grammar, and the parser ends.
use kaleidoscope.Prelude.{
  is_nil, is_whitespace, trim_start, trim_end, trim, ℕ, suc, ◌≡◌, ◌↔◌, refl, sym, ap, ◌∙◌, subst,
  inl, inr, Bool, Bool-cases, true, Option, some, none, List, [], ◌∷◌, ◌++◌, All, nat_beq,
  nat_beq_iff, arith, Result, ok, err, length, ◌&&◌,
}
use kaleidoscope.QueryApi.Selector.Characters.{Chars, is_name_continue}
use kaleidoscope.QueryApi.Selector.Parser.{
  LabelMatcher, Selector, ParseError, Matchers, parse_matcher_list, behind, find_open,
  ends_with_close, drop_last, split_found, split_at_brace, all_continue, is_bare_metric_name,
  parse_braces, with_matchers, parse_parts, parse,
}
use kaleidoscope.QueryApi.Selector.Grammar.{IsMetricName, Lists, Denotes, bare, braces, Selects}
use kaleidoscope.QueryApi.Selector.Loop.{matcher_loop-inverse, matcher_loop-ends}
use kaleidoscope.QueryApi.Selector.Accepts.{parse-Denoted}

trimmed_start :
    (cs : Chars)
    → (before : Chars) × All (λ c. is_whitespace c ≡ true) before
      × (cs ≡ before ++ trim_start is_whitespace cs)
unfolding trim_start
trimmed_start [] = ([], tt, refl)
trimmed_start (c ∷ cs) = elim (Bool-cases (is_whitespace c)) [
  | inl e ↦
      let (before, blank, parts) = trimmed_start cs in
      (c ∷ before, (e, blank), rw e (ap (λ l. c ∷ l) parts))
  | inr e ↦ ([], tt, rw e)
]

empty : (cs : Chars) → is_nil cs ≡ true → cs ≡ []
empty [] h = refl
empty (c ∷ cs) h = cc

both : (a b : Bool) → (a && b) ≡ true → (a ≡ true) × (b ≡ true)
both a b h = ground arith

trimmed_end :
    (cs : Chars)
    → (after : Chars) × All (λ c. is_whitespace c ≡ true) after
      × (cs ≡ trim_end is_whitespace cs ++ after)
unfolding trim_end
trimmed_end [] = ([], tt, refl)
trimmed_end (c ∷ cs) =
    let (after, blank, parts) = trimmed_end cs in
    elim (Bool-cases (is_whitespace c && is_nil (trim_end is_whitespace cs))) [
      | inl e ↦
          let (space, nothing) = both (is_whitespace c) (is_nil (trim_end is_whitespace cs)) e in
          let rest : cs ≡ after =
            parts ∙ ap (λ t. t ++ after) (empty (trim_end is_whitespace cs) nothing) in
          (c ∷ cs, (space, subst (All (λ c. is_whitespace c ≡ true)) (sym rest) blank), rw e)
      | inr e ↦ (after, blank, rw e (ap (λ l. c ∷ l) parts))
    ]

behind-inverse :
    (c : ℕ) (cs : Chars) (o : Option (Chars × Chars)) (a b : Chars)
    → ((a b : Chars) → o ≡ some (a, b) → cs ≡ a ++ b'{' ∷ b)
    → behind c o ≡ some (a, b)
    → c ∷ cs ≡ a ++ b'{' ∷ b
unfolding behind
behind-inverse c cs none a b hyp h = cc
behind-inverse c cs (some (x, y)) a b hyp h = cc (hyp x y refl)

found_open : (cs a b : Chars) → find_open cs ≡ some (a, b) → cs ≡ a ++ b'{' ∷ b
unfolding find_open
found_open [] a b h = cc
found_open (c ∷ cs) a b h = elim (Bool-cases (nat_beq c b'{')) [
  | inl e ↦
      let same : ◌≡◌ {A = Option (Chars × Chars)} (some ([], cs)) (some (a, b)) = rw e at h in
      let front : ◌≡◌ {A = Chars} [] a = cc in
      let left : cs ≡ b = cc in
      ap (λ (d : ℕ). d ∷ cs) ((nat_beq_iff c b'{').0 e)
      ∙ ap (λ t. b'{' ∷ t) left
      ∙ ap (λ t. t ++ b'{' ∷ b) front
  | inr e ↦ behind-inverse c cs (find_open cs) a b (found_open cs) (rw e at h)
]

closed : (cs : Chars) → ends_with_close cs ≡ true → cs ≡ drop_last cs ++ b'}' ∷ []
unfolding ends_with_close drop_last
closed [] h = cc
closed (c ∷ []) h = ground arith
closed (c ∷ d ∷ cs) h = ap (λ l. c ∷ l) (closed (d ∷ cs) h)

all_continue-inverse :
    (cs : Chars) → all_continue cs ≡ true → All (λ d. is_name_continue d ≡ true) cs
unfolding all_continue
all_continue-inverse [] h = tt
all_continue-inverse (c ∷ cs) h = ground (arith, all_continue-inverse cs)

is_bare-inverse : (n : Chars) → is_bare_metric_name n ≡ true → IsMetricName n
unfolding is_bare_metric_name
is_bare-inverse [] h = cc
is_bare-inverse (c ∷ n) h = ground (arith, all_continue-inverse n)

-- A closing brace at the end of a text with an opening one stands behind it.
last_close :
    (n rest : Chars) → ends_with_close (n ++ b'{' ∷ rest) ≡ true → ends_with_close rest ≡ true
unfolding ends_with_close
last_close [] [] h = cc
last_close [] (c ∷ cs) h = h
last_close (d ∷ []) rest h = last_close [] rest h
last_close (d ∷ e ∷ n) rest h = last_close (e ∷ n) rest h

-- What is known of the parts.
abbrev SplitsInto : Chars → Result (Chars × Option Chars) ParseError → Type 0
SplitsInto text (err e) = Unit
SplitsInto text (ok (name_part, none)) = text ≡ name_part
SplitsInto text (ok (name_part, some inner)) = text ≡ name_part ++ b'{' ∷ (inner ++ b'}' ∷ [])

split_found-SplitsInto :
    (text : Chars) (o : Option (Chars × Chars))
    → find_open text ≡ o
    → SplitsInto text (split_found text o)
unfolding split_found
split_found-SplitsInto text none h = refl
split_found-SplitsInto text (some (a, b)) h =
    let parts = found_open text a b h in
    elim (Bool-cases (ends_with_close text)) [
      | inl e ↦ rw e (
          parts
          ∙ ap (λ t. a ++ b'{' ∷ t)
              (closed b (last_close a b (ap ends_with_close (sym parts) ∙ e))))
      | inr e ↦ rw e tt
    ]

split_at_brace-SplitsInto : (text : Chars) → SplitsInto text (split_at_brace text)
unfolding split_at_brace
split_at_brace-SplitsInto text = split_found-SplitsInto text (find_open text) refl

with_matchers-inverse :
    (n : Chars) (out : Matchers) (s : Selector)
    → with_matchers n out ≡ some (ok s)
    → (ms : List LabelMatcher) × (out ≡ some (ok ms)) × (s ≡ record { name = n; matchers = ms })
unfolding with_matchers
with_matchers-inverse n none s h = cc
with_matchers-inverse n (some (err e)) s h = cc
with_matchers-inverse n (some (ok ms)) s h = (ms, refl, cc)

braces-inverse :
    (text n : Chars) (brace_part : Option Chars) (ms : List LabelMatcher)
    → IsMetricName n
    → SplitsInto text (ok (n, brace_part))
    → parse_braces brace_part ≡ some (ok ms)
    → Denotes (record { name = n; matchers = ms }) text
unfolding parse_braces parse_matcher_list
braces-inverse text n none ms named parts h = bare named (cc) parts
braces-inverse text n (some inner) ms named parts h =
    let (new, grown, l) = matcher_loop-inverse (suc (length inner)) inner [] ms h in
    braces inner named (subst (λ ms. Lists ms inner) (sym grown) l) parts

parse_parts-inverse :
    (text : Chars) (r : Result (Chars × Option Chars) ParseError) (s : Selector)
    → SplitsInto text r
    → parse_parts r ≡ some (ok s)
    → Denotes s text
unfolding parse_parts
parse_parts-inverse text (err e) s parts h = cc
parse_parts-inverse text (ok (n, brace_part)) s parts h =
    elim (Bool-cases (is_bare_metric_name n)) [
      | inl e ↦
          let (ms, matched, same) =
            with_matchers-inverse n (parse_braces brace_part) s (rw e at h) in
          subst (λ s. Denotes s text) (sym same)
            (braces-inverse text n brace_part ms (is_bare-inverse n e) parts matched)
      | inr e ↦ cc (rw e at h)
    ]

parse-inverse : (raw : Chars) (s : Selector) → parse raw ≡ some (ok s) → Selects s raw
unfolding parse trim
parse-inverse raw s h =
    elim (Bool-cases (is_nil (trim_end is_whitespace (trim_start is_whitespace raw)))) [
      | inl e ↦ cc (rw e at h)
      | inr e ↦
          let (before, space_before, parts) = trimmed_start raw in
          let (after, space_after, parts') = trimmed_end (trim_start is_whitespace raw) in
          let trimmed = trim_end is_whitespace (trim_start is_whitespace raw) in
          record {
            before = before;
            text = trimmed;
            after = after;
            space_before = space_before;
            space_after = space_after;
            denotes =
                parse_parts-inverse trimmed (split_at_brace trimmed) s
                  (split_at_brace-SplitsInto trimmed) (rw e at h);
            written = parts ∙ ap (λ t. before ++ t) parts';
          }
    ]

-- A query is parsed to a selector exactly if the grammar has the query as a text of that selector: a metric
-- name and, in braces, matchers with commas between them, white space anywhere but in a name, an operator or
-- a literal, and one comma more behind the last matcher if it likes.
pub parse-Selects : (raw : Chars) (s : Selector) → (parse raw ≡ some (ok s)) ↔ Selects s raw
parse-Selects raw s = (parse-inverse raw s, parse-Denoted s raw)

parse_braces-ends :
    (brace_part : Option Chars)
    → (r : Result (List LabelMatcher) ParseError) × (parse_braces brace_part ≡ some r)
unfolding parse_braces parse_matcher_list
parse_braces-ends none = (ok [], refl)
parse_braces-ends (some inner) = matcher_loop-ends (suc (length inner)) inner [] (omega arith)

with_matchers-ends :
    (n : Chars) (r : Result (List LabelMatcher) ParseError)
    → (out : Result Selector ParseError) × (with_matchers n (some r) ≡ some out)
unfolding with_matchers
with_matchers-ends n (ok ms) = (ok (record { name = n; matchers = ms }), refl)
with_matchers-ends n (err e) = (err e, refl)

parse_parts-ends :
    (r : Result (Chars × Option Chars) ParseError)
    → (out : Result Selector ParseError) × (parse_parts r ≡ some out)
unfolding parse_parts
parse_parts-ends (err e) = (err e, refl)
parse_parts-ends (ok (n, brace_part)) = elim (Bool-cases (is_bare_metric_name n)) [
  | inl e ↦
      let (ms, matched) = parse_braces-ends brace_part in
      let (out, ends) = with_matchers-ends n ms in (out, rw (e, matched) ends)
  | inr e ↦ (err ParseError.unsupported, rw e)
]

-- The parser ends on every query, with a selector or an error: the fuel of the loop, one more than the
-- characters between the braces, is enough.
pub parse-ends : (raw : Chars) → (r : Result Selector ParseError) × (parse raw ≡ some r)
unfolding parse
parse-ends raw = elim (Bool-cases (is_nil (trim is_whitespace raw))) [
  | inl e ↦ (err ParseError.expected_name, rw e)
  | inr e ↦
      let (out, ends) = parse_parts-ends (split_at_brace (trim is_whitespace raw)) in
      (out, rw e ends)
]
