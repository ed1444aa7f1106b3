-- ===== src/QueryApi/Selector/Sound.antt =====
-- crates/query-api/src/selector.rs: what each reader has read.
use mathlib.Core.List.{append_assoc, append-nil}
use kaleidoscope.Prelude.{
  ℕ, ◌≡◌, refl, sym, ap, ◌∙◌, subst, inl, inr, Bool-cases, [], ◌∷◌, ◌++◌, nat_beq, arith, Result,
  ok, err, succeeds_first, ok-injective, nat_beq_iff,
}
use kaleidoscope.QueryApi.Selector.Characters.{
  Chars, is_ascii_whitespace, is_name_start, is_label_name_continue,
}
use kaleidoscope.QueryApi.Selector.Parser.{
  MatchOp, LabelMatcher, ParseError, skip_whitespace, read_continue, read_label_name, after_equals,
  after_bang, read_operator, unescape, read_characters, read_string_literal, parse_matcher,
}
use kaleidoscope.QueryApi.Selector.Grammar.{
  Spaces, Continues, IsLabelName, op_text, Escape, Spells, plain, escaped, Writes,
}

-- The white space that is skipped.
pub skipped : (cs : Chars) → (ws : Chars) × Spaces ws × (cs ≡ ws ++ skip_whitespace cs)
unfolding skip_whitespace
skipped [] = ([], tt, refl)
skipped (c ∷ cs) = elim (Bool-cases (is_ascii_whitespace c)) [
  | inl e ↦
      let (ws, spaces, parts) = skipped cs in (c ∷ ws, (e, spaces), rw e (ap (λ l. c ∷ l) parts))
  | inr e ↦ ([], tt, rw e)
]

read_continue-inverse :
    (name cs n rest : Chars)
    → read_continue name cs ≡ (n, rest)
    → (x : Chars) × Continues x × (n ≡ name ++ x) × (cs ≡ x ++ rest)
unfolding read_continue
read_continue-inverse name [] n rest h =
    ([], tt, sym (ap (λ p. p.0) h) ∙ sym (append-nil name), ap (λ p. p.1) h)
read_continue-inverse name (c ∷ cs) n rest h = elim (Bool-cases (is_label_name_continue c)) [
  | inl e ↦
      let (x, continues, front, parts) =
        read_continue-inverse (name ++ c ∷ []) cs n rest (rw e at h) in
      (c ∷ x, (e, continues), front ∙ append_assoc name (c ∷ []) x, ap (λ l. c ∷ l) parts)
  | inr e ↦
      let stopped : ◌≡◌ {A = Chars × Chars} (name, c ∷ cs) (n, rest) = rw e at h in
      ([], tt, sym (ap (λ p. p.0) stopped) ∙ sym (append-nil name), ap (λ p. p.1) stopped)
]

read_label_name-inverse :
    (cs n rest : Chars) → read_label_name cs ≡ ok (n, rest) → IsLabelName n × (cs ≡ n ++ rest)
unfolding read_label_name
read_label_name-inverse [] n rest h = cc
read_label_name-inverse (c ∷ cs) n rest h = elim (Bool-cases (is_name_start c)) [
  | inl e ↦
      let (x, continues, front, parts) =
        read_continue-inverse (c ∷ []) cs n rest (ok-injective (rw e at h)) in
      (
        subst IsLabelName (sym front) (e, continues),
        ap (λ l. c ∷ l) parts ∙ ap (λ l. l ++ rest) (sym front),
      )
  | inr e ↦ cc (rw e at h)
]

-- What a successful reading of an operator says.
abbrev Reads : Chars → Result (MatchOp × Chars) ParseError → Type 0
Reads cs (ok (op, rest)) = cs ≡ op_text op ++ rest
Reads cs (err e) = Unit

after_equals-Reads : (c : ℕ) (cs : Chars) → c ≡ b'=' → Reads (c ∷ cs) (after_equals cs)
unfolding after_equals
after_equals-Reads c [] h = ground arith
after_equals-Reads c (d ∷ cs) h = ground arith

after_bang-Reads : (c : ℕ) (cs : Chars) → c ≡ b'!' → Reads (c ∷ cs) (after_bang cs)
unfolding after_bang
after_bang-Reads c [] h = tt
after_bang-Reads c (d ∷ []) h = ground arith
after_bang-Reads c (d ∷ e ∷ cs) h = ground arith

read_operator-Reads : (cs : Chars) → Reads cs (read_operator cs)
unfolding read_operator
read_operator-Reads [] = tt
read_operator-Reads (c ∷ cs) = ground (arith, after_equals-Reads c cs, after_bang-Reads c cs)

read_operator-inverse :
    (cs : Chars) (op : MatchOp) (rest : Chars)
    → read_operator cs ≡ ok (op, rest)
    → cs ≡ op_text op ++ rest
read_operator-inverse cs op rest h = subst (Reads cs) h (read_operator-Reads cs)

unescape-inverse : (d e : ℕ) → unescape d ≡ ok e → Escape d e
unfolding unescape
unescape-inverse d e h = ground arith

read_characters-inverse :
    (acc cs value rest : Chars)
    → read_characters acc cs ≡ ok (value, rest)
    → (v : Chars) × (text : Chars) × Spells v text × (value ≡ acc ++ v) × (cs ≡ text ++ b'"' ∷ rest)
unfolding read_characters
read_characters-inverse acc [] value rest h = cc
read_characters-inverse acc (c ∷ []) value rest h = elim (Bool-cases (nat_beq c b'"')) [
  | inl e ↦
      let done : (acc, []) ≡ (value, rest) = ok-injective (rw e at h) in
      (
        [],
        [],
        Spells.nothing,
        sym (ap (λ p. p.0) done) ∙ sym (append-nil acc),
        ground (arith, ap (λ p. p.1) done),
      )
  | inr e ↦ ground arith
]
read_characters-inverse acc (c ∷ d ∷ cs) value rest h = elim (Bool-cases (nat_beq c b'"')) [
  | inl e ↦
      let done : (acc, d ∷ cs) ≡ (value, rest) = ok-injective (rw e at h) in
      (
        [],
        [],
        Spells.nothing,
        sym (ap (λ p. p.0) done) ∙ sym (append-nil acc),
        ground (arith, ap (λ p. p.1) done),
      )
  | inr e ↦ elim (Bool-cases (nat_beq c b'\\')) [
    | inl b ↦
        let (f, escape, left) = succeeds_first (unescape d) (rw (e, b) at h) in
        let (v, text, spells, front, parts) =
          read_characters-inverse (acc ++ f ∷ []) cs value rest left in
        (
          f ∷ v,
          c ∷ d ∷ text,
          escaped ((nat_beq_iff c b'\\').0 b) (unescape-inverse d f escape) spells,
          front ∙ append_assoc acc (f ∷ []) v,
          ap (λ l. c ∷ d ∷ l) parts,
        )
    | inr b ↦
        let (v, text, spells, front, parts) =
          read_characters-inverse (acc ++ c ∷ []) (d ∷ cs) value rest (rw (e, b) at h) in
        (
          c ∷ v,
          c ∷ text,
          plain (ground arith) (ground arith) spells,
          front ∙ append_assoc acc (c ∷ []) v,
          ap (λ l. c ∷ l) parts,
        )
  ]
]

read_string_literal-inverse :
    (cs value rest : Chars)
    → read_string_literal cs ≡ ok (value, rest)
    → (text : Chars) × Spells value text × (cs ≡ b'"' ∷ (text ++ b'"' ∷ rest))
unfolding read_string_literal
read_string_literal-inverse [] value rest h = cc
read_string_literal-inverse (c ∷ cs) value rest h = elim (Bool-cases (nat_beq c b'"')) [
  | inl e ↦
      let (v, text, spells, front, parts) = read_characters-inverse [] cs value rest (rw e at h) in
      (text, subst (λ l. Spells l text) (sym front) spells, ground (arith, ap (λ l. c ∷ l) parts))
  | inr e ↦ cc (rw e at h)
]

pub parse_matcher-inverse :
    (cs : Chars) (m : LabelMatcher) (rest : Chars)
    → parse_matcher cs ≡ ok (m, rest)
    → (text : Chars) × Writes m text × (cs ≡ text ++ rest)
unfolding parse_matcher
parse_matcher-inverse cs m rest h =
    let (label, e1, h1) = succeeds_first (read_label_name cs) h in
    let (operator, e2, h2) = succeeds_first (read_operator (skip_whitespace label.1)) h1 in
    let (literal, e3, h3) = succeeds_first (read_string_literal (skip_whitespace operator.1)) h2 in
    let (named, parts1) = read_label_name-inverse cs label.0 label.1 e1 in
    let (ws1, spaces1, skip1) = skipped label.1 in
    let parts2 = read_operator-inverse (skip_whitespace label.1) operator.0 operator.1 e2 in
    let (ws2, spaces2, skip2) = skipped operator.1 in
    let (inside, spells, parts3) =
      read_string_literal-inverse (skip_whitespace operator.1) literal.0 literal.1 e3 in
    subst (λ (p : LabelMatcher × Chars). (text : Chars) × Writes p.0 text × (cs ≡ text ++ p.1))
      (ok-injective h3)
      (
        label.0 ++ (ws1 ++ (op_text operator.0 ++ (ws2 ++ (b'"' ∷ (inside ++ b'"' ∷ []))))),
        record {
          before_op = ws1;
          after_op = ws2;
          inside = inside;
          named = named;
          spaces_before = spaces1;
          spaces_after = spaces2;
          spelled = spells;
          written = refl;
        },
        parts1
            ∙ ap (λ t. label.0 ++ t)
                (skip1
                  ∙ ap (λ t. ws1 ++ t)
                      (parts2
                        ∙ ap (λ t. op_text operator.0 ++ t) (skip2 ∙ ap (λ t. ws2 ++ t) parts3)))
            ∙ simp append_assoc,
      )
