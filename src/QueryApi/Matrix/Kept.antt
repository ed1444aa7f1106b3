-- ===== src/QueryApi/Matrix/Kept.antt =====
-- crates/query-api/src/matrix.rs: which rows a filter keeps.
use kaleidoscope.Prelude.{
  subst, ◌≡◌, ◌≢◌, ◌↔◌, refl, sym, ap, ◌∙◌, Bool, true, false, not, Option, none, some, List, [],
  ◌∷◌, ◌++◌, codes, All, ok, succeeds_first, ok-injective, arith,
}
use kaleidoscope.Prelude.Order.{nat_order, list_order}
use kaleidoscope.Prelude.BTree.{find}
use kaleidoscope.Pulse.Types.{same_text, Chars, Attributes, Metric, MetricPoint}
use kaleidoscope.QueryApi.Selector.Parser.{
  MatchOp, equal, not_equal, matches, not_matches, LabelMatcher,
}
use kaleidoscope.QueryApi.Matrix.Labels.{merge_labels}
use kaleidoscope.QueryApi.Matrix.Filter.{
  Regexes, or_empty, CompiledMatcher, compile_anchored, required, regex_of, build_filter,
  regex_matches, negated, matches_op, matches_labels, and_all, all_match, keep_row,
}
use kaleidoscope.QueryApi.Matrix.Merged.{IsRow, label_of, merge_labels-label_of, same_text-equal}

module _ (regexes : Regexes) where
  open regexes use {Regex, compile, is_match}

  -- What a matcher asks of the value of its label; the value of an absent label is empty. A pattern is matched
  -- against the whole of it.
  abbrev pub Asks : MatchOp → Chars → Chars → Type 0
  Asks equal value actual = actual ≡ value
  Asks not_equal value actual = actual ≢ value
  Asks matches value actual =
      (r : Regex) × (compile (codes "^(?:" ++ (value ++ codes ")$")) ≡ some r)
      × (is_match r actual ≡ true)
  Asks not_matches value actual =
      (r : Regex) × (compile (codes "^(?:" ++ (value ++ codes ")$")) ≡ some r)
      × (is_match r actual ≡ false)

  -- An outcome, with what it says.
  abbrev Answers : Option Bool → Type 0 → Type 0
  Answers o P = (b : Bool) × (o ≡ some b) × ((b ≡ true) ↔ P)

  module _ (m : CompiledMatcher regexes) (value actual : Chars) where
    compiled :
        (o : Option Regex)
        → required regexes o ≡ ok m.regex
        → (r : Regex) × (o ≡ some r) × (m.regex ≡ some r)
    unfolding required
    compiled none h = cc
    compiled (some r) h = (r, refl, sym (ok-injective h))

    answer :
        (op : MatchOp)
        → m.value ≡ value
        → regex_of regexes op value ≡ ok m.regex
        → Answers (matches_op regexes op m actual) (Asks op value actual)
    unfolding matches_op regex_of compile_anchored regex_matches negated
    answer equal v h = (
      same_text actual m.value,
      refl,
      (
        (λ t. (same_text-equal actual m.value).0 t ∙ v),
        λ t. (same_text-equal actual m.value).1 (t ∙ sym v),
      ),
    )
    answer not_equal v h = (
      not (same_text actual m.value),
      refl,
      (
        (λ t e. ground (arith, (same_text-equal actual m.value).1 (e ∙ sym v))),
        λ t. ground (
          arith,
          λ (e : same_text actual m.value ≡ true). t ((same_text-equal actual m.value).0 e ∙ v),
        ),
      ),
    )
    answer matches v h =
        let (r, c, same) = compiled (compile (codes "^(?:" ++ (value ++ codes ")$"))) h in
        (
          is_match r actual,
          ap (λ o. regex_matches regexes o actual) same,
          ((λ t. (r, c, t)), λ (r', c', t). cc (c, c', t)),
        )
    answer not_matches v h =
        let (r, c, same) = compiled (compile (codes "^(?:" ++ (value ++ codes ")$"))) h in
        (
          not (is_match r actual),
          ap (λ o. negated (regex_matches regexes o actual)) same,
          (
            (λ t. (r, c, ground arith)),
            λ (r', c', t).
                let other : r ≡ r' = cc (c, c') in
                ap (λ x. not (is_match x actual)) other ∙ ap not t,
          ),
        )

  compiled-matcher :
      (m : LabelMatcher) (ms : List LabelMatcher) (filter : List (CompiledMatcher regexes))
      → build_filter regexes (m ∷ ms) ≡ ok filter
      → (first : CompiledMatcher regexes) × (rest : List (CompiledMatcher regexes)) × (filter
          ≡ first ∷ rest)
        × (build_filter regexes ms ≡ ok rest)
        × (first.name ≡ m.name)
        × (first.op ≡ m.op)
        × (first.value ≡ m.value)
        × (regex_of regexes m.op m.value ≡ ok first.regex)
  unfolding build_filter
  compiled-matcher m ms filter h =
      let (regex, first, h1) = succeeds_first (regex_of regexes m.op m.value) h in
      let (rest, others, h2) = succeeds_first (build_filter regexes ms) h1 in
      (
        record { name = m.name; op = m.op; value = m.value; regex = regex },
        rest,
        sym (ok-injective h2),
        others,
        refl,
        refl,
        refl,
        first,
      )

  -- Both of two answers.
  both :
      (a b : Option Bool) (P Q : Type 0) → Answers a P → Answers b Q → Answers (and_all a b) (P × Q)
  unfolding and_all
  both a b P Q (false, ea, ia) (y, eb, ib) = (false, rw ea, ((λ h. cc), λ (p, q). ia.1 p))
  both a b P Q (true, ea, ia) (y, eb, ib) =
      (y, rw (ea, eb), ((λ h. (ia.0 refl, ib.0 h)), λ (p, q). ib.1 q))

  module _ (labels : Attributes) (label : Chars → Option Chars)
      (same : (key : Chars) → find labels key ≡ label key) where
    -- What a matcher asks of the label that it names.
    abbrev Holds : LabelMatcher → Type 0
    Holds m = Asks m.op m.value (or_empty (label m.name))

    all_match-Holds :
        (ms : List LabelMatcher) (filter : List (CompiledMatcher regexes))
        → build_filter regexes ms ≡ ok filter
        → Answers (all_match regexes labels filter) (All Holds ms)
    unfolding all_match matches_labels build_filter
    all_match-Holds [] filter h =
        subst (λ filter. Answers (all_match regexes labels filter) (Unit {0})) (ok-injective h)
          (true, refl, ((λ t. tt), λ t. refl))
    all_match-Holds (m ∷ ms) filter h =
        let (first, rest, parts, others, name, op, value, regex) = compiled-matcher m ms filter h in
        let actual = or_empty (label m.name) in
        let ask = answer first m.value actual m.op value regex in
        let found : matches_labels regexes labels first ≡ matches_op regexes m.op first actual =
          (ap (λ o. matches_op regexes o first (or_empty (find labels first.name))) op
            ∙ ap (λ v. matches_op regexes m.op first (or_empty v))
                (ap (find labels) name ∙ same m.name)) in
        subst (λ filter. Answers (all_match regexes labels filter) (Holds m × All Holds ms))
          (sym parts)
          (both (matches_labels regexes labels first) (all_match regexes labels rest) (Holds m)
            (All Holds ms) (subst (λ o. Answers o (Holds m)) (sym found) ask)
            (all_match-Holds ms rest others))

  -- Of a filter that is built from matchers: it does not panic, and it keeps a row exactly if every matcher is met by
  -- the label that it names, where the name of the metric comes before the attributes of the point, these before
  -- those of the resource, and a label that is not there is empty; a pattern has to match the whole label.
  pub keep_row-Asks :
      {F : Type 0} (metric : Metric F) (point : MetricPoint F) (ms : List LabelMatcher)
      (filter : List (CompiledMatcher regexes))
      → IsRow metric point
      → build_filter regexes ms ≡ ok filter
      → (b : Bool) × (keep_row regexes metric point filter ≡ some b)
        × ((b ≡ true) ↔ All (λ m. Asks m.op m.value (or_empty (label_of metric point m.name))) ms)
  unfolding keep_row
  keep_row-Asks metric point ms filter row h =
      all_match-Holds (merge_labels metric point) (label_of metric point)
        (merge_labels-label_of metric point row) ms filter h
