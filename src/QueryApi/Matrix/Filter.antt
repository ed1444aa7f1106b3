-- ===== src/QueryApi/Matrix/Filter.antt =====
-- crates/query-api/src/matrix.rs: the filter of a query. The crate `regex` is a parameter. `none` stands for
-- the panic of a regex matcher that has no compiled pattern.
use kaleidoscope.Prelude.{
  Bool, true, false, not, Option, none, some, List, [], ◌∷◌, ◌++◌, String, codes, Result, ok, err,
  ◌>>=◌,
}
use kaleidoscope.Prelude.Order.{nat_order, list_order}
use kaleidoscope.Prelude.BTree.{find}
use kaleidoscope.Pulse.Types.{same_text, Chars, Attributes, Metric, MetricPoint}
use kaleidoscope.QueryApi.Selector.Parser.{
  MatchOp, equal, not_equal, matches, not_matches, LabelMatcher,
}
use kaleidoscope.QueryApi.Matrix.Labels.{merge_labels}

-- `Regex::new` and `is_match`.
pub record Regexes : Type 1 where
  pub Regex : Type 0
  pub compile : Chars → Option Regex
  pub is_match : Regex → Chars → Bool

unfoldable pub or_empty : Option Chars → Chars
or_empty none = []
or_empty (some value) = value

unfoldable pub negated : Option Bool → Option Bool
negated none = none
negated (some b) = some (not b)

-- `all`: it stops at the first that does not match.
unfoldable pub and_all : Option Bool → Option Bool → Option Bool
and_all none rest = none
and_all (some false) rest = some false
and_all (some true) rest = rest

module _ (regexes : Regexes) where
  open regexes use {Regex, compile, is_match}

  pub record CompiledMatcher : Type 0 where
    pub name : Chars
    pub op : MatchOp
    pub value : Chars
    pub regex : Option Regex

  unfoldable pub compile_anchored : Chars → Option Regex
  compile_anchored pattern = compile (codes "^(?:" ++ (pattern ++ codes ")$"))

  unfoldable pub required : Option Regex → Result (Option Regex) String
  required none = err "invalid regex matcher"
  required (some regex) = ok (some regex)

  unfoldable pub regex_of : MatchOp → Chars → Result (Option Regex) String
  unfolding compile_anchored required
  regex_of equal value = ok none
  regex_of not_equal value = ok none
  regex_of matches value = required (compile_anchored value)
  regex_of not_matches value = required (compile_anchored value)

  unfoldable pub build_filter : List LabelMatcher → Result (List CompiledMatcher) String
  unfolding regex_of
  build_filter [] = ok []
  build_filter (matcher ∷ matchers) = do
    regex ← regex_of matcher.op matcher.value
    compiled ← build_filter matchers
    ok (
        record { name = matcher.name; op = matcher.op; value = matcher.value; regex = regex }
        ∷ compiled)

  unfoldable pub regex_matches : Option Regex → Chars → Option Bool
  regex_matches none actual = none
  regex_matches (some regex) actual = some (is_match regex actual)

  unfoldable pub matches_op : MatchOp → CompiledMatcher → Chars → Option Bool
  unfolding regex_matches negated same_text
  matches_op equal matcher actual = some (same_text actual matcher.value)
  matches_op not_equal matcher actual = some (not (same_text actual matcher.value))
  matches_op matches matcher actual = regex_matches matcher.regex actual
  matches_op not_matches matcher actual = negated (regex_matches matcher.regex actual)

  unfoldable pub matches_labels : Attributes → CompiledMatcher → Option Bool
  unfolding matches_op or_empty
  matches_labels labels matcher =
      matches_op matcher.op matcher (or_empty (find labels matcher.name))

  unfoldable pub all_match : Attributes → List CompiledMatcher → Option Bool
  unfolding matches_labels and_all
  all_match labels [] = some true
  all_match labels (matcher ∷ matchers) =
      and_all (matches_labels labels matcher) (all_match labels matchers)

  unfoldable pub keep_row :
      {F : Type 0} → Metric F → MetricPoint F → List CompiledMatcher → Option Bool
  unfolding all_match merge_labels
  keep_row metric point filter = all_match (merge_labels metric point) filter
