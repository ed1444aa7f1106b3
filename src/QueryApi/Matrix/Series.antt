-- ===== src/QueryApi/Matrix/Series.antt =====
-- crates/query-api/src/matrix.rs: `to_matrix`. What the code asks of an `f64` is a parameter. An entry of the
-- matrix is the pair of its labels and its values.
use kaleidoscope.Prelude.{
  ℕ, ◌/◌, Bool, Option, none, some, List, [], ◌∷◌, ◌++◌, codes, if◌then◌else◌,
}
use kaleidoscope.Prelude.Order.{nat_order, pair_order, list_order}
use kaleidoscope.Prelude.BTree.{BTreeMap, entry_with}
use kaleidoscope.Pulse.Types.{Chars, Attributes, Metric, MetricPoint}
use kaleidoscope.QueryApi.Matrix.Labels.{merge_labels}

pub record Floats (F : Type 0) : Type 0 where
  pub is_nan : F → Bool
  pub is_infinite : F → Bool
  pub is_sign_positive : F → Bool
  pub to_text : F → Chars

abbrev pub PromMatrixEntry : Type 0
PromMatrixEntry = Attributes × List (ℕ × Chars)

unfoldable pub nanos_to_seconds : ℕ → ℕ
nanos_to_seconds time_unix_nano = time_unix_nano / 1000000000

-- `entry(…).or_default().push(…)`
unfoldable pub push : ℕ × Chars → Option (List (ℕ × Chars)) → List (ℕ × Chars)
push s none = s ∷ []
push s (some values) = values ++ s ∷ []

module _ {F : Type 0} (floats : Floats F) where
  unfoldable pub format_value : F → Chars
  format_value value =
      if floats.is_nan value
      then codes "NaN"
      else if floats.is_infinite value
      then (if floats.is_sign_positive value then codes "+Inf" else codes "-Inf")
      else floats.to_text value

  unfoldable pub sample : Metric F × MetricPoint F → ℕ × Chars
  unfolding nanos_to_seconds format_value
  sample (metric, point) = (nanos_to_seconds point.time_unix_nano, format_value point.value)

  -- The loop over the rows.
  unfoldable pub group :
      List (Metric F × MetricPoint F)
      → BTreeMap Attributes (List (ℕ × Chars))
      → BTreeMap Attributes (List (ℕ × Chars))
  group [] grouped = grouped
  group ((metric, point) ∷ rows) grouped =
      group rows (entry_with grouped (merge_labels metric point) (push (sample (metric, point))))

  unfoldable pub to_matrix : List (Metric F × MetricPoint F) → List PromMatrixEntry
  unfolding group
  to_matrix rows = group rows []
