-- ===== src/QueryApi/Handler/Retained.antt =====
-- crates/query-api/src/lib.rs: the rows that `retain` keeps in `handle_query_range`.
use kaleidoscope.Prelude.{◌≡◌, refl, ap, ◌∙◌, Bool, true, false, some, List, [], ◌∷◌, ok, All}
use kaleidoscope.QueryHttp.TimeRange.{Numbers}
use kaleidoscope.Pulse.Types.{Metric, MetricPoint}
use kaleidoscope.QueryApi.Selector.Parser.{LabelMatcher}
use kaleidoscope.QueryApi.Matrix.Series.{Floats}
use kaleidoscope.QueryApi.Matrix.Filter.{Regexes, CompiledMatcher, or_empty, build_filter}
use kaleidoscope.QueryApi.Matrix.Merged.{IsRow, label_of}
use kaleidoscope.QueryApi.Matrix.Kept.{Asks, keep_row-Asks}
use kaleidoscope.QueryApi.Handler.{MetricStore, keep_if, retain}

module _ {F : Type 0} (regexes : Regexes) where
  -- What the matchers ask of a row.
  abbrev pub Meets : List LabelMatcher → Metric F × MetricPoint F → Type 0
  Meets ms (metric, point) =
      All (λ m. Asks regexes m.op m.value (or_empty (label_of metric point m.name))) ms

  -- The rows that meet the matchers, in their order.
  pub data Keeps (ms : List LabelMatcher)
      : List (Metric F × MetricPoint F) → List (Metric F × MetricPoint F) → Type 0 where
    nothing : Keeps ms [] []
    keeps :
        {row : Metric F × MetricPoint F} {rows kept : List (Metric F × MetricPoint F)}
        → Meets ms row
        → Keeps ms rows kept
        → Keeps ms (row ∷ rows) (row ∷ kept)
    drops :
        {row : Metric F × MetricPoint F} {rows kept : List (Metric F × MetricPoint F)}
        → (Meets ms row → ⊥)
        → Keeps ms rows kept
        → Keeps ms (row ∷ rows) kept

abbrev pub AreRows : {F : Type 0} → List (Metric F × MetricPoint F) → Type 0
AreRows = All (λ row. IsRow row.0 row.1)

module _ {F : Type 0} (floats : Floats F) (regexes : Regexes) (numbers : Numbers)
    (store : MetricStore F) where
  -- What `keep_if` gives of a row with its answer.
  kept-Keeps :
      (ms : List LabelMatcher) (row : Metric F × MetricPoint F)
      (rows kept : List (Metric F × MetricPoint F)) (b : Bool)
      → ((b ≡ true → Meets regexes ms row) × (Meets regexes ms row → b ≡ true))
      → Keeps regexes ms rows kept
      → (all : List (Metric F × MetricPoint F)) × (keep_if floats regexes numbers store
            (some b)
            row
            (some kept)
          ≡ some all)
        × Keeps regexes ms (row ∷ rows) all
  unfolding keep_if
  kept-Keeps ms row rows kept true iff keeping =
      (row ∷ kept, refl, Keeps.keeps (iff.0 refl) keeping)
  kept-Keeps ms row rows kept false iff keeping =
      (kept, refl, Keeps.drops (λ meets. cc (iff.1 meets)) keeping)

  pub retain-Keeps :
      (ms : List LabelMatcher) (filter : List (CompiledMatcher regexes))
      (rows : List (Metric F × MetricPoint F))
      → build_filter regexes ms ≡ ok filter
      → AreRows rows
      → (kept : List (Metric F × MetricPoint F)) × (retain floats regexes numbers store filter rows
          ≡ some kept)
        × Keeps regexes ms rows kept
  unfolding retain
  retain-Keeps ms filter [] h are = ([], refl, Keeps.nothing)
  retain-Keeps ms filter ((metric, point) ∷ rows) h are =
      let (kept, retained, keeping) = retain-Keeps ms filter rows h are.1 in
      let (b, answered, iff) = keep_row-Asks regexes metric point ms filter are.0 h in
      let (all, both, keeping_all) = kept-Keeps ms (metric, point) rows kept b iff keeping in
      (
        all,
        ap
              (λ o.
                keep_if floats regexes numbers store o (metric, point)
                  (retain floats regexes numbers store filter rows))
              answered
            ∙ ap (keep_if floats regexes numbers store (some b) (metric, point)) retained
            ∙ both,
        keeping_all,
      )
