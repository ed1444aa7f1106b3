-- ===== src/QueryApi/OverPulse.antt =====
-- crates/query-api over crates/pulse: the handler of queries with the store in memory.
use kaleidoscope.Prelude.{◌≡◌, subst, List, [], ◌∷◌, ok, ok-injective, All}
use kaleidoscope.Sluice.Types.{TenantId}
use kaleidoscope.Pulse.Types.{Metric, MetricPoint, MetricName, TimeRange}
use kaleidoscope.Pulse.Store.{empty, query}
use kaleidoscope.Pulse.Cap.{run}
use kaleidoscope.Pulse.Ordered.{IsMetric, IsRowOf, run-query}
use kaleidoscope.QueryApi.Handler.{MetricStore}
use kaleidoscope.QueryApi.Handler.Retained.{AreRows}

-- The store that calls of `ingest` leave, as the handler sees it.
abbrev pub after : {F : Type 0} → List (TenantId × List (Metric F)) → MetricStore F
after calls = record {
  query = λ tenant metric_name range. ok (query (run empty calls) tenant metric_name range).1;
}

module _ {F : Type 0} where
  rows-AreRows :
      (metric_name : MetricName) (range : TimeRange) (rows : List (Metric F × MetricPoint F))
      → All (IsRowOf metric_name range) rows
      → AreRows rows
  rows-AreRows metric_name range [] h = tt
  rows-AreRows metric_name range (row ∷ rows) h = (
    record { resource_ascends = h.0.resource_map; point_ascends = h.0.point_map },
    rows-AreRows metric_name range rows h.1,
  )

  -- The rows of such a store are metrics and points with maps of attributes.
  pub after-AreRows :
      (calls : List (TenantId × List (Metric F)))
      → All (λ call. All IsMetric call.1) calls
      → (tenant : TenantId) (name : MetricName) (range : TimeRange)
        (rows : List (Metric F × MetricPoint F))
      → (after calls).query tenant name range ≡ ok rows
      → AreRows rows
  after-AreRows calls are tenant name range rows h = subst AreRows (ok-injective h) (
      rows-AreRows name range (query (run empty calls) tenant name range).1
        (run-query calls tenant name range are).1)
