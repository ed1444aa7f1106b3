-- ===== src/Pulse/Store.antt =====
-- crates/pulse/src/store.rs: `InMemoryMetricStore`. A call returns the new state, with the calls of the recorder
-- behind the earlier ones. A count of points or series in memory is below 2 ^ 64 and does not wrap.
use kaleidoscope.Prelude.{
  ℕ, ◌+◌, Bool, false, ◌&&◌, Option, none, some, List, [], ◌∷◌, ◌++◌, length, leb, ltb,
  if◌then◌else◌, ◌==◌, string_key,
}
use kaleidoscope.Prelude.Map.{Map, get, contains_key, insert}
use kaleidoscope.Prelude.Order.{nat_order, list_order, pair_order}
use kaleidoscope.Sluice.Types.{TenantId}
use kaleidoscope.Pulse.Types.{
  MetricName, Metric, MetricPoint, TimeRange, contains, same_text, SeriesKey, StoreKey, store_key,
}
use kaleidoscope.Pulse.Predicate.{Predicate, matches}

abbrev pub max_series_per_tenant : ℕ
max_series_per_tenant = 10000

pub data RecordedEvent : Type 0 where
  ingested : TenantId → ℕ → RecordedEvent
  queried : TenantId → ℕ → RecordedEvent
  series_refused : TenantId → ℕ → RecordedEvent

pub record IngestReceipt : Type 0 where
  pub count : ℕ
  pub refused : ℕ

module _ {F : Type 0} where
  unfoldable pub series_key : Metric F → SeriesKey
  series_key metric = (metric.name, metric.resource_attributes)

pub record SeriesEntry (F : Type 0) : Type 0 where
  pub metric : Metric F
  pub points : List (MetricPoint F)

pub record InnerState (F : Type 0) : Type 0 where
  pub series : Map StoreKey (SeriesEntry F)
  pub tenant_counts : Map TenantId ℕ

pub record InMemoryMetricStore (F : Type 0) : Type 0 where
  pub state : InnerState F
  pub recorder : List RecordedEvent

unfoldable pub count_of : Option ℕ → ℕ
count_of none = 0
count_of (some n) = n

abbrev pub refusal_events : TenantId → ℕ → List RecordedEvent
refusal_events tenant refused = if ltb 0 refused then series_refused tenant refused ∷ [] else []

module _ {F : Type 0} where
  abbrev pub empty : InMemoryMetricStore F
  empty = record { state = record { series = []; tenant_counts = [] }; recorder = [] }

  -- `sort_by_key`, which is stable: a point goes before the later ones with its time.
  unfoldable pub place : MetricPoint F → List (MetricPoint F) → List (MetricPoint F)
  place p [] = p ∷ []
  place p (q ∷ qs) = if leb p.time_unix_nano q.time_unix_nano then p ∷ q ∷ qs else q ∷ place p qs

  unfoldable pub sort : List (MetricPoint F) → List (MetricPoint F)
  unfolding place
  sort [] = []
  sort (p ∷ ps) = place p (sort ps)

  unfoldable pub or_new : Option (SeriesEntry F) → Metric F → SeriesEntry F
  or_new none metric = record { metric = record metric { points = [] }; points = [] }
  or_new (some entry) metric = entry

  -- The entry with the metadata and the points of the metric.
  unfoldable pub refreshed : SeriesEntry F → Metric F → SeriesEntry F
  unfolding sort
  refreshed entry metric = record {
    metric = record (entry.metric) {
      description = metric.description;
      unit = metric.unit;
      kind = metric.kind;
    };
    points = sort (entry.points ++ metric.points);
  }

  unfoldable pub store_metric : InnerState F → TenantId → Metric F → InnerState F
  unfolding or_new refreshed series_key
  store_metric state tenant metric = record state {
    series =
        insert state.series (tenant, series_key metric)
          (refreshed (or_new (get state.series (tenant, series_key metric)) metric) metric);
  }

  unfoldable pub count_series : InnerState F → TenantId → InnerState F
  unfolding count_of
  count_series state tenant = record state {
    tenant_counts =
        insert state.tenant_counts tenant (count_of (get state.tenant_counts tenant) + 1);
  }

  -- Whether a metric is a new series over the cap.
  unfoldable pub is_refused : InnerState F → TenantId → Metric F → Bool
  unfolding count_of series_key
  is_refused state tenant metric =
      if contains_key state.series (tenant, series_key metric)
      then false
      else leb max_series_per_tenant (count_of (get state.tenant_counts tenant))

  -- The state in which the metric is stored: a new series is counted.
  unfoldable pub counted : InnerState F → TenantId → Metric F → InnerState F
  unfolding count_series series_key
  counted state tenant metric =
      if contains_key state.series (tenant, series_key metric)
      then state
      else count_series state tenant

  -- The loop over the batch, with its two counts.
  unfoldable pub ingest_loop :
      InnerState F → TenantId → IngestReceipt → List (Metric F) → InnerState F × IngestReceipt
  ingest_loop state tenant receipt [] = (state, receipt)
  ingest_loop state tenant receipt (metric ∷ metrics) =
      let skipped =
        ingest_loop state tenant (record receipt { refused = receipt.refused + 1 }) metrics in
      let stored =
        ingest_loop (store_metric (counted state tenant metric) tenant metric) tenant
          (record receipt { count = receipt.count + length metric.points }) metrics in
      if is_refused state tenant metric then skipped else stored

  unfoldable pub ingest :
      InMemoryMetricStore F → TenantId → List (Metric F) → InMemoryMetricStore F × IngestReceipt
  ingest store tenant metrics =
      let (state, receipt) =
        ingest_loop store.state tenant (record { count = 0; refused = 0 }) metrics in
      (
        record {
          state = state;
          recorder =
              store.recorder
              ++ (ingested tenant receipt.count ∷ refusal_events tenant receipt.refused);
        },
        receipt,
      )

  -- The points of an entry that a test selects, each with the metric.
  unfoldable pub select :
      (MetricPoint F → Bool) → Metric F → List (MetricPoint F) → List (Metric F × MetricPoint F)
  select test metric [] = []
  select test metric (p ∷ ps) =
      let rest = select test metric ps in if test p then (metric, p) ∷ rest else rest

  unfoldable pub rows_of :
      TenantId
      → MetricName
      → (Metric F → MetricPoint F → Bool)
      → Map StoreKey (SeriesEntry F)
      → List (Metric F × MetricPoint F)
  unfolding select same_text
  rows_of tenant metric_name test [] = []
  rows_of tenant metric_name test ((key, entry) ∷ series) =
      let rest = rows_of tenant metric_name test series in
      if (key.0 == tenant) && same_text (key.1.0) metric_name
      then select (test entry.metric) entry.metric entry.points ++ rest
      else rest

  unfoldable pub query :
      InMemoryMetricStore F
      → TenantId
      → MetricName
      → TimeRange
      → InMemoryMetricStore F × List (Metric F × MetricPoint F)
  unfolding contains
  query store tenant metric_name range =
      let rows =
        rows_of tenant metric_name (λ metric p. contains range p.time_unix_nano)
          store.state.series in
      (record store { recorder = store.recorder ++ queried tenant (length rows) ∷ [] }, rows)

  unfoldable pub query_with :
      InMemoryMetricStore F
      → TenantId
      → MetricName
      → TimeRange
      → Predicate
      → InMemoryMetricStore F × List (Metric F × MetricPoint F)
  unfolding contains matches
  query_with store tenant metric_name range predicate =
      let rows =
        rows_of tenant metric_name
          (λ metric p. contains range p.time_unix_nano && matches predicate metric p)
          store.state.series in
      (record store { recorder = store.recorder ++ queried tenant (length rows) ∷ [] }, rows)
