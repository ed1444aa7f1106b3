-- ===== src/Pulse/Ordered.antt =====
-- crates/pulse/src/store.rs: what holds of the series and of the rows that a query gives.
use kaleidoscope.Prelude.{
  ℕ, ◌+◌, ◌≤◌, ◌<◌, ◌≡◌, refl, sym, ap, ◌∙◌, subst, Bool-cases, true, ◌&&◌, Option, none, some,
  List, [], ◌∷◌, ◌++◌, length, ◌==◌, string_key, arith, inl, inr, All, All-append,
}
use kaleidoscope.Prelude.Map.{Map, get, insert}
use kaleidoscope.Prelude.Order.{nat_order, list_order, pair_order, list_cmp-eq}
use kaleidoscope.Prelude.BTree.{IsAscending}
use kaleidoscope.Sluice.Types.{TenantId}
use kaleidoscope.Pulse.Types.{
  Metric, MetricPoint, MetricName, TimeRange, contains, same_text, StoreKey, store_key,
}
use kaleidoscope.Pulse.Cap.{counted-series, run}
use kaleidoscope.Pulse.Store.{
  empty, IngestReceipt, series_key, SeriesEntry, InnerState, InMemoryMetricStore, or_new, refreshed,
  store_metric, is_refused, counted, ingest_loop, ingest, select, rows_of, query,
}
use kaleidoscope.Pulse.Sorted.{IsChronological, sort-All, sort-IsChronological}

contains-within :
    (range : TimeRange) (t : ℕ)
    → contains range t ≡ true
    → (range.start_unix_nano ≤ t) × (t < range.end_unix_nano)
unfolding contains
contains-within range t h = ground arith

same_text_sound : (a b : MetricName) → same_text a b ≡ true → a ≡ b
unfolding same_text
same_text_sound a b h = ground (arith, list_cmp-eq a b)

asked_name :
    (key : StoreKey) (tenant : TenantId) (metric_name : MetricName)
    → ((key.0 == tenant) && same_text key.1.0 metric_name) ≡ true
    → key.1.0 ≡ metric_name
asked_name key tenant metric_name h = ground (arith, same_text_sound key.1.0 metric_name)

module _ {F : Type 0} where
  -- The attributes of a point are a map.
  abbrev pub HasMap : MetricPoint F → Type 0
  HasMap p = IsAscending p.attributes

  pub record IsMetric (metric : Metric F) : Type 0 where
    pub resource : IsAscending metric.resource_attributes
    pub maps : All HasMap metric.points

  -- An entry stands under its own key, and its points are in the order of their times.
  pub record IsSeries (key : StoreKey) (entry : SeriesEntry F) : Type 0 where
    pub keyed : key.1 ≡ (entry.metric.name, entry.metric.resource_attributes)
    pub resource : IsAscending entry.metric.resource_attributes
    pub maps : All HasMap entry.points
    pub chronological : IsChronological entry.points

  abbrev AreSeries : Map StoreKey (SeriesEntry F) → Type 0
  AreSeries = All (λ s. IsSeries s.0 s.1)

  insert-AreSeries :
      (m : Map StoreKey (SeriesEntry F)) (key : StoreKey) (entry : SeriesEntry F)
      → AreSeries m
      → IsSeries key entry
      → AreSeries (insert m key entry)
  unfolding insert
  insert-AreSeries [] key entry h s = (s, tt)
  insert-AreSeries ((j, w) ∷ m) key entry h s = elim (Bool-cases (j == key)) [
    | inl e ↦ rw e (subst (λ k. IsSeries k entry) (sym ((store_key.same_iff j key).0 e)) s, h.1)
    | inr e ↦ rw e (h.0, insert-AreSeries m key entry h.1 s)
  ]

  chronological :
      (m : Map StoreKey (SeriesEntry F)) → AreSeries m → All (λ s. IsChronological s.1.points) m
  chronological [] h = tt
  chronological ((j, w) ∷ m) h = (h.0.chronological, chronological m h.1)

  abbrev Fits : StoreKey → Option (SeriesEntry F) → Type 0
  Fits key none = Unit
  Fits key (some entry) = IsSeries key entry

  get-Fits :
      (m : Map StoreKey (SeriesEntry F)) (key : StoreKey) → AreSeries m → Fits key (get m key)
  unfolding get
  get-Fits [] key h = tt
  get-Fits ((j, w) ∷ m) key h = elim (Bool-cases (j == key)) [
    | inl e ↦ rw e (subst (λ k. IsSeries k w) ((store_key.same_iff j key).0 e) h.0)
    | inr e ↦ rw e (get-Fits m key h.1)
  ]

  refreshed-IsSeries :
      (o : Option (SeriesEntry F)) (tenant : TenantId) (metric : Metric F)
      → Fits (tenant, series_key metric) o
      → IsMetric metric
      → IsSeries (tenant, series_key metric) (refreshed (or_new o metric) metric)
  unfolding refreshed or_new series_key
  refreshed-IsSeries none tenant metric h is = record {
    keyed = refl;
    resource = is.resource;
    maps = sort-All HasMap metric.points is.maps;
    chronological = sort-IsChronological metric.points;
  }
  refreshed-IsSeries (some entry) tenant metric h is = record {
    keyed = h.keyed;
    resource = h.resource;
    maps =
        sort-All HasMap (entry.points ++ metric.points)
          (All-append HasMap entry.points metric.points h.maps is.maps);
    chronological = sort-IsChronological (entry.points ++ metric.points);
  }

  stored-AreSeries :
      (state : InnerState F) (tenant : TenantId) (metric : Metric F)
      → AreSeries state.series
      → IsMetric metric
      → AreSeries (store_metric (counted state tenant metric) tenant metric).series
  unfolding store_metric
  stored-AreSeries state tenant metric h is =
      let key : StoreKey = (tenant, series_key metric) in
      let series = (counted state tenant metric).series in
      let kept : AreSeries series = subst AreSeries (sym (counted-series state tenant metric)) h in
      insert-AreSeries series key (refreshed (or_new (get series key) metric) metric) kept
        (refreshed-IsSeries (get series key) tenant metric (get-Fits series key kept) is)

  ingest_loop-AreSeries :
      (state : InnerState F) (tenant : TenantId) (receipt : IngestReceipt)
      (metrics : List (Metric F))
      → AreSeries state.series
      → All IsMetric metrics
      → AreSeries (ingest_loop state tenant receipt metrics).0.series
  unfolding ingest_loop
  ingest_loop-AreSeries state tenant receipt [] h is = h
  ingest_loop-AreSeries state tenant receipt (metric ∷ metrics) h is =
      elim (Bool-cases (is_refused state tenant metric)) [
        | inl e ↦ rw e (
            ingest_loop-AreSeries state tenant (record receipt { refused = receipt.refused + 1 })
              metrics h is.1)
        | inr e ↦ rw e (
            ingest_loop-AreSeries (store_metric (counted state tenant metric) tenant metric) tenant
              (record receipt { count = receipt.count + length metric.points }) metrics
              (stored-AreSeries state tenant metric h is.0) is.1)
      ]

  run_from-AreSeries :
      (store : InMemoryMetricStore F) (calls : List (TenantId × List (Metric F)))
      → AreSeries store.state.series
      → All (λ call. All IsMetric call.1) calls
      → AreSeries (run store calls).state.series
  unfolding ingest
  run_from-AreSeries store [] h is = h
  run_from-AreSeries store ((tenant, metrics) ∷ calls) h is =
      run_from-AreSeries (ingest store tenant metrics).0 calls
        (ingest_loop-AreSeries store.state tenant (record { count = 0; refused = 0 }) metrics h
          is.0)
        is.1

  -- What a query of a store says of its rows.
  pub record IsRowOf (metric_name : MetricName) (range : TimeRange) (row : Metric F × MetricPoint F)
      : Type 0 where
    pub named : row.0.name ≡ metric_name
    pub resource_map : IsAscending row.0.resource_attributes
    pub point_map : IsAscending row.1.attributes
    pub within :
        (range.start_unix_nano ≤ row.1.time_unix_nano)
        × (row.1.time_unix_nano < range.end_unix_nano)

  select-IsRowOf :
      (metric_name : MetricName) (range : TimeRange) (metric : Metric F) (ps : List (MetricPoint F))
      → metric.name ≡ metric_name
      → IsAscending metric.resource_attributes
      → All HasMap ps
      → All (IsRowOf metric_name range) (select (λ p. contains range p.time_unix_nano) metric ps)
  unfolding select
  select-IsRowOf metric_name range metric [] named map maps = tt
  select-IsRowOf metric_name range metric (p ∷ ps) named map maps =
      let rest = select-IsRowOf metric_name range metric ps named map maps.1 in
      elim (Bool-cases (contains range p.time_unix_nano)) [
        | inl e ↦ rw e (
          record {
            named = named;
            resource_map = map;
            point_map = maps.0;
            within = contains-within range p.time_unix_nano e;
          },
          rest,
        )
        | inr e ↦ rw e rest
      ]

  pub rows_of-IsRowOf :
      (tenant : TenantId) (metric_name : MetricName) (range : TimeRange)
      (series : Map StoreKey (SeriesEntry F))
      → AreSeries series
      → All
          (IsRowOf metric_name range)
          (rows_of tenant metric_name (λ metric p. contains range p.time_unix_nano) series)
  unfolding rows_of
  rows_of-IsRowOf tenant metric_name range [] h = tt
  rows_of-IsRowOf tenant metric_name range ((key, entry) ∷ series) h =
      let rest = rows_of-IsRowOf tenant metric_name range series h.1 in
      elim (Bool-cases ((key.0 == tenant) && same_text key.1.0 metric_name)) [
        | inl e ↦ rw e (
            All-append (IsRowOf metric_name range)
              (select (λ p. contains range p.time_unix_nano) entry.metric entry.points)
              (rows_of tenant metric_name (λ metric p. contains range p.time_unix_nano) series)
              (select-IsRowOf metric_name range entry.metric entry.points
                (sym (ap (λ k. k.0) h.0.keyed) ∙ asked_name key tenant metric_name e) h.0.resource
                h.0.maps)
              rest)
        | inr e ↦ rw e rest
      ]

  -- After any calls of `ingest` on a new store, of metrics with maps of attributes: the points of every series are in
  -- the order of their times, and a query gives rows with the name and in the range that it asks for, with maps of
  -- attributes.
  pub run-query :
      (calls : List (TenantId × List (Metric F))) (tenant : TenantId) (metric_name : MetricName)
      (range : TimeRange)
      → All (λ call. All IsMetric call.1) calls
      → All (λ s. IsChronological s.1.points) (run empty calls).state.series
        × All (IsRowOf metric_name range) (query (run empty calls) tenant metric_name range).1
  unfolding query
  run-query calls tenant metric_name range is =
      let series = run_from-AreSeries empty calls tt is in
      (
        chronological (run empty calls).state.series series,
        rows_of-IsRowOf tenant metric_name range (run empty calls).state.series series,
      )
