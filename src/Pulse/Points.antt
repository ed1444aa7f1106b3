-- ===== src/Pulse/Points.antt =====
-- crates/pulse/src/store.rs: what a query finds of what was ingested.
use kaleidoscope.Prelude.{
  ℕ, ◌+◌, ◌≤◌, ◌≡◌, refl, sym, ap, ◌∙◌, Bool, Bool-cases, ◌&&◌, Option, none, some, List, [], ◌∷◌,
  ◌++◌, length, if◌then◌else◌, ◌==◌, string_key, arith, inl, inr,
}
use kaleidoscope.Prelude.Map.{Map, get, insert}
use kaleidoscope.Sluice.Types.{TenantId}
use kaleidoscope.Pulse.Types.{
  Metric, MetricPoint, MetricName, TimeRange, contains, same_text, StoreKey, store_key,
}
use kaleidoscope.Pulse.Sums.{at_entry, sum_over, sum_over-insert}
use kaleidoscope.Pulse.Cap.{counted-series}
use kaleidoscope.Pulse.Store.{
  IngestReceipt, series_key, SeriesEntry, InnerState, InMemoryMetricStore, place, sort, or_new,
  refreshed, store_metric, is_refused, counted, ingest_loop, ingest, select, rows_of, query,
}

module _ {F : Type 0} (measure : MetricPoint F → ℕ) where
  abbrev pub points_sum : List (MetricPoint F) → ℕ
  points_sum [] = 0
  points_sum (p ∷ ps) = measure p + points_sum ps

  abbrev pub rows_sum : List (Metric F × MetricPoint F) → ℕ
  rows_sum [] = 0
  rows_sum ((metric, p) ∷ rows) = measure p + rows_sum rows

  rows_sum-append :
      (xs ys : List (Metric F × MetricPoint F)) → rows_sum (xs ++ ys) ≡ rows_sum xs + rows_sum ys
  rows_sum-append [] ys = omega arith
  rows_sum-append ((metric, p) ∷ xs) ys = omega (arith, rows_sum-append xs ys)

-- A point counts if it is in the range.
abbrev in_range : {F : Type 0} → (MetricPoint F → ℕ) → TimeRange → MetricPoint F → ℕ
in_range measure range p = if contains range p.time_unix_nano then measure p else 0

module _ {F : Type 0} (measure : MetricPoint F → ℕ) where
  points_sum-append :
      (xs ys : List (MetricPoint F))
      → points_sum measure (xs ++ ys) ≡ points_sum measure xs + points_sum measure ys
  points_sum-append [] ys = omega arith
  points_sum-append (x ∷ xs) ys = omega (arith, points_sum-append xs ys)

  points_sum-place :
      (p : MetricPoint F) (ps : List (MetricPoint F))
      → points_sum measure (place p ps) ≡ measure p + points_sum measure ps
  unfolding place
  points_sum-place p [] = refl
  points_sum-place p (q ∷ qs) = ground (arith, points_sum-place p qs)

  points_sum-sort :
      (ps : List (MetricPoint F)) → points_sum measure (sort ps) ≡ points_sum measure ps
  unfolding sort
  points_sum-sort [] = refl
  points_sum-sort (p ∷ ps) = omega (arith, points_sum-place p (sort ps), points_sum-sort ps)

module _ {F : Type 0} (measure : MetricPoint F → ℕ) (tenant : TenantId) (name : MetricName)
    (range : TimeRange) where
  abbrev is_asked : StoreKey → Bool
  is_asked key = (key.0 == tenant) && same_text key.1.0 name

  -- What an entry adds to a query.
  abbrev share : StoreKey → SeriesEntry F → ℕ
  share key entry = if is_asked key then points_sum (in_range measure range) entry.points else 0

  select-sum :
      (metric : Metric F) (ps : List (MetricPoint F))
      → rows_sum measure (select (λ p. contains range p.time_unix_nano) metric ps)
        ≡ points_sum (in_range measure range) ps
  unfolding select
  select-sum metric [] = refl
  select-sum metric (p ∷ ps) = ground (arith, select-sum metric ps)

  rows_of-sum :
      (series : Map StoreKey (SeriesEntry F))
      → rows_sum measure (rows_of tenant name (λ metric p. contains range p.time_unix_nano) series)
        ≡ sum_over share series
  unfolding rows_of sum_over
  rows_of-sum [] = refl
  rows_of-sum ((key, entry) ∷ series) = ground (
    arith,
    rows_of-sum series,
    select-sum entry.metric entry.points,
    rows_sum-append measure
        (select (λ p. contains range p.time_unix_nano) entry.metric entry.points)
        (rows_of tenant name (λ metric p. contains range p.time_unix_nano) series),
  )

  -- What a batch for a tenant adds.
  abbrev pub batch_sum : TenantId → List (Metric F) → ℕ
  batch_sum other [] = 0
  batch_sum other (metric ∷ metrics) =
      (if (other == tenant) && same_text metric.name name
        then points_sum (in_range measure range) metric.points
        else 0)
      + batch_sum other metrics

  -- The share of an entry that is written.
  refreshed-share :
      (key : StoreKey) (o : Option (SeriesEntry F)) (metric : Metric F)
      → share key (refreshed (or_new o metric) metric)
        ≡ at_entry (share key) o
          + (if is_asked key then points_sum (in_range measure range) metric.points else 0)
  unfolding refreshed or_new
  refreshed-share key none metric =
      ground (arith, points_sum-sort (in_range measure range) metric.points)
  refreshed-share key (some entry) metric = ground (
    arith,
    points_sum-sort (in_range measure range) (entry.points ++ metric.points),
    points_sum-append (in_range measure range) entry.points metric.points,
  )

  stored-sum :
      (state : InnerState F) (other : TenantId) (metric : Metric F)
      → sum_over share (store_metric (counted state other metric) other metric).series
        ≡ sum_over share state.series
          + (if (other == tenant) && same_text metric.name name
              then points_sum (in_range measure range) metric.points
              else 0)
  unfolding store_metric series_key
  stored-sum state other metric =
      let key : StoreKey = (other, (metric.name, metric.resource_attributes)) in
      let written =
        λ (m : Map StoreKey (SeriesEntry F)). refreshed (or_new (get m key) metric) metric in
      ap (λ m. sum_over share (insert m key (written m))) (counted-series state other metric)
      ∙ omega (
        arith,
        sum_over-insert share state.series key (written state.series),
        refreshed-share key (get state.series key) metric,
      )

  refused_mono :
      (state : InnerState F) (other : TenantId) (receipt : IngestReceipt)
      (metrics : List (Metric F))
      → receipt.refused ≤ (ingest_loop state other receipt metrics).1.refused
  unfolding ingest_loop
  refused_mono state other receipt [] = omega arith
  refused_mono state other receipt (metric ∷ metrics) =
      elim (Bool-cases (is_refused state other metric)) [
        | inl e ↦ rw e (
            omega (
              arith,
              refused_mono state other (record receipt { refused = receipt.refused + 1 }) metrics,
            ))
        | inr e ↦ rw e (
            refused_mono (store_metric (counted state other metric) other metric) other
              (record receipt { count = receipt.count + length metric.points }) metrics)
      ]

  loop-sum :
      (state : InnerState F) (other : TenantId) (receipt : IngestReceipt)
      (metrics : List (Metric F))
      → (ingest_loop state other receipt metrics).1.refused ≡ receipt.refused
      → sum_over share (ingest_loop state other receipt metrics).0.series
        ≡ sum_over share state.series + batch_sum other metrics
  unfolding ingest_loop
  loop-sum state other receipt [] h = omega arith
  loop-sum state other receipt (metric ∷ metrics) h =
      elim (Bool-cases (is_refused state other metric)) [
        | inl e ↦ absurd (
            omega (
              arith,
              refused_mono state other (record receipt { refused = receipt.refused + 1 }) metrics,
              rw e at h,
            ))
        | inr e ↦
            let stored = store_metric (counted state other metric) other metric in
            rw e (
              omega (
                arith,
                loop-sum stored other
                    (record receipt { count = receipt.count + length metric.points }) metrics
                    (rw e at h),
                stored-sum state other metric,
              ))
      ]

  -- A batch of which no series is refused: what a query then finds, by any measure of points, is what it found before
  -- and the points of the batch that are in its range, of the metrics with its name, if the batch is for its tenant.
  pub query-ingest :
      (store : InMemoryMetricStore F) (other : TenantId) (metrics : List (Metric F))
      → (ingest store other metrics).1.refused ≡ 0
      → rows_sum measure (query (ingest store other metrics).0 tenant name range).1
        ≡ rows_sum measure (query store tenant name range).1 + batch_sum other metrics
  unfolding query ingest
  query-ingest store other metrics h =
      let loop = ingest_loop store.state other (record { count = 0; refused = 0 }) metrics in
      rows_of-sum loop.0.series
      ∙ loop-sum store.state other (record { count = 0; refused = 0 }) metrics h
      ∙ ap (λ n. n + batch_sum other metrics) (sym (rows_of-sum store.state.series))
