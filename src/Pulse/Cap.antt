-- ===== src/Pulse/Cap.antt =====
-- crates/pulse/src/store.rs: the cap on the series of a tenant.
use kaleidoscope.Prelude.{
  ℕ, ◌+◌, ◌≤◌, ◌≡◌, refl, sym, ap, ◌∙◌, subst, length, Bool-cases, false, List, [], ◌∷◌,
  if◌then◌else◌, ◌==◌, string_key, eq_iff, arith, inl, inr,
}
use kaleidoscope.Prelude.Map.{get, contains_key, insert, get-insert, contains_key-get}
use kaleidoscope.Sluice.Types.{TenantId}
use kaleidoscope.Pulse.Types.{Metric, StoreKey, store_key}
use kaleidoscope.Pulse.Sums.{sum_over, sum_over-insert}
use kaleidoscope.Pulse.Store.{
  max_series_per_tenant, empty, IngestReceipt, series_key, SeriesEntry, InnerState,
  InMemoryMetricStore, count_of, or_new, refreshed, store_metric, count_series, is_refused, counted,
  ingest_loop, ingest,
}

-- One for each key of the tenant.
abbrev of_tenant : {F : Type 0} → TenantId → StoreKey → SeriesEntry F → ℕ
of_tenant tenant key entry = if key.0 == tenant then 1 else 0

abbrev pub series_count : {F : Type 0} → InnerState F → TenantId → ℕ
series_count state tenant = sum_over (of_tenant tenant) state.series

-- The shadow counter of a tenant is the number of its series, which is at most the cap.
pub record IsCapped {F : Type 0} (state : InnerState F) : Type 0 where
  pub counts :
      (tenant : TenantId) → count_of (get state.tenant_counts tenant) ≡ series_count state tenant
  pub capped : (tenant : TenantId) → series_count state tenant ≤ max_series_per_tenant

module _ {F : Type 0} (state : InnerState F) (tenant : TenantId) (metric : Metric F) where
  key : StoreKey
  key = (tenant, series_key metric)

  new_for : TenantId → ℕ
  new_for other = if contains_key state.series key then 0 else if tenant == other then 1 else 0

  -- The number of series after a write: one more if the key is new.
  sum-insert :
      (entry : SeriesEntry F) (other : TenantId)
      → sum_over (of_tenant other) (insert state.series key entry)
        ≡ series_count state other + new_for other
  unfolding key new_for
  sum-insert entry other = ground (
    arith,
    sum_over-insert (of_tenant other) state.series key entry,
    contains_key-get state.series key,
  )

  pub counted-series : (counted state tenant metric).series ≡ state.series
  unfolding counted count_series
  counted-series = ground arith

  counted-counts :
      (other : TenantId)
      → count_of (get (counted state tenant metric).tenant_counts other)
        ≡ count_of (get state.tenant_counts other) + new_for other
  unfolding counted count_series count_of new_for key
  counted-counts other = ground (
    arith,
    eq_iff tenant other,
    get-insert state.tenant_counts tenant (count_of (get state.tenant_counts tenant) + 1) other,
  )

  stored-count :
      (other : TenantId)
      → series_count (store_metric (counted state tenant metric) tenant metric) other
        ≡ series_count state other + new_for other
  unfolding store_metric key
  stored-count other =
      ap
        (λ m.
          sum_over (of_tenant other) (insert m key (refreshed (or_new (get m key) metric) metric)))
        counted-series
      ∙ sum-insert (refreshed (or_new (get state.series key) metric) metric) other

  -- A metric that is not refused adds a series only below the cap.
  room :
      (other : TenantId)
      → IsCapped state
      → is_refused state tenant metric ≡ false
      → series_count state other + new_for other ≤ max_series_per_tenant
  unfolding is_refused new_for key
  room other h accepted = ground (arith, eq_iff tenant other, h.counts tenant, h.capped other)

  stored-IsCapped :
      IsCapped state
      → is_refused state tenant metric ≡ false
      → IsCapped (store_metric (counted state tenant metric) tenant metric)
  unfolding store_metric
  stored-IsCapped h accepted = record {
    counts = λ other.
        counted-counts other
        ∙ ap (λ n. n + new_for other) (h.counts other)
        ∙ sym (stored-count other);
    capped = λ other.
        subst (λ n. n ≤ max_series_per_tenant) (sym (stored-count other)) (room other h accepted);
  }

module _ {F : Type 0} (tenant : TenantId) where
  pub ingest_loop-IsCapped :
      (state : InnerState F) (receipt : IngestReceipt) (metrics : List (Metric F))
      → IsCapped state
      → IsCapped (ingest_loop state tenant receipt metrics).0
  unfolding ingest_loop
  ingest_loop-IsCapped state receipt [] h = h
  ingest_loop-IsCapped state receipt (metric ∷ metrics) h =
      elim (Bool-cases (is_refused state tenant metric)) [
        | inl e ↦ rw e (
            ingest_loop-IsCapped state (record receipt { refused = receipt.refused + 1 }) metrics h)
        | inr e ↦ rw e (
            ingest_loop-IsCapped (store_metric (counted state tenant metric) tenant metric)
              (record receipt { count = receipt.count + length metric.points }) metrics
              (stored-IsCapped state tenant metric h e))
      ]

-- The calls of `ingest`, each with its tenant and its batch.
abbrev pub run :
    {F : Type 0} → InMemoryMetricStore F → List (TenantId × List (Metric F)) → InMemoryMetricStore F
run store [] = store
run store ((tenant, metrics) ∷ calls) = run (ingest store tenant metrics).0 calls

run_from-IsCapped :
    {F : Type 0} (store : InMemoryMetricStore F) (calls : List (TenantId × List (Metric F)))
    → IsCapped store.state
    → IsCapped (run store calls).state
unfolding ingest
run_from-IsCapped store [] h = h
run_from-IsCapped store ((tenant, metrics) ∷ calls) h =
    run_from-IsCapped (ingest store tenant metrics).0 calls
      (ingest_loop-IsCapped tenant store.state (record { count = 0; refused = 0 }) metrics h)

-- After any calls of `ingest` on a new store, for every tenant: the shadow counter is the number of series that the
-- store holds for it, and that is at most 10000.
pub run-IsCapped :
    {F : Type 0} (calls : List (TenantId × List (Metric F))) → IsCapped (run empty calls).state
run-IsCapped calls = run_from-IsCapped empty calls (record {
  counts = λ tenant. unfold get count_of sum_over in refl;
  capped = λ tenant. unfold sum_over in omega arith;
})
