-- ===== src/Pulse/Examples.antt =====
-- crates/pulse/src/store.rs at the metrics of two services.
use kaleidoscope.Prelude.{ℕ, ◌+◌, ◌≡◌, refl, String, List, [], ◌∷◌, codes, All}
use kaleidoscope.Sluice.Types.{TenantId}
use kaleidoscope.Pulse.Types.{Metric}
use kaleidoscope.Pulse.Samples.{checkout, cart, minute}
use kaleidoscope.Pulse.Store.{empty, InMemoryMetricStore, ingest, query}
use kaleidoscope.Pulse.Cap.{IsCapped, run, run-IsCapped}
use kaleidoscope.Pulse.Points.{rows_sum, batch_sum, query-ingest}
use kaleidoscope.Pulse.Sorted.{IsChronological}
use kaleidoscope.Pulse.Ordered.{IsMetric, IsRowOf, run-query}

abbrev two_calls : List (TenantId × List (Metric ℕ))
two_calls = ("acme", checkout ∷ cart ∷ []) ∷ ("globex", cart ∷ []) ∷ []

run-IsCapped_example : IsCapped (run empty two_calls).state
run-IsCapped_example = run-IsCapped two_calls

all_stored : (ingest {F = ℕ} empty "acme" (checkout ∷ cart ∷ [])).1.refused ≡ 0
unfolding ingest kaleidoscope.Pulse.Store.ingest_loop kaleidoscope.Pulse.Store.is_refused
    kaleidoscope.Prelude.Map.contains_key kaleidoscope.Prelude.Map.get
    kaleidoscope.Pulse.Store.store_metric kaleidoscope.Prelude.Map.insert
    kaleidoscope.Pulse.Store.counted
all_stored = refl

query-ingest_example :
    rows_sum
      (λ p. p.value)
      (query (ingest empty "acme" (checkout ∷ cart ∷ [])).0 "acme" (codes "requests") minute).1
    ≡ rows_sum (λ p. p.value) (query {F = ℕ} empty "acme" (codes "requests") minute).1
      + batch_sum (λ p. p.value) "acme" (codes "requests") minute "acme" (checkout ∷ cart ∷ [])
query-ingest_example =
    query-ingest (λ p. p.value) "acme" (codes "requests") minute empty "acme" (checkout ∷ cart ∷ [])
      all_stored

checkout-IsMetric : IsMetric checkout
checkout-IsMetric = record { resource = (tt, tt); maps = ((tt, tt), ((tt, tt), tt)) }

cart-IsMetric : IsMetric cart
cart-IsMetric = record { resource = (tt, tt); maps = ((tt, tt), tt) }

run-query_example :
    All (λ s. IsChronological s.1.points) (run empty two_calls).state.series
    × All
        (IsRowOf (codes "requests") minute)
        (query (run empty two_calls) "acme" (codes "requests") minute).1
run-query_example =
    run-query two_calls "acme" (codes "requests") minute
      ((checkout-IsMetric, (cart-IsMetric, tt)), ((cart-IsMetric, tt), tt))
