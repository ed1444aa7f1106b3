-- ===== src/QueryApi/Handler/Reads.antt =====
-- crates/query-api/src/lib.rs: what `handle_query_range` reads of the store, and for whom.
use kaleidoscope.Prelude.{
  ℕ, ◌+◌, ◌-◌, ◌*◌, ◌≤◌, ◌≡◌, refl, subst, String, Bool-cases, Option, none, some, List, [], ◌∷◌,
  Result, ok, err, ltb, All, inl, inr, arith,
}
use kaleidoscope.Sluice.Types.{TenantId}
use kaleidoscope.Aegis.Validator.{Validator, Decision}
use kaleidoscope.QueryHttp.Responses.{max_window_seconds}
use kaleidoscope.QueryHttp.Bearer.{Header}
use kaleidoscope.QueryHttp.Tenant.{Resolved, resolve_request_tenant_or_refuse}
use kaleidoscope.QueryHttp.Scope.{IsScopedTo, resolve_request_tenant_or_refuse-IsScopedTo}
use kaleidoscope.QueryHttp.TimeRange.{Numbers, parse_time_range}
use kaleidoscope.QueryHttp.TimeRange as Http
use kaleidoscope.Pulse.Types.{Chars, Metric, MetricPoint, TimeRange}
use kaleidoscope.QueryApi.Selector.Parser.{Selector, ParseError, parse}
use kaleidoscope.QueryApi.Matrix.Series.{Floats, PromMatrixEntry}
use kaleidoscope.QueryApi.Matrix.Filter.{Regexes, CompiledMatcher, build_filter}
use kaleidoscope.QueryApi.Handler.{
  MetricStore, QueryRangeParams, Read, Outcome, Answer, seconds_to_nanos, refuse, retain,
  after_retain, after_query, after_filter, after_selector, after_range, after_tenant,
  handle_query_range,
}

-- A predicate of every read.
abbrev Reading : (Read → Type 0) → Answer → Type 0
Reading P none = Unit
Reading P (some out) = All P out.reads

-- Whoever is read, and a day at most.
abbrev pub IsDay : TimeRange → Type 0
IsDay range = range.end_unix_nano ≤ range.start_unix_nano + 86400 * 1000000000

nanos-IsDay :
    (a b : ℕ)
    → b - a ≤ 86400
    → IsDay (record { start_unix_nano = seconds_to_nanos a; end_unix_nano = seconds_to_nanos b })
unfolding seconds_to_nanos
nanos-IsDay a b h = ground arith

module _ {F : Type 0} (floats : Floats F) (regexes : Regexes) (numbers : Numbers)
    (store : MetricStore F) (lines : List Decision) (tenant : TenantId) (P : Read → Type 0) where
  retained :
      (reads : List Read) (o : Option (List (Metric F × MetricPoint F)))
      → All P reads
      → Reading P (after_retain floats regexes numbers store lines reads o)
  unfolding after_retain refuse
  retained reads none h = tt
  retained reads (some kept) h = ground (arith)

  queried :
      (reads : List Read) (filter : List (CompiledMatcher regexes))
      (r : Result (List (Metric F × MetricPoint F)) String)
      → All P reads
      → Reading P (after_query floats regexes numbers store lines reads filter r)
  unfolding after_query refuse
  queried reads filter (ok rows) h =
      retained reads (retain floats regexes numbers store filter rows) h
  queried reads filter (err e) h = h

  filtered :
      (range : TimeRange) (name : Chars) (r : Result (List (CompiledMatcher regexes)) String)
      → P (tenant, name, range)
      → Reading P (after_filter floats regexes numbers store lines tenant range name r)
  unfolding after_filter refuse
  filtered range name (err reason) h = tt
  filtered range name (ok filter) h =
      queried ((tenant, name, range) ∷ []) filter (store.query tenant name range) (h, tt)

  selected :
      (range : TimeRange) (r : Option (Result Selector ParseError))
      → ((name : Chars) → P (tenant, name, range))
      → Reading P (after_selector floats regexes numbers store lines tenant range r)
  unfolding after_selector refuse
  selected range none h = tt
  selected range (some (err e)) h = tt
  selected range (some (ok selector)) h =
      filtered range selector.name (build_filter regexes selector.matchers) (h selector.name)

  ranged :
      (query : Chars) (r : Result Http.TimeRange String)
      → ((name : Chars) (range : TimeRange) → IsDay range → P (tenant, name, range))
      → Reading P (after_range floats regexes numbers store lines tenant query r)
  unfolding after_range refuse
  ranged query (err reason) h = tt
  ranged query (ok tr) h =
      elim (Bool-cases (ltb max_window_seconds (tr.end_secs - tr.start_secs))) [
        | inl e ↦ rw e tt
        | inr e ↦
            let range : TimeRange = record {
              start_unix_nano = seconds_to_nanos tr.start_secs;
              end_unix_nano = seconds_to_nanos tr.end_secs;
            } in
            let day = nanos-IsDay tr.start_secs tr.end_secs (ground arith) in
            rw e (selected range (parse query) (λ name. h name range day))
      ]

module _ {F : Type 0} (floats : Floats F) (regexes : Regexes) (numbers : Numbers)
    (store : MetricStore F) where
  tenanted :
      (params : QueryRangeParams) (lines : List Decision) (r : Resolved (List PromMatrixEntry))
      (P : Read → Type 0)
      → ((tenant : TenantId)
          → r ≡ ok tenant
          → (name : Chars) (range : TimeRange) → IsDay range
          → P (tenant, name, range))
      → Reading P (after_tenant floats regexes numbers store params lines r)
  unfolding after_tenant
  tenanted params lines (err response) P h = tt
  tenanted params lines (ok tenant) P h =
      ranged floats regexes numbers store lines tenant P params.query
        (parse_time_range numbers params.from params.to) (h tenant refl)

  -- On a server with a validator, whatever tenant its environment names and whatever the request asks for: every read
  -- of the store is for a tenant that the token of the request entitles it to, and for a day at most.
  pub handle_query_range-IsScopedTo :
      (v : Validator) (env_tenant : Option TenantId) (authorization : Option Header)
      (now : Option ℕ) (params : QueryRangeParams) (out : Outcome (List PromMatrixEntry))
      → handle_query_range floats regexes numbers store (some v) env_tenant authorization now params
        ≡ some out
      → All (λ read. IsScopedTo v authorization now read.0 × IsDay read.2) out.reads
  unfolding handle_query_range
  handle_query_range-IsScopedTo v env_tenant authorization now params out h =
      subst (Reading (λ read. IsScopedTo v authorization now read.0 × IsDay read.2)) h (
        tenanted params
          (resolve_request_tenant_or_refuse {A = List PromMatrixEntry} (some v) authorization
            env_tenant "the query" "query_range" now).0
          (resolve_request_tenant_or_refuse (some v) authorization env_tenant "the query"
            "query_range" now).1
          (λ read. IsScopedTo v authorization now read.0 × IsDay read.2)
          λ tenant given name range day. (
            (resolve_request_tenant_or_refuse-IsScopedTo v authorization env_tenant "the query"
                  "query_range" now tenant).0.0
                given,
            day,
          ))
