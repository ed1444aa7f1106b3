-- ===== src/QueryApi/Handler/Answers.antt =====
-- crates/query-api/src/lib.rs: `handle_query_range` answers, and what its matrix shows.
use kaleidoscope.Prelude.{
  ℕ, ◌-◌, ◌^◌, ◌≤◌, ◌<◌, ◌≡◌, refl, sym, subst, String, Bool-cases, false, Option, some, List, [],
  ◌∷◌, Result, ok, err, ltb, length, inl, inr, arith,
}
use kaleidoscope.Sluice.Types.{TenantId}
use kaleidoscope.Aegis.Validator.{Validator, Decision}
use kaleidoscope.QueryHttp.Responses.{Response, payload, max_window_seconds, max_result_rows}
use kaleidoscope.QueryHttp.Scope.{IsRefusal, resolve_request-Refuses}
use kaleidoscope.QueryHttp.Bearer.{Header}
use kaleidoscope.QueryHttp.Tenant.{Resolved, resolve_request_tenant_or_refuse}
use kaleidoscope.QueryHttp.TimeRange.{Numbers, parse_time_range, parse_time_range-bounds}
use kaleidoscope.QueryHttp.TimeRange as Http
use kaleidoscope.Pulse.Types.{Chars, Metric, MetricPoint, TimeRange}
use kaleidoscope.QueryApi.Selector.Parser.{Selector, ParseError, parse}
use kaleidoscope.QueryApi.Selector.Grammar.{Selects}
use kaleidoscope.QueryApi.Selector.Grammatical.{parse-Selects, parse-ends}
use kaleidoscope.QueryApi.Matrix.Series.{Floats, PromMatrixEntry, to_matrix}
use kaleidoscope.QueryApi.Matrix.Filter.{Regexes, CompiledMatcher, build_filter}
use kaleidoscope.QueryApi.Handler.{
  MetricStore, QueryRangeParams, Read, Outcome, Answer, seconds_to_nanos, refuse, success_response,
  after_retain, after_query, after_filter, after_selector, after_range, after_tenant,
  handle_query_range,
}
use kaleidoscope.QueryApi.Handler.Retained.{Keeps, AreRows, retain-Keeps}

not_above : (a b : ℕ) → ltb a b ≡ false → b ≤ a
not_above a b h = ground arith

module _ {F : Type 0} (floats : Floats F) (regexes : Regexes) (numbers : Numbers)
    (store : MetricStore F) where
  -- An answer, with what its matrix shows if it has one.
  abbrev Replies : (List PromMatrixEntry → Type 0) → Answer → Type 0
  Replies Q answer =
      (out : Outcome (List PromMatrixEntry)) × (answer ≡ some out)
      × ((result : List PromMatrixEntry) → out.response.body ≡ payload result → Q result)

  refusal :
      (Q : List PromMatrixEntry → Type 0) (lines : List Decision) (reads : List Read) (status : ℕ)
      (reason : String)
      → Replies Q (refuse lines reads status reason)
  unfolding refuse
  refusal Q lines reads status reason = (_, refl, λ result h. cc h)

  -- What a matrix shows of a read of the store.
  pub record Shows (query : Chars) (tenant : TenantId) (tr : Http.TimeRange)
      (result : List PromMatrixEntry) : Type 0 where
    pub selector : Selector
    pub rows : List (Metric F × MetricPoint F)
    pub kept : List (Metric F × MetricPoint F)
    pub selects : Selects selector query
    pub within : tr.end_secs - tr.start_secs ≤ max_window_seconds
    pub read :
        store.query tenant selector.name (record {
          start_unix_nano = seconds_to_nanos tr.start_secs;
          end_unix_nano = seconds_to_nanos tr.end_secs;
        })
        ≡ ok rows
    pub filtered : Keeps regexes selector.matchers rows kept
    pub is_matrix : result ≡ to_matrix floats kept
    pub not_too_many : length result ≤ max_result_rows

  module _
      (are : (tenant : TenantId) (name : Chars) (range : TimeRange)
          (rows : List (Metric F × MetricPoint F))
        → store.query tenant name range ≡ ok rows
        → AreRows rows)
      (lines : List Decision) (query : Chars) (tenant : TenantId) (tr : Http.TimeRange) where
    range : TimeRange
    range = record {
      start_unix_nano = seconds_to_nanos tr.start_secs;
      end_unix_nano = seconds_to_nanos tr.end_secs;
    }

    reply :
        (selector : Selector) (rows kept : List (Metric F × MetricPoint F)) (reads : List Read)
        → Selects selector query
        → tr.end_secs - tr.start_secs ≤ max_window_seconds
        → store.query tenant selector.name range ≡ ok rows
        → Keeps regexes selector.matchers rows kept
        → Replies
            (Shows query tenant tr)
            (after_retain floats regexes numbers store lines reads (some kept))
    unfolding after_retain success_response range
    reply selector rows kept reads selects within read filtered =
        elim (Bool-cases (ltb max_result_rows (length (to_matrix floats kept)))) [
          | inl e ↦
              rw e (refusal (Shows query tenant tr) lines reads 400 "result exceeds 100000 rows")
          | inr e ↦ rw e (
            record {
              lines = lines;
              reads = reads;
              response = success_response (to_matrix floats kept);
            },
            refl,
            λ result h.
                let same : result ≡ to_matrix floats kept = cc h in
                record {
                  selector = selector;
                  rows = rows;
                  kept = kept;
                  selects = selects;
                  within = within;
                  read = read;
                  filtered = filtered;
                  is_matrix = same;
                  not_too_many =
                      subst (λ r. length r ≤ max_result_rows) (sym same)
                        (not_above max_result_rows (length (to_matrix floats kept)) e);
                },
          )
        ]

    reply_rows :
        (selector : Selector) (filter : List (CompiledMatcher regexes))
        (r : Result (List (Metric F × MetricPoint F)) String)
        → Selects selector query
        → tr.end_secs - tr.start_secs ≤ max_window_seconds
        → build_filter regexes selector.matchers ≡ ok filter
        → store.query tenant selector.name range ≡ r
        → Replies (Shows query tenant tr) (
            after_query floats regexes numbers store lines
              ((tenant, selector.name, range) ∷ [])
              filter
              r)
    unfolding after_query
    reply_rows selector filter (err e) selects within built read =
        refusal (Shows query tenant tr) lines ((tenant, selector.name, range) ∷ []) 500
          "the backing metric store could not be read"
    reply_rows selector filter (ok rows) selects within built read =
        let (kept, retained, filtered) =
          retain-Keeps floats regexes numbers store selector.matchers filter rows built
            (are tenant selector.name range rows read) in
        subst
          (λ o. Replies (Shows query tenant tr) (
            after_retain floats regexes numbers store lines ((tenant, selector.name, range) ∷ [])
              o))
          (sym retained)
          (reply selector rows kept ((tenant, selector.name, range) ∷ []) selects within read
            filtered)

    reply_filter :
        (selector : Selector) (r : Result (List (CompiledMatcher regexes)) String)
        → Selects selector query
        → tr.end_secs - tr.start_secs ≤ max_window_seconds
        → build_filter regexes selector.matchers ≡ r
        → Replies
            (Shows query tenant tr)
            (after_filter floats regexes numbers store lines tenant range selector.name r)
    unfolding after_filter
    reply_filter selector (err reason) selects within built =
        refusal (Shows query tenant tr) lines [] 400 reason
    reply_filter selector (ok filter) selects within built =
        reply_rows selector filter (store.query tenant selector.name range) selects within built
          refl

    reply_selector :
        (r : Result Selector ParseError)
        → tr.end_secs - tr.start_secs ≤ max_window_seconds
        → parse query ≡ some r
        → Replies
            (Shows query tenant tr)
            (after_selector floats regexes numbers store lines tenant range (some r))
    unfolding after_selector
    reply_selector (err e) within parsed = refusal (Shows query tenant tr) lines [] 400 _
    reply_selector (ok selector) within parsed =
        reply_filter selector (build_filter regexes selector.matchers)
          ((parse-Selects query selector).0 parsed) within refl

    reply_range :
        Replies
          (Shows query tenant tr)
          (after_range floats regexes numbers store lines tenant query (ok tr))
    unfolding after_range range
    reply_range = elim (Bool-cases (ltb max_window_seconds (tr.end_secs - tr.start_secs))) [
      | inl e ↦ rw e (refusal (Shows query tenant tr) lines [] 400 "window exceeds 86400 seconds")
      | inr e ↦
          let (r, parsed) = parse-ends query in
          rw (e, parsed)
            (reply_selector r (not_above max_window_seconds (tr.end_secs - tr.start_secs) e) parsed)
    ]

  -- What the matrix of a request shows.
  pub record IsShown (resolved : Resolved (List PromMatrixEntry)) (params : QueryRangeParams)
      (result : List PromMatrixEntry) : Type 0 where
    pub tenant : TenantId
    pub tr : Http.TimeRange
    pub is_tenant : resolved ≡ ok tenant
    pub is_range : parse_time_range numbers params.from params.to ≡ ok tr
    pub in_order : (tr.start_secs ≤ tr.end_secs) × (tr.end_secs < 2 ^ 64)
    pub shows : Shows params.query tenant tr result

  module _
      (are : (tenant : TenantId) (name : Chars) (range : TimeRange)
          (rows : List (Metric F × MetricPoint F))
        → store.query tenant name range ≡ ok rows
        → AreRows rows) where
    reply_params :
        (lines : List Decision) (params : QueryRangeParams) (tenant : TenantId)
        (r : Result Http.TimeRange String)
        → parse_time_range numbers params.from params.to ≡ r
        → Replies
            (IsShown (ok tenant) params)
            (after_range floats regexes numbers store lines tenant params.query r)
    unfolding after_range
    reply_params lines params tenant (err reason) e =
        refusal (IsShown (ok tenant) params) lines [] 400 reason
    reply_params lines params tenant (ok tr) e =
        let (out, answered, shown) = reply_range are lines params.query tenant tr in
        (
          out,
          answered,
          λ result h. record {
            tenant = tenant;
            tr = tr;
            is_tenant = refl;
            is_range = e;
            in_order = parse_time_range-bounds numbers params.from params.to tr e;
            shows = shown result h;
          },
        )

    reply_tenant :
        (lines : List Decision) (params : QueryRangeParams) (r : Resolved (List PromMatrixEntry))
        → ((response : Response (List PromMatrixEntry)) → r ≡ err response → IsRefusal response)
        → Replies (IsShown r params) (after_tenant floats regexes numbers store params lines r)
    unfolding after_tenant
    reply_tenant lines params (err response) refused =
        let (reason, is_refusal) = refused response refl in
        (
          record { lines = lines; reads = []; response = response },
          refl,
          λ result h. cc (h, is_refusal),
        )
    reply_tenant lines params (ok tenant) refused =
        reply_params lines params tenant (parse_time_range numbers params.from params.to) refl

    -- Of a store whose rows are metrics and points with maps of attributes: the handler answers every request, without
    -- a panic. If its answer has a matrix, the request has a tenant, a time range that is not inverted and is of a day at
    -- most, and a query that is the text of a selector; and the matrix is that of the rows which the store gives for this tenant, metric and
    -- range and which meet all the matchers of the selector, in their order, with 100000 series at most.
    pub handle_query_range-IsShown :
        (auth : Option Validator) (env_tenant : Option TenantId) (authorization : Option Header)
        (now : Option ℕ) (params : QueryRangeParams)
        → (out : Outcome (List PromMatrixEntry)) × (handle_query_range floats regexes numbers store
              auth env_tenant authorization now params
            ≡ some out)
          × ((result : List PromMatrixEntry)
              → out.response.body ≡ payload result
              → IsShown
                  (resolve_request_tenant_or_refuse auth authorization env_tenant "the query"
                    "query_range" now).1
                  params
                  result)
    unfolding handle_query_range
    handle_query_range-IsShown auth env_tenant authorization now params =
        reply_tenant
          (resolve_request_tenant_or_refuse {A = List PromMatrixEntry} auth authorization env_tenant
            "the query" "query_range" now).0
          params
          (resolve_request_tenant_or_refuse auth authorization env_tenant "the query" "query_range"
            now).1
          (resolve_request-Refuses (List PromMatrixEntry) auth authorization env_tenant "the query"
            "query_range" now)
