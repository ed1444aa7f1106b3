-- ===== src/QueryApi/Handler.antt =====
-- crates/query-api/src/lib.rs: `handle_query_range`. `none` stands for a panic of the filter or for fuel of the
-- parser that ran out. The outcome holds the lines of the log and the reads of the store besides the response.
pub mod Reads
pub mod Retained
pub mod Answers
use kaleidoscope.Prelude.{
  ℕ, ◌+◌, ◌-◌, ◌*◌, ◌≤◌, ◌≡◌, String, Bool, true, false, Option, none, some, List, [], ◌∷◌, Result,
  ok, err, ltb, leb, if◌then◌else◌, length,
}
use kaleidoscope.Sluice.Types.{TenantId}
use kaleidoscope.Aegis.Validator.{Validator, Decision}
use kaleidoscope.QueryHttp.Responses.{
  Response, Body, error_body, payload, error_response, bad_request, internal_server_error,
  max_window_seconds, max_result_rows, reason_window_too_large, reason_too_many_rows,
}
use kaleidoscope.QueryHttp.Bearer.{Header}
use kaleidoscope.QueryHttp.Tenant.{Resolved, resolve_request_tenant_or_refuse}
use kaleidoscope.QueryHttp.TimeRange.{Numbers, parse_time_range}
use kaleidoscope.QueryHttp.TimeRange as Http
use kaleidoscope.Pulse.Types.{Chars, Metric, MetricPoint, MetricName, TimeRange}
use kaleidoscope.QueryApi.Selector.Parser.{
  Selector, ParseError, expected_name, unsupported, section_not_closed, unrecognised_syntax,
  missing_label_name, not_quoted, literal_not_closed, bad_escape, parse,
}
use kaleidoscope.QueryApi.Matrix.Series.{Floats, PromMatrixEntry, to_matrix}
use kaleidoscope.QueryApi.Matrix.Filter.{Regexes, CompiledMatcher, build_filter, keep_row}

-- What the handler uses of the trait `MetricStore`.
pub record MetricStore (F : Type 0) : Type 0 where
  pub query : TenantId → MetricName → TimeRange → Result (List (Metric F × MetricPoint F)) String

pub record QueryRangeParams : Type 0 where
  pub query : Chars
  pub from : Header
  pub to : Header

abbrev pub Read : Type 0
Read = TenantId × MetricName × TimeRange

pub record Outcome (A : Type 0) : Type 0 where
  pub lines : List Decision
  pub reads : List Read
  pub response : Response A

unfoldable pub reason_text : ParseError → String
reason_text expected_name = "unsupported query: expected a bare metric name"
reason_text unsupported =
    "unsupported query: only a bare metric name with optional = / != label matchers is supported at v0 (range vectors, functions, aggregations, and operators are not yet supported)"
reason_text section_not_closed = "malformed query: the label matcher section is not closed"
reason_text unrecognised_syntax = "malformed query: unrecognised label matcher syntax"
reason_text missing_label_name = "malformed query: a matcher is missing its label name"
reason_text not_quoted = "malformed query: matcher values must be double-quoted"
reason_text literal_not_closed = "malformed query: a matcher string literal is not closed"
reason_text bad_escape = "malformed query: unrecognised string escape in a matcher value"

-- `seconds.saturating_mul(1_000_000_000)`
unfoldable pub seconds_to_nanos : ℕ → ℕ
seconds_to_nanos seconds =
    if leb (seconds * 1000000000) 18446744073709551615
    then seconds * 1000000000
    else 18446744073709551615

unfoldable pub refuse : {A : Type 0} → List Decision → List Read → ℕ → String → Option (Outcome A)
unfolding error_response
refuse lines reads status reason =
    some (record { lines = lines; reads = reads; response = error_response status reason })

abbrev pub Answer : Type 0
Answer = Option (Outcome (List PromMatrixEntry))

unfoldable pub success_response : List PromMatrixEntry → Response (List PromMatrixEntry)
success_response result = record { status = 200; www_authenticate = none; body = payload result }

module _ {F : Type 0} (floats : Floats F) (regexes : Regexes) (numbers : Numbers)
    (store : MetricStore F) where
  unfoldable pub keep_if :
      Option Bool
      → Metric F × MetricPoint F
      → Option (List (Metric F × MetricPoint F))
      → Option (List (Metric F × MetricPoint F))
  keep_if none row rest = none
  keep_if (some b) row none = none
  keep_if (some b) row (some rest) = some (if b then row ∷ rest else rest)

  -- `rows.retain(|(metric, point)| keep_row(metric, point, &filter))`
  unfoldable pub retain :
      List (CompiledMatcher regexes)
      → List (Metric F × MetricPoint F)
      → Option (List (Metric F × MetricPoint F))
  unfolding keep_if
  retain filter [] = some []
  retain filter ((metric, point) ∷ rows) =
      keep_if (keep_row regexes metric point filter) (metric, point) (retain filter rows)

  unfoldable pub after_retain :
      List Decision → List Read → Option (List (Metric F × MetricPoint F)) → Answer
  after_retain lines reads none = none
  after_retain lines reads (some kept) =
      if ltb max_result_rows (length (to_matrix floats kept))
      then refuse lines reads bad_request reason_too_many_rows
      else some (record {
        lines = lines;
        reads = reads;
        response = success_response (to_matrix floats kept);
      })

  unfoldable pub after_query :
      List Decision
      → List Read
      → List (CompiledMatcher regexes)
      → Result (List (Metric F × MetricPoint F)) String
      → Answer
  after_query lines reads filter (ok rows) = after_retain lines reads (retain filter rows)
  after_query lines reads filter (err e) =
      refuse lines reads internal_server_error "the backing metric store could not be read"

  unfoldable pub after_filter :
      List Decision
      → TenantId
      → TimeRange
      → MetricName
      → Result (List (CompiledMatcher regexes)) String
      → Answer
  after_filter lines tenant range name (err reason) = refuse lines [] bad_request reason
  after_filter lines tenant range name (ok filter) =
      after_query lines ((tenant, name, range) ∷ []) filter (store.query tenant name range)

  unfoldable pub after_selector :
      List Decision → TenantId → TimeRange → Option (Result Selector ParseError) → Answer
  after_selector lines tenant range none = none
  after_selector lines tenant range (some (err e)) = refuse lines [] bad_request (reason_text e)
  after_selector lines tenant range (some (ok selector)) =
      after_filter lines tenant range selector.name (build_filter regexes selector.matchers)

  unfoldable pub after_range :
      List Decision → TenantId → Chars → Result Http.TimeRange String → Answer
  after_range lines tenant query (err reason) = refuse lines [] bad_request reason
  after_range lines tenant query (ok tr) =
      if ltb max_window_seconds (tr.end_secs - tr.start_secs)
      then refuse lines [] bad_request reason_window_too_large
      else after_selector lines tenant
          (record {
            start_unix_nano = seconds_to_nanos tr.start_secs;
            end_unix_nano = seconds_to_nanos tr.end_secs;
          })
          (parse query)

  unfoldable pub after_tenant :
      QueryRangeParams → List Decision → Resolved (List PromMatrixEntry) → Answer
  after_tenant params lines (err response) =
      some (record { lines = lines; reads = []; response = response })
  after_tenant params lines (ok tenant) =
      after_range lines tenant params.query (parse_time_range numbers params.from params.to)

  unfoldable pub handle_query_range :
      Option Validator → Option TenantId → Option Header → Option ℕ → QueryRangeParams → Answer
  handle_query_range auth env_tenant authorization now params =
      let (lines, resolved) =
        resolve_request_tenant_or_refuse auth authorization env_tenant "the query" "query_range"
          now in
      after_tenant params lines resolved
