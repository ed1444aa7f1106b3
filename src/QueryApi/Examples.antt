-- ===== src/QueryApi/Examples.antt =====
-- A server of crates/query-api over the store of crates/pulse, and the theorems at one request.
use Prim.Native.Char.{code}
use kaleidoscope.Prelude.{
  ℕ, ◌+◌, ◌-◌, ◌*◌, ◌%◌, ◌^◌, ◌<◌, ◌≡◌, ◌↔◌, true, false, Option, none, some, List, [], ◌∷◌, Result,
  ok, codes, All, leb, if◌then◌else◌, ◌&&◌, arith,
}
use kaleidoscope.Prelude.Order.{nat_order, pair_order, list_order}
use kaleidoscope.Prelude.BTree.{find, IsAscending}
use kaleidoscope.Sluice.Types.{TenantId}
use kaleidoscope.Aegis.Validator.{ℤ, pos}
use kaleidoscope.Aegis.Samples.{gate}
use kaleidoscope.QueryHttp.Samples.{characters}
use kaleidoscope.QueryHttp.Bearer.{Header}
use kaleidoscope.QueryHttp.Responses.{payload}
use kaleidoscope.QueryHttp.Tenant.{resolve_request_tenant_or_refuse}
use kaleidoscope.QueryHttp.Scope.{IsScopedTo}
use kaleidoscope.QueryHttp.TimeRange.{Numbers}
use kaleidoscope.Pulse.Types.{Chars, Attributes, Metric, same_text}
use kaleidoscope.Pulse.Samples.{checkout, cart, point_at}
use kaleidoscope.Pulse.Ordered.{IsMetric}
use kaleidoscope.QueryApi.Selector.Parser.{MatchOp, Selector, ParseError, parse}
use kaleidoscope.QueryApi.Selector.Grammar.{Selects}
use kaleidoscope.QueryApi.Selector.Grammatical.{parse-Selects, parse-ends}
use kaleidoscope.QueryApi.Matrix.Series.{Floats, PromMatrixEntry, to_matrix}
use kaleidoscope.QueryApi.Matrix.Filter.{Regexes}
use kaleidoscope.QueryApi.Matrix.Grouped.{samples_of, SeriesIs, to_matrix-SeriesIs}
use kaleidoscope.QueryApi.Handler.{QueryRangeParams, Outcome, handle_query_range}
use kaleidoscope.QueryApi.Handler.Reads.{IsDay, handle_query_range-IsScopedTo}
use kaleidoscope.QueryApi.Handler.Answers.{IsShown, handle_query_range-IsShown}
use kaleidoscope.QueryApi.OverPulse.{after, after-AreRows}

abbrev text : Chars
text = codes " requests{ service.name=\"checkout\", code!~\"4..\", } "

abbrev selector : Selector
selector = record {
  name = codes "requests";
  matchers =
      record { name = codes "service.name"; op = MatchOp.equal; value = codes "checkout" }
      ∷ record { name = codes "code"; op = MatchOp.not_matches; value = codes "4.." }
      ∷ [];
}

parse-Selects_example : (parse text ≡ some (ok selector)) ↔ Selects selector text
parse-Selects_example = parse-Selects text selector

parse-ends_example : (r : Result Selector ParseError) × (parse text ≡ some r)
parse-ends_example = parse-ends text

-- Values are numbers, and a pattern matches itself.
abbrev plain : Floats ℕ
plain = record {
  is_nan = λ n. false;
  is_infinite = λ n. false;
  is_sign_positive = λ n. true;
  to_text = λ n. n ∷ [];
}

abbrev literal : Regexes
literal = record { Regex = Chars; compile = λ pattern. some pattern; is_match = same_text }

abbrev digits : ℕ → Header → Option ℕ
digits n [] = some n
digits n (c ∷ cs) =
    if leb b'0' (code c) && leb (code c) b'9' then digits (n * 10 + (code c - b'0')) cs else none

in_word : (n : ℕ) → n % 2 ^ 64 < 2 ^ 64
in_word n = omega arith

no_moment :
    (t : Header) (seconds : ℕ) → Path (Option ℤ) none (some (pos seconds)) → seconds < 2 ^ 63
no_moment t seconds h = cc

abbrev decimal : Numbers
decimal = record {
  Float = ℕ;
  parse_float = digits 0;
  is_finite = λ n. true;
  ge_zero = λ n. true;
  as_u64 = λ n. n % 2 ^ 64;
  as_u64_lt = in_word;
  parse_rfc3339 = λ t. none;
  rfc3339_lt = no_moment;
}

abbrev calls : List (TenantId × List (Metric ℕ))
calls = ("acme", checkout ∷ cart ∷ []) ∷ []

calls-IsMetric : All (λ call. All (IsMetric {F = ℕ}) call.1) calls
calls-IsMetric = (
  (
    record { resource = (tt, tt); maps = ((tt, tt), ((tt, tt), tt)) },
    (record { resource = (tt, tt); maps = ((tt, tt), tt) }, tt),
  ),
  tt,
)

abbrev header : Header
header = characters "Bearer token"

abbrev params : QueryRangeParams
params = record { query = text; from = characters "0"; to = characters "60" }

handle_query_range-IsShown_example :
    (out : Outcome (List PromMatrixEntry)) × (handle_query_range plain literal decimal
        (after calls)
        (some gate)
        none
        (some header)
        (some 99000000000)
        params
      ≡ some out)
    × ((result : List PromMatrixEntry)
        → out.response.body ≡ payload result
        → IsShown plain literal decimal
            (after calls)
            (resolve_request_tenant_or_refuse
              (some gate)
              (some header)
              none
              "the query"
              "query_range"
              (some 99000000000)).1
            params
            result)
handle_query_range-IsShown_example =
    handle_query_range-IsShown plain literal decimal (after calls)
      (after-AreRows calls calls-IsMetric) (some gate) none (some header) (some 99000000000) params

answered :
    (out : Outcome (List PromMatrixEntry)) × (handle_query_range plain literal decimal
        (after calls)
        (some gate)
        none
        (some header)
        (some 99000000000)
        params
      ≡ some out)
answered =
    let shown =
      handle_query_range-IsShown plain literal decimal (after calls)
        (after-AreRows calls calls-IsMetric) (some gate) none (some header) (some 99000000000)
        params in
    (shown.0, shown.1)

handle_query_range-IsScopedTo_example :
    All
      (λ read. IsScopedTo gate (some header) (some 99000000000) read.0 × IsDay read.2)
      answered.0.reads
handle_query_range-IsScopedTo_example =
    handle_query_range-IsScopedTo plain literal decimal (after calls) gate none (some header)
      (some 99000000000) params answered.0 answered.1

to_matrix-SeriesIs_example :
    IsAscending (
      to_matrix plain
        ((checkout, point_at 10) ∷ (cart, point_at 15) ∷ (checkout, point_at 20) ∷ []))
    × ((labels : Attributes)
        → SeriesIs plain
            (find
              (to_matrix plain
                ((checkout, point_at 10) ∷ (cart, point_at 15) ∷ (checkout, point_at 20) ∷ []))
              labels)
            (samples_of plain labels
              ((checkout, point_at 10) ∷ (cart, point_at 15) ∷ (checkout, point_at 20) ∷ [])))
to_matrix-SeriesIs_example =
    to_matrix-SeriesIs plain
      ((checkout, point_at 10) ∷ (cart, point_at 15) ∷ (checkout, point_at 20) ∷ [])
