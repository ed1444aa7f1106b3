-- ===== src/QueryHttp/Examples.antt =====
-- A server with the validator of crates/aegis that its examples use, and the theorems at it.
use kaleidoscope.Prelude.{
  ℕ, ◌≡◌, ◌↔◌, refl, String, Option, none, some, List, [], ◌∷◌, Result, ok, err, length, string_key,
  ◌==◌, if◌then◌else◌,
}
use kaleidoscope.Aegis.Validator.{ℤ, Role, ErrorKind, RawClaims, Validator}
use kaleidoscope.Aegis.Samples.{gate}
use kaleidoscope.QueryHttp.Bearer.{Header, bearer_token}
use kaleidoscope.QueryHttp.Tenant.{resolve_request_tenant_or_refuse}
use kaleidoscope.QueryHttp.Scope.{IsScopedTo, resolve_request_tenant_or_refuse-IsScopedTo}
use kaleidoscope.QueryHttp.Samples.{characters}

abbrev header : Header
header = characters "bEARER  token "

token_found : bearer_token (some header) ≡ some (characters "token")
unfolding bearer_token kaleidoscope.Prelude.trim kaleidoscope.Prelude.is_whitespace
token_found = refl

resolve_request_tenant_or_refuse-IsScopedTo_example :
    ((resolve_request_tenant_or_refuse {A = ℕ}
          (some gate)
          (some header)
          (some "globex")
          "the query"
          "query_range"
          (some 99000000000)).1
        ≡ ok "acme"
      ↔ IsScopedTo gate (some header) (some 99000000000) "acme")
    × (length
          (resolve_request_tenant_or_refuse {A = ℕ}
            (some gate)
            (some header)
            (some "globex")
            "the query"
            "query_range"
            (some 99000000000)).0
        ≡ 1)
resolve_request_tenant_or_refuse-IsScopedTo_example =
    resolve_request_tenant_or_refuse-IsScopedTo gate (some header) (some "globex") "the query"
      "query_range" (some 99000000000) "acme"

scoped :
    (resolve_request_tenant_or_refuse {A = ℕ}
      (some gate)
      (some header)
      (some "globex")
      "the query"
      "query_range"
      (some 99000000000)).1
    ≡ ok "acme"
unfolding resolve_request_tenant_or_refuse kaleidoscope.Aegis.Catalogue.contains
    kaleidoscope.Prelude.Map.contains_key kaleidoscope.Prelude.trim
    kaleidoscope.Prelude.is_whitespace kaleidoscope.Aegis.Validator.validate_with_subject
scoped = refl
