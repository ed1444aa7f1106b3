-- ===== src/QueryHttp/Tenant.antt =====
-- crates/query-http-common/src/lib.rs: the tenant of a request. The lines of the log are returned, in their order.
use Prim.Native.String.{◌++◌ as append}
use kaleidoscope.Prelude.{ℕ, String, Option, none, some, List, [], ◌∷◌, Result, ok, err}
use kaleidoscope.Sluice.Types.{TenantId}
use kaleidoscope.Aegis.Validator.{
  Validator, TenantContext, ValidationError, reason, Decision, validate_with_subject,
}
use kaleidoscope.QueryHttp.Responses.{
  Response, unauthorized, reason_missing_tenant, error_response, reject_unauthorized,
}
use kaleidoscope.QueryHttp.Bearer.{Header, text, bearer_token}

abbrev missing_claim_line : String → Decision
missing_claim_line subject = record {
  tenant_id = "";
  role = "";
  decision = "deny";
  subject = subject;
  why = "missing_claim";
}

abbrev pub Resolved : Type 0 → Type 0
Resolved A = Result TenantId (Response A)

module _ {A : Type 0} where
  unfoldable pub resolve_tenant_or_refuse : Option TenantId → String → Resolved A
  resolve_tenant_or_refuse (some tenant) service_label = ok tenant
  resolve_tenant_or_refuse none service_label = err (
      error_response unauthorized
        (append reason_missing_tenant (append service_label " service refuses unscoped requests")))

  unfoldable pub of_validation : Result TenantContext ValidationError → Resolved A
  of_validation (ok context) = ok context.tenant_id
  of_validation (err error) = err (reject_unauthorized (reason error))

  -- The cases of a server with a validator, by the token of the header.
  unfoldable pub validate_bearer :
      Validator → Option Header → String → Option ℕ → List Decision × Resolved A
  unfolding of_validation
  validate_bearer validator none subject now =
      (missing_claim_line subject ∷ [], err (reject_unauthorized "missing_claim"))
  validate_bearer validator (some token) subject now =
      let (line, validated) = validate_with_subject validator (text token) now subject in
      (line ∷ [], of_validation validated)

  unfoldable pub resolve_request_tenant_or_refuse :
      Option Validator
      → Option Header
      → Option TenantId
      → String
      → String
      → Option ℕ
      → List Decision × Resolved A
  unfolding resolve_tenant_or_refuse validate_bearer bearer_token
  resolve_request_tenant_or_refuse none authorization env_tenant service_label subject now =
      ([], resolve_tenant_or_refuse env_tenant service_label)
  resolve_request_tenant_or_refuse (some validator) authorization env_tenant service_label subject
        now =
      validate_bearer validator (bearer_token authorization) subject now
