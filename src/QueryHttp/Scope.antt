-- ===== src/QueryHttp/Scope.antt =====
-- crates/query-http-common/src/lib.rs: who may read what. It rests on the validator of crates/aegis.
use kaleidoscope.Prelude.{
  ℕ, ◌≡◌, ◌↔◌, refl, ap, ◌∙◌, subst, String, Option, none, some, Result, ok, err, length,
}
use kaleidoscope.Sluice.Types.{TenantId}
use kaleidoscope.Aegis.Validator.{
  Validator, TenantContext, ValidationError, validate, validate_with_subject,
}
use kaleidoscope.Aegis.Accepts.{IsEntitled, validate-accepts}
use kaleidoscope.QueryHttp.Responses.{Response, error_body, error_response, reject_unauthorized}
use kaleidoscope.QueryHttp.Bearer.{Header, text, bearer_token}
use kaleidoscope.QueryHttp.Carries.{Carries, bearer_token-Carries}
use kaleidoscope.QueryHttp.Tenant.{
  Resolved, resolve_tenant_or_refuse, of_validation, validate_bearer,
  resolve_request_tenant_or_refuse,
}

-- A header with a token that entitles its bearer to a tenant.
pub record IsScopedTo (v : Validator) (authorization : Option Header) (now : Option ℕ)
    (tenant : TenantId) : Type 0 where
  pub raw : Header
  pub token : Header
  pub role : TenantContext
  pub given : authorization ≡ some raw
  pub carries : Carries raw token
  pub entitled : IsEntitled v (text token) now role
  pub tenant_is : role.tenant_id ≡ tenant

module _ {A : Type 0} (v : Validator) (subject : String) (now : Option ℕ) where
  of_validation-inverse :
      (r : Result TenantContext ValidationError) (tenant : TenantId)
      → ◌≡◌ {A = Resolved A} (of_validation r) (ok tenant)
      → (ctx : TenantContext) × (r ≡ ok ctx) × (ctx.tenant_id ≡ tenant)
  unfolding of_validation
  of_validation-inverse (err e) tenant h = cc
  of_validation-inverse (ok ctx) tenant h = (ctx, refl, cc)

  module _ (tenant : TenantId) where
    to_scope :
        (authorization : Option Header) (o : Option Header)
        → bearer_token authorization ≡ o
        → ◌≡◌ {A = Resolved A} (validate_bearer v o subject now).1 (ok tenant)
        → IsScopedTo v authorization now tenant
    unfolding validate_bearer bearer_token validate
    to_scope authorization none e h = cc
    to_scope none (some token) e h = cc
    to_scope (some raw) (some token) e h =
        let (ctx, validated, is) = of_validation-inverse (validate v (text token) now).1 tenant h in
        record {
          raw = raw;
          token = token;
          role = ctx;
          given = refl;
          carries = (bearer_token-Carries raw token).0 e;
          entitled = (validate-accepts v (text token) now ctx).0 validated;
          tenant_is = is;
        }

    from_scope :
        (authorization : Option Header)
        → IsScopedTo v authorization now tenant
        → ◌≡◌ {A = Resolved A}
            (validate_bearer v (bearer_token authorization) subject now).1
            (ok tenant)
    unfolding validate_bearer of_validation validate
    from_scope authorization s =
        ap (λ o. (validate_bearer {A = A} v o subject now).1)
          (ap bearer_token s.given ∙ (bearer_token-Carries s.raw s.token).1 s.carries)
        ∙ ap of_validation ((validate-accepts v (text s.token) now s.role).1 s.entitled)
        ∙ ap ok s.tenant_is

one_line :
    (A : Type 0) (v : Validator) (o : Option Header) (subject : String) (now : Option ℕ)
    → length (validate_bearer {A = A} v o subject now).0 ≡ 1
unfolding validate_bearer
one_line A v none subject now = refl
one_line A v (some token) subject now = refl

-- On a server with a validator, whatever tenant its environment names: a request is given a tenant exactly if its
-- `Authorization` header has the scheme Bearer, in any case, a space, and a token that entitles its bearer to that
-- tenant; and one line of the log is written, whether the request is given a tenant or refused.
pub resolve_request_tenant_or_refuse-IsScopedTo :
    {A : Type 0} (v : Validator) (authorization : Option Header) (env_tenant : Option TenantId)
    (service_label subject : String) (now : Option ℕ) (tenant : TenantId)
    → ((resolve_request_tenant_or_refuse {A = A}
            (some v)
            authorization
            env_tenant
            service_label
            subject
            now).1
          ≡ ok tenant
        ↔ IsScopedTo v authorization now tenant)
      × (length
            (resolve_request_tenant_or_refuse {A = A}
              (some v)
              authorization
              env_tenant
              service_label
              subject
              now).0
          ≡ 1)
unfolding resolve_request_tenant_or_refuse
resolve_request_tenant_or_refuse-IsScopedTo {A} v authorization env_tenant service_label subject now
      tenant =
    (
      (
        to_scope v subject now tenant authorization (bearer_token authorization) refl,
        from_scope v subject now tenant authorization,
      ),
      one_line A v (bearer_token authorization) subject now,
    )

-- A response with the envelope of an error.
abbrev pub IsRefusal : {A : Type 0} → Response A → Type 0
IsRefusal response = (reason : String) × (response.body ≡ error_body reason)

abbrev Refuses : {A : Type 0} → Resolved A → Type 0
Refuses (ok tenant) = Unit
Refuses (err response) = IsRefusal response

module _ (A : Type 0) where
  resolve_tenant-Refuses :
      (env_tenant : Option TenantId) (service_label : String)
      → Refuses (resolve_tenant_or_refuse {A = A} env_tenant service_label)
  unfolding resolve_tenant_or_refuse error_response
  resolve_tenant-Refuses (some tenant) service_label = tt
  resolve_tenant-Refuses none service_label = (_, refl)

  of_validation-Refuses :
      (r : Result TenantContext ValidationError) → Refuses (of_validation {A = A} r)
  unfolding of_validation reject_unauthorized
  of_validation-Refuses (ok ctx) = tt
  of_validation-Refuses (err e) = (_, refl)

  validate_bearer-Refuses :
      (v : Validator) (o : Option Header) (subject : String) (now : Option ℕ)
      → Refuses (validate_bearer {A = A} v o subject now).1
  unfolding validate_bearer reject_unauthorized
  validate_bearer-Refuses v none subject now = (_, refl)
  validate_bearer-Refuses v (some token) subject now =
      of_validation-Refuses (validate_with_subject v (text token) now subject).1

  pub resolve_request-Refuses :
      (auth : Option Validator) (authorization : Option Header) (env_tenant : Option TenantId)
      (service_label subject : String) (now : Option ℕ) (response : Response A)
      → (resolve_request_tenant_or_refuse auth authorization env_tenant service_label subject now).1
        ≡ err response
      → IsRefusal response
  unfolding resolve_request_tenant_or_refuse
  resolve_request-Refuses none authorization env_tenant service_label subject now response h =
      subst Refuses h (resolve_tenant-Refuses env_tenant service_label)
  resolve_request-Refuses (some v) authorization env_tenant service_label subject now response h =
      subst Refuses h (validate_bearer-Refuses v (bearer_token authorization) subject now)
