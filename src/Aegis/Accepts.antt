-- ===== src/Aegis/Accepts.antt =====
-- crates/aegis/src/validator.rs: which tokens are accepted, and for whom.
use kaleidoscope.Prelude.{
  ℕ, ◌≡◌, refl, ap, ◌∙◌, subst, Bool-cases, inl, inr, String, true, false, Option, none, some,
  Result, ok, err, ◌>>=◌, ◌↔◌, if◌then◌else◌, not, arith, string_key, eq_iff,
}
use kaleidoscope.Sluice.Types.{TenantId}
use kaleidoscope.Aegis.Catalogue.{contains}
use kaleidoscope.Aegis.Validator.{
  ℤ, ge, Role, as_str, viewer, operator, TenantContext, ValidationError, ErrorKind, RawClaims,
  Validator, now_secs, claim_is, ok_or, role_of, decoded, check_role, check_tenant, check_exp,
  check_claims, validate_inner, validate,
}

-- The claims of an unexpired token of this issuer for this audience, with a registered tenant and the
-- name of a role.
pub record Entitles (v : Validator) (now : Option ℕ) (ctx : TenantContext) (claims : RawClaims)
    : Type 0 where
  pub issuer_is : claims.iss ≡ some v.issuer
  pub audience_is : claims.aud ≡ some v.audience
  pub expiry : ℤ
  pub expires : claims.exp ≡ some expiry
  pub not_yet : ge (now_secs now) expiry ≡ false
  pub tenant_is : claims.tenant_id ≡ some ctx.tenant_id
  pub registered : contains v.catalogue ctx.tenant_id ≡ true
  pub role_is : claims.kaleidoscope_role ≡ some (as_str ctx.role)

role_sound : (s : String) (r : Role) → role_of s ≡ ok r → s ≡ as_str r
unfolding role_of as_str
role_sound s viewer h = ground (arith, eq_iff s "viewer", eq_iff s "operator")
role_sound s operator h = ground (arith, eq_iff s "viewer", eq_iff s "operator")

role_complete : (r : Role) → role_of (as_str r) ≡ ok r
unfolding role_of as_str
role_complete viewer = refl
role_complete operator = refl

claim_sound : (claim : Option String) (s : String) → claim_is claim s ≡ true → claim ≡ some s
unfolding claim_is
claim_sound none s h = cc
claim_sound (some t) s h = ground (arith, eq_iff t s)

claim_complete : (s : String) → claim_is (some s) s ≡ true
unfolding claim_is
claim_complete s = (eq_iff s s).1 refl

abbrev denial : ValidationError → Result TenantContext ValidationError
denial e = err e

denied : (e : ValidationError) (ctx : TenantContext) → denial e ≡ ok ctx → ⊥
denied e ctx h = cc

abbrev with_role : Option String → TenantId → Result TenantContext ValidationError
with_role o tenant_id = ok_or o (ValidationError.missing_claim "kaleidoscope_role") >>= λ role_str.
    role_of role_str >>= λ role. ok (record { tenant_id = tenant_id; role = role })

given_role :
    (s : String) (r : Result Role ValidationError) (tenant_id : TenantId) (ctx : TenantContext)
    → role_of s ≡ r
    → (r >>= λ role. ok (record { tenant_id = tenant_id; role = role })) ≡ ok ctx
    → (s ≡ as_str ctx.role) × (tenant_id ≡ ctx.tenant_id)
given_role s (err e) tenant_id ctx is h = cc
given_role s (ok role) tenant_id ctx is h =
    let same : record { tenant_id = tenant_id; role = role } ≡ ctx = cc h in
    (role_sound s ctx.role (is ∙ ap (λ c. ok (c.role)) same), ap (λ c. c.tenant_id) same)

role_given :
    (o : Option String) (tenant_id : TenantId) (ctx : TenantContext)
    → with_role o tenant_id ≡ ok ctx
    → (o ≡ some (as_str ctx.role)) × (tenant_id ≡ ctx.tenant_id)
unfolding ok_or
role_given none tenant_id ctx h = cc
role_given (some s) tenant_id ctx h =
    let (a, b) = given_role s (role_of s) tenant_id ctx refl h in (ap some a, b)

abbrev with_tenant : Validator → RawClaims → Option String → Result TenantContext ValidationError
with_tenant v claims o = ok_or o (ValidationError.missing_claim "tenant_id") >>= λ tenant_id.
    if not (contains v.catalogue tenant_id)
    then err ValidationError.unknown_tenant
    else check_role claims tenant_id

tenant_given :
    (v : Validator) (claims : RawClaims) (o : Option String) (ctx : TenantContext)
    → with_tenant v claims o ≡ ok ctx
    → (o ≡ some ctx.tenant_id)
      × (contains v.catalogue ctx.tenant_id ≡ true)
      × (claims.kaleidoscope_role ≡ some (as_str ctx.role))
unfolding ok_or check_role
tenant_given v claims none ctx h = cc
tenant_given v claims (some t) ctx h = elim (Bool-cases (contains v.catalogue t)) [
  | inl e ↦
      let (a, b) = role_given claims.kaleidoscope_role t ctx (rw e at h) in
      (ap some b, subst (λ x. contains v.catalogue x ≡ true) b e, a)
  | inr e ↦ absurd (denied ValidationError.unknown_tenant ctx (rw e at h))
]

abbrev with_exp : Validator → RawClaims → Option ℕ → Option ℤ → Result TenantContext ValidationError
with_exp v claims now o = ok_or o (ValidationError.missing_claim "exp") >>= λ exp.
    if ge (now_secs now) exp then err ValidationError.expired else check_tenant v claims

exp_given :
    (v : Validator) (claims : RawClaims) (now : Option ℕ) (o : Option ℤ) (ctx : TenantContext)
    → claims.exp ≡ o
    → claims.iss ≡ some v.issuer
    → claims.aud ≡ some v.audience
    → with_exp v claims now o ≡ ok ctx
    → Entitles v now ctx claims
unfolding ok_or check_tenant
exp_given v claims now none ctx is iss aud h = cc
exp_given v claims now (some exp) ctx is iss aud h = elim (Bool-cases (ge (now_secs now) exp)) [
  | inl e ↦ absurd (denied ValidationError.expired ctx (rw e at h))
  | inr e ↦
      let (tenant, member, role) = tenant_given v claims claims.tenant_id ctx (rw e at h) in
      record {
        issuer_is = iss;
        audience_is = aud;
        expiry = exp;
        expires = is;
        not_yet = e;
        tenant_is = tenant;
        registered = member;
        role_is = role;
      }
]

claims_given :
    (v : Validator) (claims : RawClaims) (now : Option ℕ) (ctx : TenantContext)
    → check_claims v claims now ≡ ok ctx
    → Entitles v now ctx claims
unfolding check_claims check_exp
claims_given v claims now ctx h = elim (Bool-cases (claim_is claims.iss v.issuer)) [
  | inl iss ↦ elim (Bool-cases (claim_is claims.aud v.audience)) [
    | inl aud ↦
        exp_given v claims now claims.exp ctx refl (claim_sound claims.iss v.issuer iss)
          (claim_sound claims.aud v.audience aud) (rw (iss, aud) at h)
    | inr aud ↦ absurd (denied ValidationError.wrong_audience ctx (rw (iss, aud) at h))
  ]
  | inr iss ↦ absurd (denied ValidationError.wrong_issuer ctx (rw iss at h))
]

claims_accepted :
    (v : Validator) (claims : RawClaims) (now : Option ℕ) (ctx : TenantContext)
    → Entitles v now ctx claims
    → check_claims v claims now ≡ ok ctx
unfolding check_claims check_exp check_tenant check_role ok_or
claims_accepted v claims now ctx e =
    rw (e.issuer_is, e.audience_is)
      (rw (claim_complete v.issuer, claim_complete v.audience)
        (rw (e.expires) (
          rw (e.not_yet) (
            rw (e.tenant_is)
              (rw (e.registered) (rw (e.role_is) (rw (role_complete ctx.role) refl)))))))

-- The claims that a token decodes to entitle it.
abbrev pub IsEntitled : Validator → String → Option ℕ → TenantContext → Type 0
IsEntitled v token now ctx =
    (claims : RawClaims) × (v.decode token ≡ ok claims) × Entitles v now ctx claims

given :
    (v : Validator) (token : String) (now : Option ℕ) (ctx : TenantContext)
    (d : Result RawClaims ErrorKind)
    → v.decode token ≡ d
    → (decoded d >>= λ claims. check_claims v claims now) ≡ ok ctx
    → IsEntitled v token now ctx
unfolding decoded
given v token now ctx (err kind) is h = cc
given v token now ctx (ok claims) is h = (claims, is, claims_given v claims now ctx h)

-- A token is accepted for a tenant and a role exactly if it decodes with a good signature to claims of
-- this issuer for this audience, with an expiry after now, with that tenant, which is registered, and the
-- name of that role.
pub validate-accepts :
    (v : Validator) (token : String) (now : Option ℕ) (ctx : TenantContext)
    → ((validate v token now).1 ≡ ok ctx) ↔ IsEntitled v token now ctx
unfolding validate validate_inner
validate-accepts v token now ctx = (
  (λ h. given v token now ctx (v.decode token) refl h),
  (λ (claims, is, e). rw is (unfold decoded in claims_accepted v claims now ctx e)),
)
