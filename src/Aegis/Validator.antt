-- ===== src/Aegis/Validator.antt =====
-- crates/aegis/src/validator.rs. `jsonwebtoken::decode` with the validator's key is a parameter; it
-- checks the signature. A `SystemTime` is a number of nanoseconds from `UNIX_EPOCH` on, or none before it.
use kaleidoscope.Prelude.{
  ℕ, ◌-◌, ◌/◌, ◌^◌, String, Bool, true, false, Option, none, some, Result, ok, err, ◌>>=◌, ltb, leb,
  if◌then◌else◌, ◌==◌, not, string_key,
}
use kaleidoscope.Sluice.Types.{TenantId}
use kaleidoscope.Aegis.Catalogue.{TenantCatalogue, contains}

-- An `i64`: `negsuc n` is -1 - n.
pub data ℤ : Type 0 where
  pos : ℕ → ℤ
  negsuc : ℕ → ℤ

unfoldable pub ge : ℤ → ℤ → Bool
ge (pos a) (pos b) = leb b a
ge (pos a) (negsuc b) = true
ge (negsuc a) (pos b) = false
ge (negsuc a) (negsuc b) = leb a b

pub data Role : Type 0 where
  viewer : Role
  operator : Role

unfoldable pub as_str : Role → String
as_str viewer = "viewer"
as_str operator = "operator"

pub record TenantContext : Type 0 where
  pub tenant_id : TenantId
  pub role : Role

pub data ValidationError : Type 0 where
  invalid_signature : ValidationError
  expired : ValidationError
  wrong_issuer : ValidationError
  wrong_audience : ValidationError
  missing_claim : String → ValidationError
  unknown_tenant : ValidationError
  unknown_role : ValidationError
  malformed : ValidationError

unfoldable pub reason : ValidationError → String
reason invalid_signature = "invalid_signature"
reason expired = "expired"
reason wrong_issuer = "wrong_issuer"
reason wrong_audience = "wrong_audience"
reason (missing_claim name) = "missing_claim"
reason unknown_tenant = "unknown_tenant"
reason unknown_role = "unknown_role"
reason malformed = "malformed"

-- Of the kinds of a decoding error, the code tells one from the others.
pub data ErrorKind : Type 0 where
  bad_signature : ErrorKind
  other : ErrorKind

unfoldable pub map_err : ErrorKind → ValidationError
map_err bad_signature = invalid_signature
map_err other = malformed

pub record RawClaims : Type 0 where
  pub iss : Option String
  pub aud : Option String
  pub exp : Option ℤ
  pub tenant_id : Option String
  pub kaleidoscope_role : Option String

pub record Validator : Type 0 where
  pub issuer : String
  pub audience : String
  pub decode : String → Result RawClaims ErrorKind
  pub catalogue : TenantCatalogue

-- The `as i64` of a `u64`.
unfoldable pub as_i64 : ℕ → ℤ
as_i64 n = if ltb n (2 ^ 63) then pos n else negsuc (2 ^ 64 - 1 - n)

unfoldable pub now_secs : Option ℕ → ℤ
unfolding as_i64
now_secs none = pos 0
now_secs (some nanos) = as_i64 (nanos / 1000000000)

-- `claim.as_deref() == Some(expected)`
unfoldable pub claim_is : Option String → String → Bool
claim_is none expected = false
claim_is (some value) expected = value == expected

unfoldable pub ok_or : {A : Type 0} → Option A → ValidationError → Result A ValidationError
ok_or none e = err e
ok_or (some a) e = ok a

unfoldable pub role_of : String → Result Role ValidationError
role_of role_str =
    if role_str == "viewer"
    then ok viewer
    else if role_str == "operator"
    then ok operator
    else err unknown_role

unfoldable pub decoded : Result RawClaims ErrorKind → Result RawClaims ValidationError
unfolding map_err
decoded (ok claims) = ok claims
decoded (err kind) = err (map_err kind)

-- The checks after the signature, in their order.
unfoldable pub check_role : RawClaims → TenantId → Result TenantContext ValidationError
unfolding ok_or role_of
check_role claims tenant_id = do
  role_str ← ok_or claims.kaleidoscope_role (missing_claim "kaleidoscope_role")
  role ← role_of role_str
  ok (record { tenant_id = tenant_id; role = role })

unfoldable pub check_tenant : Validator → RawClaims → Result TenantContext ValidationError
unfolding ok_or check_role
check_tenant v claims = do
  tenant_id ← ok_or claims.tenant_id (missing_claim "tenant_id")
  if not (contains v.catalogue tenant_id) then err unknown_tenant else check_role claims tenant_id

unfoldable pub check_exp : Validator → RawClaims → Option ℕ → Result TenantContext ValidationError
unfolding ok_or now_secs ge check_tenant
check_exp v claims now = do
  exp ← ok_or claims.exp (missing_claim "exp")
  if ge (now_secs now) exp then err expired else check_tenant v claims

unfoldable pub check_claims :
    Validator → RawClaims → Option ℕ → Result TenantContext ValidationError
unfolding claim_is check_exp
check_claims v claims now =
    if not (claim_is claims.iss v.issuer)
    then err wrong_issuer
    else if not (claim_is claims.aud v.audience)
    then err wrong_audience
    else check_exp v claims now

unfoldable pub validate_inner : Validator → String → Option ℕ → Result TenantContext ValidationError
unfolding decoded check_claims
validate_inner v token now = decoded (v.decode token) >>= λ claims. check_claims v claims now

-- The line of the log.
pub record Decision : Type 0 where
  pub tenant_id : String
  pub role : String
  pub decision : String
  pub subject : String
  pub why : String

unfoldable pub decision_of : String → Result TenantContext ValidationError → Decision
unfolding reason as_str
decision_of subject (ok ctx) = record {
  tenant_id = ctx.tenant_id;
  role = as_str ctx.role;
  decision = "allow";
  subject = subject;
  why = "allow";
}
decision_of subject (err e) = record {
  tenant_id = "";
  role = "";
  decision = "deny";
  subject = subject;
  why = reason e;
}

unfoldable pub validate_with_subject :
    Validator → String → Option ℕ → String → Decision × Result TenantContext ValidationError
unfolding validate_inner decision_of
validate_with_subject v token now subject =
    (decision_of subject (validate_inner v token now), validate_inner v token now)

unfoldable pub validate :
    Validator → String → Option ℕ → Decision × Result TenantContext ValidationError
unfolding validate_with_subject
validate v token now = validate_with_subject v token now "validate"
