-- ===== src/Aegis/Samples.antt =====
-- Two tenants, the claims of a token, and a validator that knows it, for the examples of crates/aegis.
use kaleidoscope.Prelude.{
  String, none, some, [], ◌∷◌, Result, ok, err, string_key, ◌==◌, if◌then◌else◌,
}
use kaleidoscope.Aegis.Catalogue.{TenantRecord}
use kaleidoscope.Aegis.Validator.{ℤ, ErrorKind, RawClaims, Validator}

abbrev pub acme : TenantRecord
acme = record { id = "acme"; display_name = some "Acme"; notes = none }

abbrev pub globex : TenantRecord
globex = record { id = "globex"; display_name = none; notes = none }

abbrev pub claims_of_acme : RawClaims
claims_of_acme = record {
  iss = some "https://issuer";
  aud = some "kaleidoscope";
  exp = some (ℤ.pos 100);
  tenant_id = some "acme";
  kaleidoscope_role = some "viewer";
}

-- A decoder that knows one token.
abbrev pub known_token : String → Result RawClaims ErrorKind
known_token token = if token == "token" then ok claims_of_acme else err ErrorKind.bad_signature

abbrev pub gate : Validator
gate = record {
  issuer = "https://issuer";
  audience = "kaleidoscope";
  decode = known_token;
  catalogue = record { by_id = ("acme", acme) ∷ [] };
}
