-- ===== src/Aegis/Examples.antt =====
-- Two tenants and a token of crates/aegis, and the theorems at them.
use kaleidoscope.Prelude.{
  ℕ, ◌≡◌, refl, String, Option, none, some, List, [], ◌∷◌, Result, ok, err, ◌↔◌, string_key, ◌==◌,
  if◌then◌else◌,
}
use kaleidoscope.Prelude.Map.{IsUnique, insert}
use kaleidoscope.Aegis.Catalogue.{TenantRecord, TenantCatalogue, from_records}
use kaleidoscope.Aegis.Validator.{Role, TenantContext, validate}
use kaleidoscope.Aegis.Accepts.{IsEntitled, validate-accepts}
use kaleidoscope.Aegis.Distinct.{by_ids, IsCatalogueOf, from_records-IsUnique}
use kaleidoscope.Aegis.Samples.{acme, globex, gate}

from_records-IsUnique_example :
    ((c : TenantCatalogue) × (from_records (acme ∷ globex ∷ []) ≡ ok c)
      × IsCatalogueOf (acme ∷ globex ∷ []) c)
    ↔ IsUnique (by_ids (acme ∷ globex ∷ []))
from_records-IsUnique_example = from_records-IsUnique (acme ∷ globex ∷ [])

abbrev viewer_of_acme : TenantContext
viewer_of_acme = record { tenant_id = "acme"; role = Role.viewer }

validate-accepts_example :
    ((validate gate "token" (some 99000000000)).1 ≡ ok viewer_of_acme)
    ↔ IsEntitled gate "token" (some 99000000000) viewer_of_acme
validate-accepts_example = validate-accepts gate "token" (some 99000000000) viewer_of_acme

accepted : (validate gate "token" (some 99000000000)).1 ≡ ok viewer_of_acme
unfolding validate kaleidoscope.Aegis.Catalogue.contains kaleidoscope.Prelude.Map.contains_key
accepted = refl
