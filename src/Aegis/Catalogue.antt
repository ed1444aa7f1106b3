-- ===== src/Aegis/Catalogue.antt =====
-- crates/aegis/src/catalogue.rs: the registered tenants. The file system and TOML are left out.
use kaleidoscope.Prelude.{
  ℕ, String, Bool, true, false, Option, List, [], ◌∷◌, Result, ok, err, ◌==◌, if◌then◌else◌, length,
  string_key,
}
use kaleidoscope.Prelude.Map.{Map, get, insert, contains_key}
use kaleidoscope.Sluice.Types.{TenantId}

pub record TenantRecord : Type 0 where
  pub id : TenantId
  pub display_name : Option String
  pub notes : Option String

pub record TenantCatalogue : Type 0 where
  pub by_id : Map TenantId TenantRecord

pub data CatalogueError : Type 0 where
  read : String → String → CatalogueError
  parse : String → String → CatalogueError
  duplicate_tenant : TenantId → CatalogueError

-- A `HashSet` is the list of its members.
unfoldable pub is_seen : List TenantId → TenantId → Bool
is_seen [] id = false
is_seen (other ∷ seen) id = if other == id then true else is_seen seen id

unfoldable pub add_records :
    Map TenantId TenantRecord
    → List TenantId
    → List TenantRecord
    → Result TenantCatalogue CatalogueError
unfolding is_seen
add_records by_id seen [] = ok (record { by_id = by_id })
add_records by_id seen (r ∷ records) =
    let rest = add_records (insert by_id r.id r) (r.id ∷ seen) records in
    if is_seen seen r.id then err (duplicate_tenant r.id) else rest

unfoldable pub from_records : List TenantRecord → Result TenantCatalogue CatalogueError
unfolding add_records
from_records records = add_records [] [] records

unfoldable pub contains : TenantCatalogue → TenantId → Bool
contains c id = contains_key c.by_id id

unfoldable pub lookup : TenantCatalogue → TenantId → Option TenantRecord
lookup c id = get c.by_id id

unfoldable pub len : TenantCatalogue → ℕ
len c = length c.by_id
