-- ===== src/Aegis/Distinct.antt =====
-- `from_records` of crates/aegis/src/catalogue.rs: a catalogue is built exactly of distinct tenants.
use kaleidoscope.Prelude.{
  ◌≡◌, refl, ◌∙◌, false, Option, none, some, List, [], ◌∷◌, Result, ok, err, All, arith, ◌↔◌,
  string_key, Bool-cases, inl, inr,
}
use kaleidoscope.Prelude.Map.{
  Map, get, insert, contains_key, IsUnique, insert_all, get-insert_all, or_else,
}
use kaleidoscope.Sluice.Types.{TenantId}
use kaleidoscope.Aegis.Catalogue.{
  TenantRecord, TenantCatalogue, CatalogueError, duplicate_tenant, is_seen, add_records,
  from_records, lookup,
}

-- The records under their ids, in order.
unfoldable pub by_ids : List TenantRecord → Map TenantId TenantRecord
by_ids [] = []
by_ids (r ∷ records) = (r.id, r) ∷ by_ids records

abbrev Fresh : List TenantId → Map TenantId TenantRecord → Type 0
Fresh seen = All (λ p. is_seen seen p.0 ≡ false)

Fresh-more :
    (seen : List TenantId) (id : TenantId) (m : Map TenantId TenantRecord)
    → contains_key m id ≡ false
    → Fresh seen m
    → Fresh (id ∷ seen) m
unfolding is_seen contains_key
Fresh-more seen id [] absent f = tt
Fresh-more seen id ((other, r) ∷ m) absent f = (
  ground (arith, f.0, string_key.same_iff id other, string_key.same_iff other id),
  Fresh-more seen id m (ground (arith, absent)) f.1,
)

Fresh-less :
    (seen : List TenantId) (id : TenantId) (m : Map TenantId TenantRecord)
    → Fresh (id ∷ seen) m
    → (contains_key m id ≡ false) × Fresh seen m
unfolding is_seen contains_key
Fresh-less seen id [] f = (refl, tt)
Fresh-less seen id ((other, r) ∷ m) f =
    let rest = Fresh-less seen id m f.1 in
    (
      ground (arith, f.0, rest.0, string_key.same_iff id other, string_key.same_iff other id),
      (ground (arith, f.0), rest.1),
    )

add_accepts :
    (by_id : Map TenantId TenantRecord) (seen : List TenantId) (records : List TenantRecord)
    → IsUnique (by_ids records)
    → Fresh seen (by_ids records)
    → add_records by_id seen records ≡ ok (record { by_id = insert_all by_id (by_ids records) })
unfolding add_records by_ids insert_all
add_accepts by_id seen [] u f = refl
add_accepts by_id seen (r ∷ records) u f = rw (f.0) (
    add_accepts (insert by_id r.id r) (r.id ∷ seen) records u.1
      (Fresh-more seen r.id (by_ids records) u.0 f.1))

add_distinct :
    (by_id : Map TenantId TenantRecord) (seen : List TenantId) (records : List TenantRecord)
    (c : TenantCatalogue)
    → add_records by_id seen records ≡ ok c
    → IsUnique (by_ids records) × Fresh seen (by_ids records)
unfolding add_records by_ids
add_distinct by_id seen [] c h = (tt, tt)
add_distinct by_id seen (r ∷ records) c h = elim (Bool-cases (is_seen seen r.id)) [
  | inl e ↦ absurd (rejected r.id c (rw e at h))
  | inr e ↦
      let (u, f) = add_distinct (insert by_id r.id r) (r.id ∷ seen) records c (rw e at h) in
      let (absent, fresh) = Fresh-less seen r.id (by_ids records) f in ((absent, u), (e, fresh))
]
  where
    rejection : TenantId → Result TenantCatalogue CatalogueError
    rejection id = err (duplicate_tenant id)

    rejected : (id : TenantId) (c : TenantCatalogue) → rejection id ≡ ok c → ⊥
    rejected id c h = cc

all-Fresh : (m : Map TenantId TenantRecord) → Fresh [] m
unfolding is_seen
all-Fresh [] = tt
all-Fresh (p ∷ m) = (refl, all-Fresh m)

or_else-none : (o : Option TenantRecord) → or_else o none ≡ o
or_else-none none = refl
or_else-none (some r) = refl

-- A catalogue in which every record is found under its id.
abbrev pub IsCatalogueOf : List TenantRecord → TenantCatalogue → Type 0
IsCatalogueOf records c = (id : TenantId) → lookup c id ≡ get (by_ids records) id

-- The records make a catalogue, with every record found under its id and no other id in it, exactly if
-- no id occurs twice among them.
pub from_records-IsUnique :
    (records : List TenantRecord)
    → ((c : TenantCatalogue) × (from_records records ≡ ok c) × IsCatalogueOf records c)
      ↔ IsUnique (by_ids records)
unfolding from_records lookup
from_records-IsUnique records = (
  (λ (c, built, all). (add_distinct [] [] records c built).0),
  (λ u. (
    record { by_id = insert_all [] (by_ids records) },
    add_accepts [] [] records u (all-Fresh (by_ids records)),
    λ id.
        get-insert_all [] (by_ids records) id u
        ∙ (unfold get in or_else-none (get (by_ids records) id)),
  )),
)
