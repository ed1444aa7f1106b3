-- ===== src/QueryApi/Matrix/Merged.antt =====
-- crates/query-api/src/matrix.rs: what a merged set of labels says of each key.
use kaleidoscope.Prelude.{
  Bool-cases, true, ◌↔◌, if◌then◌else◌, ◌≡◌, refl, ap, ◌∙◌, Option, none, some, [], ◌∷◌, inl, inr,
  arith,
}
use kaleidoscope.Prelude.Order.{nat_order, list_order, list_cmp-eq}
use kaleidoscope.Prelude.BTree.{
  find, entry_with, IsAscending, find-Below, entry_with-IsAscending, find-entry_with_self,
  find-entry_with_other,
}
use kaleidoscope.Pulse.Types.{same_text, Chars, Attributes, Metric, MetricPoint}
use kaleidoscope.QueryApi.Matrix.Labels.{name_key, insert_all, merge_labels}

pub same_text-equal : (a b : Chars) → (same_text a b ≡ true) ↔ (a ≡ b)
unfolding same_text
same_text-equal a b = (λ h. ground (arith, list_cmp-eq a b), λ h. ground (arith, list_cmp-eq a b))

-- The first of two that is there.
abbrev pub or : Option Chars → Option Chars → Option Chars
or none other = other
or (some v) other = some v

or-none : (o : Option Chars) (key : Chars) → or o (find {V = Chars} [] key) ≡ o
unfolding find
or-none none key = refl
or-none (some v) key = refl

insert_all-IsAscending : (xs m : Attributes) → IsAscending m → IsAscending (insert_all xs m)
unfolding insert_all
insert_all-IsAscending [] m h = h
insert_all-IsAscending ((k, v) ∷ xs) m h =
    insert_all-IsAscending xs (entry_with m k (λ old. v)) (entry_with-IsAscending m k (λ old. v) h)

find-head : (k : Chars) (v : Chars) (xs : Attributes) → find ((k, v) ∷ xs) k ≡ some v
unfolding find
find-head k v xs = ground (arith, list_cmp-eq k k)

find-tail :
    (i k : Chars) (v : Chars) (xs : Attributes) → (i ≡ k → ⊥) → find ((k, v) ∷ xs) i ≡ find xs i
unfolding find
find-tail i k v xs h = ground (arith, list_cmp-eq i k)

find-insert_all :
    (xs m : Attributes) (i : Chars)
    → IsAscending xs
    → IsAscending m
    → find (insert_all xs m) i ≡ or (find xs i) (find m i)
unfolding insert_all
find-insert_all [] m i hx hm = unfold find in refl
find-insert_all ((k, v) ∷ xs) m i hx hm =
    find-insert_all xs (entry_with m k (λ old. v)) i hx.1 (entry_with-IsAscending m k (λ old. v) hm)
    ∙ elim (Bool-cases (same_text i k)) [
      | inl t ↦ rw (
        (same_text-equal i k).0 t,
        find-Below k xs hx.0,
        find-entry_with_self m k (λ old. v) hm,
        find-head k v xs,
      )
      | inr f ↦
          let differs : i ≡ k → ⊥ = λ e. cc ((same_text-equal i k).1 e, f) in
          rw (find-entry_with_other m k (λ old. v) i differs, find-tail i k v xs differs)
    ]

-- The attributes are maps, so their keys ascend.
pub record IsRow {F : Type 0} (metric : Metric F) (point : MetricPoint F) : Type 0 where
  pub resource_ascends : IsAscending metric.resource_attributes
  pub point_ascends : IsAscending point.attributes

module _ {F : Type 0} (metric : Metric F) (point : MetricPoint F) where
  -- The label of a row: the name of the metric, an attribute of the point, or one of the resource.
  abbrev pub label_of : Chars → Option Chars
  label_of key =
      if same_text key name_key
      then some metric.name
      else or (find point.attributes key) (find metric.resource_attributes key)

  resource-IsAscending : IsAscending (insert_all metric.resource_attributes [])
  resource-IsAscending = insert_all-IsAscending metric.resource_attributes [] tt

  merged-IsAscending :
      IsAscending (insert_all point.attributes (insert_all metric.resource_attributes []))
  merged-IsAscending =
      insert_all-IsAscending point.attributes (insert_all metric.resource_attributes [])
        resource-IsAscending

  pub merge_labels-label_of :
      IsRow metric point → (key : Chars) → find (merge_labels metric point) key ≡ label_of key
  unfolding merge_labels
  merge_labels-label_of row key =
      let resource = insert_all metric.resource_attributes [] in
      let merged = insert_all point.attributes resource in
      elim (Bool-cases (same_text key name_key)) [
        | inl t ↦ rw t (
            ap (find (entry_with merged name_key (λ old. metric.name)))
              ((same_text-equal key name_key).0 t)
            ∙ find-entry_with_self merged name_key (λ old. metric.name) merged-IsAscending)
        | inr f ↦ rw f (
            find-entry_with_other merged name_key (λ old. metric.name) key
              (λ e. cc ((same_text-equal key name_key).1 e, f))
            ∙ find-insert_all point.attributes resource key row.point_ascends resource-IsAscending
            ∙ ap (or (find point.attributes key)) (
                find-insert_all metric.resource_attributes [] key row.resource_ascends tt
                ∙ or-none (find metric.resource_attributes key) key))
      ]
