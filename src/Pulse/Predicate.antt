-- ===== src/Pulse/Predicate.antt =====
-- crates/pulse/src/predicate.rs: the filter of `query_with`.
use kaleidoscope.Prelude.{Bool, true, false, ◌&&◌, Option, none, some, [], ◌∷◌, codes}
use kaleidoscope.Prelude.Order.{nat_order, list_order}
use kaleidoscope.Prelude.BTree.{find, entry_with}
use kaleidoscope.Pulse.Types.{Chars, Attributes, Metric, MetricPoint, same_text}

pub record Predicate : Type 0 where
  pub service : Option Chars
  pub label_eq : Attributes

abbrev pub new : Predicate
new = record { service = none; label_eq = [] }

unfoldable pub with_service : Predicate → Chars → Predicate
with_service predicate name = record predicate { service = some name }

unfoldable pub with_label_eq : Predicate → Chars → Chars → Predicate
with_label_eq predicate key value = record predicate {
  label_eq = entry_with predicate.label_eq key (λ old. value);
}

-- `Some(actual) if actual == value`
unfoldable pub is_value : Option Chars → Chars → Bool
unfolding same_text
is_value none value = false
is_value (some actual) value = same_text actual value

unfoldable pub labels_match : Attributes → Attributes → Bool
unfolding is_value
labels_match [] attributes = true
labels_match ((key, value) ∷ label_eq) attributes =
    is_value (find attributes key) value && labels_match label_eq attributes

unfoldable pub service_matches : Option Chars → Attributes → Bool
unfolding is_value
service_matches none resource_attributes = true
service_matches (some target) resource_attributes =
    is_value (find resource_attributes (codes "service.name")) target

unfoldable pub matches : {F : Type 0} → Predicate → Metric F → MetricPoint F → Bool
unfolding labels_match service_matches
matches predicate metric point =
    service_matches predicate.service metric.resource_attributes
    && labels_match predicate.label_eq point.attributes
