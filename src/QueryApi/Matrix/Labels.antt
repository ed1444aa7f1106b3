-- ===== src/QueryApi/Matrix/Labels.antt =====
-- crates/query-api/src/matrix.rs: the labels of a row.
use kaleidoscope.Prelude.{[], ◌∷◌, codes}
use kaleidoscope.Prelude.Order.{nat_order, list_order}
use kaleidoscope.Prelude.BTree.{entry_with}
use kaleidoscope.Pulse.Types.{Chars, Attributes, Metric, MetricPoint}

abbrev pub name_key : Chars
name_key = codes "__name__"

-- `labels.insert(key.clone(), value.clone())` for each of the attributes.
unfoldable pub insert_all : Attributes → Attributes → Attributes
insert_all [] labels = labels
insert_all ((key, value) ∷ attributes) labels =
    insert_all attributes (entry_with labels key (λ old. value))

module _ {F : Type 0} where
  unfoldable pub merge_labels : Metric F → MetricPoint F → Attributes
  unfolding insert_all
  merge_labels metric point =
      entry_with (insert_all point.attributes (insert_all metric.resource_attributes [])) name_key
        (λ old. metric.name)
