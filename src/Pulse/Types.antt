-- ===== src/Pulse/Types.antt =====
-- crates/pulse/src/metric.rs. A text is the list of its code points. The type of the values, `f64`, is a
-- parameter.
use Prim.Native.Nat.{Ordering}
use kaleidoscope.Prelude.{
  ℕ, ◌≡◌, ◌↔◌, String, Bool, true, false, List, ◌&&◌, leb, ltb, Key, ◌==◌, string_key, eq_iff,
  arith,
}
use kaleidoscope.Prelude.Order.{nat_order, list_order, pair_order, list_cmp, pair_cmp, pair_cmp-eq}
use kaleidoscope.Prelude.BTree.{BTreeMap}

abbrev pub Chars : Type 0
Chars = List ℕ

abbrev pub Attributes : Type 0
Attributes = BTreeMap Chars Chars

abbrev pub MetricName : Type 0
MetricName = Chars

-- Equality of texts.
unfoldable pub same_text : Chars → Chars → Bool
same_text a b = elim (list_cmp a b) [ Ordering.eq ↦ true | _ ↦ false ]

-- The name and the resource attributes.
abbrev pub SeriesKey : Type 0
SeriesKey = MetricName × Attributes

abbrev pub StoreKey : Type 0
StoreKey = String × SeriesKey

abbrev pub same_key : StoreKey → StoreKey → Bool
same_key a b = (a.0 == b.0) && elim (pair_cmp a.1 b.1) [ Ordering.eq ↦ true | _ ↦ false ]

pub same_key_iff : (a b : StoreKey) → (same_key a b ≡ true) ↔ (a ≡ b)
same_key_iff a b = (
  (λ h. ground (arith, eq_iff a.0 b.0, pair_cmp-eq a.1 b.1)),
  (λ h. ground (arith, eq_iff a.0 b.0, pair_cmp-eq a.1 b.1)),
)

instance abbrev pub store_key : Key StoreKey
store_key = record { same = same_key; same_iff = same_key_iff }

pub data MetricKind : Type 0 where
  gauge : MetricKind
  sum : MetricKind

pub record MetricPoint (F : Type 0) : Type 0 where
  pub time_unix_nano : ℕ
  pub start_time_unix_nano : ℕ
  pub attributes : Attributes
  pub value : F

pub record Metric (F : Type 0) : Type 0 where
  pub name : MetricName
  pub description : Chars
  pub unit : Chars
  pub kind : MetricKind
  pub points : List (MetricPoint F)
  pub resource_attributes : Attributes

pub record TimeRange : Type 0 where
  pub start_unix_nano : ℕ
  pub end_unix_nano : ℕ

unfoldable pub contains : TimeRange → ℕ → Bool
contains range time_unix_nano =
    leb range.start_unix_nano time_unix_nano && ltb time_unix_nano range.end_unix_nano
