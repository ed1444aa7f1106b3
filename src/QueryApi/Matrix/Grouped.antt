-- ===== src/QueryApi/Matrix/Grouped.antt =====
-- crates/query-api/src/matrix.rs: the series of `to_matrix`, each with the samples of its rows.
use Prim.Native.Nat.{Ordering, lt, eq, gt}
use mathlib.Core.List.{append_assoc, append-nil}
use kaleidoscope.Prelude.{
  ℕ, ◌≡◌, refl, sym, ap, ◌∙◌, Bool, true, false, Option, none, some, List, [], ◌∷◌, ◌++◌, ◌⊎◌, inl,
  inr, if◌then◌else◌,
}
use kaleidoscope.Prelude.Order.{nat_order, pair_order, list_order, list_cmp, list_cmp-eq}
use kaleidoscope.Prelude.BTree.{
  BTreeMap, find, entry_with, IsAscending, entry_with-IsAscending, find-entry_with_self,
  find-entry_with_other,
}
use kaleidoscope.Pulse.Types.{Chars, Attributes, Metric, MetricPoint}
use kaleidoscope.QueryApi.Matrix.Labels.{merge_labels}
use kaleidoscope.QueryApi.Matrix.Series.{Floats, sample, push, group, to_matrix}

abbrev same_labels : Attributes → Attributes → Bool
same_labels a b = elim (list_cmp a b) [ Ordering.eq ↦ true | _ ↦ false ]

same_labels-cases :
    (a b : Attributes)
    → ((a ≡ b) × (same_labels a b ≡ true)) ⊎ ((a ≡ b → ⊥) × (same_labels a b ≡ false))
same_labels-cases a b = decide (list_cmp a b) refl
  where
    decide :
        (o : Ordering)
        → list_cmp a b ≡ o
        → ((a ≡ b) × (same_labels a b ≡ true)) ⊎ ((a ≡ b → ⊥) × (same_labels a b ≡ false))
    decide lt e = inr ((λ h. cc ((list_cmp-eq a b).1 h, e)), rw (e, same_labels))
    decide eq e = inl ((list_cmp-eq a b).0 e, rw (e, same_labels))
    decide gt e = inr ((λ h. cc ((list_cmp-eq a b).1 h, e)), rw (e, same_labels))

module _ {F : Type 0} (floats : Floats F) where
  -- The samples of the rows with the labels, in the order of the rows.
  abbrev pub samples_of : Attributes → List (Metric F × MetricPoint F) → List (ℕ × Chars)
  samples_of labels [] = []
  samples_of labels ((metric, point) ∷ rows) =
      if same_labels labels (merge_labels metric point)
      then sample floats (metric, point) ∷ samples_of labels rows
      else samples_of labels rows

-- The values of a series, with more samples behind them; a series without samples is not there.
abbrev extended : Option (List (ℕ × Chars)) → List (ℕ × Chars) → Option (List (ℕ × Chars))
extended none [] = none
extended none (s ∷ ss) = some (s ∷ ss)
extended (some values) ss = some (values ++ ss)

extended-push :
    (o : Option (List (ℕ × Chars))) (s : ℕ × Chars) (ss : List (ℕ × Chars))
    → extended (some (push s o)) ss ≡ extended o (s ∷ ss)
unfolding push
extended-push none s ss = refl
extended-push (some values) s ss = ap some (append_assoc values (s ∷ []) ss)

module _ {F : Type 0} (floats : Floats F) where
  find-group :
      (rows : List (Metric F × MetricPoint F)) (grouped : BTreeMap Attributes (List (ℕ × Chars)))
      (labels : Attributes)
      → IsAscending grouped
      → find (group floats rows grouped) labels
        ≡ extended (find grouped labels) (samples_of floats labels rows)
  unfolding group
  find-group [] grouped labels h = none_behind (find grouped labels)
    where
      none_behind : (o : Option (List (ℕ × Chars))) → o ≡ extended o []
      none_behind none = refl
      none_behind (some values) = ap some (sym (append-nil values))
  find-group ((metric, point) ∷ rows) grouped labels h =
      let key = merge_labels metric point in
      let add = push (sample floats (metric, point)) in
      find-group rows (entry_with grouped key add) labels (entry_with-IsAscending grouped key add h)
      ∙ elim (same_labels-cases labels key) [
        | inl (e, same) ↦
            let s = sample floats (metric, point) in
            rw same (
              ap (λ o. extended o (samples_of floats labels rows))
                (ap (find (entry_with grouped key add)) e ∙ find-entry_with_self grouped key add h)
              ∙ extended-push (find grouped key) s (samples_of floats labels rows)
              ∙ ap (λ k. extended (find grouped k) (s ∷ samples_of floats labels rows)) (sym e))
        | inr (differs, other) ↦ rw (other, find-entry_with_other grouped key add labels differs)
      ]

  group-IsAscending :
      (rows : List (Metric F × MetricPoint F)) (grouped : BTreeMap Attributes (List (ℕ × Chars)))
      → IsAscending grouped
      → IsAscending (group floats rows grouped)
  unfolding group
  group-IsAscending [] grouped h = h
  group-IsAscending ((metric, point) ∷ rows) grouped h =
      group-IsAscending rows
        (entry_with grouped (merge_labels metric point) (push (sample floats (metric, point))))
        (entry_with-IsAscending grouped (merge_labels metric point)
          (push (sample floats (metric, point))) h)

  -- A series with samples, or none.
  abbrev pub SeriesIs : Option (List (ℕ × Chars)) → List (ℕ × Chars) → Type 0
  SeriesIs o [] = o ≡ none
  SeriesIs o (s ∷ ss) = o ≡ some (s ∷ ss)

  series :
      (o : Option (List (ℕ × Chars))) (ss : List (ℕ × Chars)) → o ≡ extended none ss → SeriesIs o ss
  series o [] h = h
  series o (s ∷ ss) h = h

  -- The series of the matrix ascend strictly in their labels, so no set of labels has two; the series of a set of
  -- labels holds the samples of the rows with these labels, in the order of the rows, and there is none if no row
  -- has them.
  pub to_matrix-SeriesIs :
      (rows : List (Metric F × MetricPoint F))
      → IsAscending (to_matrix floats rows)
        × ((labels : Attributes)
            → SeriesIs (find (to_matrix floats rows) labels) (samples_of floats labels rows))
  unfolding to_matrix find
  to_matrix-SeriesIs rows = (
    group-IsAscending rows [] tt,
    λ labels.
        series (find (group floats rows []) labels) (samples_of floats labels rows)
          (find-group rows [] labels tt),
  )
