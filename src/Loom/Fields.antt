-- ===== src/Loom/Fields.antt =====
-- crates/loom/src/plan.rs: the fields of a change.
use mathlib.Core.Bool.{and_assoc}
use kaleidoscope.Prelude.{
  ◌≡◌, refl, ◌∙◌, String, Bool, true, false, ◌&&◌, Option, none, some, List, [], ◌∷◌, ◌++◌, is_nil,
  string_key, eq_iff, All, arith,
}
use kaleidoscope.Prelude.Order.{nat_order}
use kaleidoscope.Prelude.Map.{Map, get}
use kaleidoscope.Beacon.Types.{Rule}
use kaleidoscope.Loom.Same.{
  list_key, option_key, severity_key, sink_key, same_rule, same_rule-equal,
}
use kaleidoscope.Loom.Plan.{
  Printer, FieldChange, RuleChange, field_change, diff_rules, differ, change, changes,
}
use kaleidoscope.Loom.Names.{has}

module _ (printer : Printer) where
  is_nil-field :
      (same : Bool) (field before after : String) (rest : List FieldChange)
      → is_nil (field_change same field before after ++ rest) ≡ (same && is_nil rest)
  unfolding field_change
  is_nil-field true field before after rest = refl
  is_nil-field false field before after rest = refl

  is_nil-last :
      (same : Bool) (field before after : String)
      → is_nil (field_change same field before after) ≡ same
  unfolding field_change
  is_nil-last true field before after = refl
  is_nil-last false field before after = refl

  -- Two rules of one name have a field in their change exactly if they differ.
  diff_rules-fields :
      (name : String) (a b : Rule)
      → a.name ≡ b.name
      → is_nil (diff_rules printer name a b).fields ≡ same_rule a b
  unfolding diff_rules
  diff_rules-fields name a b h =
      rw ((eq_iff a.name b.name).1 h) (simp (is_nil-field, is_nil-last, and_assoc))

  abbrev pub HasFields : List RuleChange → Type 0
  HasFields = All (λ c. is_nil c.fields ≡ false)

  change-HasFields :
      (name : String) (before after : Option Rule)
      → ((a b : Rule) → before ≡ some a → after ≡ some b → a.name ≡ b.name)
      → differ after before ≡ true
      → (rest : List RuleChange) → HasFields rest
      → HasFields (change printer name before after ++ rest)
  unfolding change differ
  change-HasFields name none after names d rest h = h
  change-HasFields name (some a) none names d rest h = h
  change-HasFields name (some a) (some b) names d rest h = (
    diff_rules-fields name a b (names a b refl refl)
        ∙ ground (arith, same_rule-equal a b, same_rule-equal b a),
    h,
  )

  pub changes-HasFields :
      (from_map to_map : Map String Rule) (names : List String)
      → ((n : String) (a b : Rule)
          → get to_map n ≡ some a
          → get from_map n ≡ some b
          → a.name ≡ b.name)
      → ((n : String) → has names n ≡ true → differ (get from_map n) (get to_map n) ≡ true)
      → HasFields (changes printer from_map to_map names)
  unfolding changes
  changes-HasFields from_map to_map [] named d = tt
  changes-HasFields from_map to_map (n ∷ names) named d =
      change-HasFields n (get to_map n) (get from_map n) (named n)
        (d n (ground (arith, eq_iff n n))) (changes printer from_map to_map names)
        (changes-HasFields from_map to_map names named (λ m h. d m (ground arith)))
