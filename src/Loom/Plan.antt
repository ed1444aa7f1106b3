-- ===== src/Loom/Plan.antt =====
-- crates/loom/src/plan.rs: the difference of two catalogues of rules. How numbers and durations are printed is a
-- parameter.
use Prim.Native.String.{◌++◌ as append}
use Prim.Native.Nat.{Ordering}
use kaleidoscope.Prelude.{
  ℕ, String, Bool, true, false, not, ◌&&◌, Option, none, some, List, [], ◌∷◌, ◌++◌, Result, ok, err,
  if◌then◌else◌, is_nil, codes, length, ◌==◌, string_key, nat_key, pair_key,
}
use kaleidoscope.Prelude.Order.{nat_order, list_cmp}
use kaleidoscope.Prelude.Map.{Map, get, contains_key, insert, keys}
use kaleidoscope.Beacon.Types.{Duration, Severity, SinkConfig, Rule}
use kaleidoscope.Loom.Apply.{LoaderDiagnostic}
use kaleidoscope.Loom.Same.{list_key, option_key, severity_key, sink_key, same_rule, rule_key}

-- `{}` of a count and `{:?}` of a `Duration`.
pub record Printer : Type 0 where
  pub count : ℕ → String
  pub duration : Duration → String

pub record FieldChange : Type 0 where
  pub field : String
  pub before : String
  pub after : String

pub record RuleChange : Type 0 where
  pub name : String
  pub fields : List FieldChange

pub record PlanOutcome : Type 0 where
  pub added : List String
  pub removed : List String
  pub changed : List RuleChange
  pub diagnostics_from : List LoaderDiagnostic
  pub diagnostics_to : List LoaderDiagnostic
  pub fatal : Option String

pub record LoadOutcome : Type 0 where
  pub rules : List Rule
  pub diagnostics : List LoaderDiagnostic

unfoldable pub severity_label : Severity → String
severity_label Severity.info = "info"
severity_label Severity.warning = "warning"
severity_label Severity.critical = "critical"

-- `parts.join(", ")`
unfoldable pub join : List String → String
join [] = ""
join (x ∷ []) = x
join (x ∷ y ∷ xs) = append x (append ", " (join (y ∷ xs)))

unfoldable pub label_pairs : Map String String → List String
label_pairs [] = []
label_pairs ((k, v) ∷ labels) = append k (append "=" v) ∷ label_pairs labels

unfoldable pub format_labels : Map String String → String
unfolding join label_pairs
format_labels labels =
    if is_nil labels then "{}" else append "{" (append (join (label_pairs labels)) "}")

unfoldable pub format_inhibits : List String → String
unfolding join
format_inhibits inhibits = if is_nil inhibits then "[]" else append "[" (append (join inhibits) "]")

-- `if before.f != after.f { fields.push(…) }`
unfoldable pub field_change : Bool → String → String → String → List FieldChange
field_change true field before after = []
field_change false field before after =
    record { field = field; before = before; after = after } ∷ []

module _ (printer : Printer) where
  unfoldable pub sink_count : List SinkConfig → String
  sink_count sinks = append "(" (append (printer.count (length sinks)) " sinks)")

  unfoldable pub diff_rules : String → Rule → Rule → RuleChange
  unfolding field_change
  diff_rules name before after = record {
    name = name;
    fields =
        field_change (before.query == after.query) "query" before.query after.query
        ++ (field_change (before.for_duration == after.for_duration) "for_duration"
              (printer.duration before.for_duration) (printer.duration after.for_duration)
            ++ (field_change (before.interval == after.interval) "interval"
                  (printer.duration before.interval) (printer.duration after.interval)
                ++ (field_change (before.severity == after.severity) "severity"
                      (severity_label before.severity) (severity_label after.severity)
                    ++ (field_change (before.labels == after.labels) "labels"
                          (format_labels before.labels) (format_labels after.labels)
                        ++ (field_change (before.sinks == after.sinks) "sinks"
                              (sink_count before.sinks) (sink_count after.sinks)
                            ++ field_change (before.inhibits == after.inhibits) "inhibits"
                                (format_inhibits before.inhibits)
                                (format_inhibits after.inhibits))))));
  }

-- `rules.iter().map(|r| (r.name.as_str(), r)).collect()`
unfoldable pub collect : Map String Rule → List Rule → Map String Rule
collect m [] = m
collect m (r ∷ rules) = collect (insert m r.name r) rules

unfoldable pub filter : (String → Bool) → List String → List String
filter test [] = []
filter test (n ∷ names) = let rest = filter test names in if test n then n ∷ rest else rest

unfoldable pub place : String → List String → List String
place n [] = n ∷ []
place n (m ∷ names) = elim (list_cmp (codes n) (codes m)) [
  | Ordering.gt ↦ m ∷ place n names
  | _ ↦ n ∷ m ∷ names
]

unfoldable pub sort : List String → List String
unfolding place
sort [] = []
sort (n ∷ names) = place n (sort names)

-- Whether a name has two rules that differ.
unfoldable pub differ : Option Rule → Option Rule → Bool
differ none b = false
differ (some a) none = false
differ (some a) (some b) = not (same_rule a b)

module _ (printer : Printer) where
  -- A name that is listed has both rules.
  unfoldable pub change : String → Option Rule → Option Rule → List RuleChange
  unfolding diff_rules
  change name none after = []
  change name (some before) none = []
  change name (some before) (some after) = diff_rules printer name before after ∷ []

  unfoldable pub changes : Map String Rule → Map String Rule → List String → List RuleChange
  unfolding change
  changes from_map to_map [] = []
  changes from_map to_map (name ∷ names) =
      change name (get to_map name) (get from_map name) ++ changes from_map to_map names

  -- The three lists.
  unfoldable pub compare : LoadOutcome → LoadOutcome → PlanOutcome
  unfolding collect filter sort differ changes
  compare from to =
      let from_map = collect [] from.rules in
      let to_map = collect [] to.rules in
      record {
        added = sort (filter (λ n. not (contains_key to_map n)) (keys from_map));
        removed = sort (filter (λ n. not (contains_key from_map n)) (keys to_map));
        changed = changes from_map to_map (
            sort (
              filter (λ n. contains_key to_map n && differ (get from_map n) (get to_map n))
                (keys from_map)));
        diagnostics_from = from.diagnostics;
        diagnostics_to = to.diagnostics;
        fatal = none;
      }

  unfoldable pub unread : List LoaderDiagnostic → List LoaderDiagnostic → String → PlanOutcome
  unread from to reason = record {
    added = [];
    removed = [];
    changed = [];
    diagnostics_from = from;
    diagnostics_to = to;
    fatal = some reason;
  }

  -- `plan(from, to)`, with what `load_rules` gives of each.
  unfoldable pub plan : Result LoadOutcome String → Result LoadOutcome String → PlanOutcome
  unfolding compare unread
  plan (ok from) (ok to) = compare from to
  plan (ok from) (err b) = unread from.diagnostics [] (append "to: " b)
  plan (err a) (ok to) = unread [] to.diagnostics (append "from: " a)
  plan (err a) (err b) = unread [] [] (append "from: " (append a (append "; to: " b)))

unfoldable pub exit_code : PlanOutcome → ℕ
exit_code outcome = elim outcome.fatal [
  | some e ↦ 2
  | none ↦ if is_nil outcome.diagnostics_from && is_nil outcome.diagnostics_to then 0 else 1
]
