-- ===== src/Loom/Differences.antt =====
-- crates/loom/src/plan.rs: the lists of a plan name the rules that differ.
use kaleidoscope.Prelude.{
  ◌≡◌, ◌≢◌, ◌↔◌, refl, sym, ap, ◌∙◌, String, Bool, true, false, not, ◌&&◌, Option, none, some, List,
  [], ◌∷◌, map, ok, Bool-cases, inl, inr, ◌==◌, string_key, eq_iff, arith,
}
use kaleidoscope.Prelude.Order.{nat_order}
use kaleidoscope.Prelude.Map.{Map, get, contains_key, keys, contains_key-get}
use kaleidoscope.Beacon.Types.{Rule}
use kaleidoscope.Loom.Same.{
  list_key, option_key, severity_key, sink_key, same_rule, same_rule-equal,
}
use kaleidoscope.Loom.Plan.{
  Printer, RuleChange, LoadOutcome, diff_rules, collect, filter, sort, differ, change, changes,
  compare, plan,
}
use kaleidoscope.Loom.Names.{
  has, rule_named, rule_named-name, has-sort, has-filter, has-keys, get-collect, has-append,
}
use kaleidoscope.Loom.Fields.{HasFields, changes-HasFields}

abbrev pub Only : Option Rule → Option Rule → Type 0
Only (some a) none = Unit
Only _ _ = ⊥

abbrev pub Differs : Option Rule → Option Rule → Type 0
Differs (some a) (some b) = a ≢ b
Differs _ _ = ⊥

abbrev both : Option Rule → Option Rule → Bool
both (some a) (some b) = true
both _ _ = false

abbrev pub change_names : List RuleChange → List String
change_names = map (λ c. c.name)

module _ (printer : Printer) where
  has-change :
      (name n : String) (before after : Option Rule)
      → has (change_names (change printer name before after)) n ≡ ((name == n) && both before after)
  unfolding change diff_rules
  has-change name n none after = ground arith
  has-change name n (some a) none = ground arith
  has-change name n (some a) (some b) = ground arith

  has-changes :
      (from_map to_map : Map String Rule) (names : List String) (n : String)
      → has (change_names (changes printer from_map to_map names)) n
        ≡ (has names n && both (get to_map n) (get from_map n))
  unfolding changes
  has-changes from_map to_map [] n = refl
  has-changes from_map to_map (name ∷ names) n = ground (
    arith,
    eq_iff name n,
    has-append (change printer name (get to_map name) (get from_map name))
        (changes printer from_map to_map names) n,
    has-change name n (get to_map name) (get from_map name),
    has-changes from_map to_map names n,
  )

-- The map of a catalogue, and what is asked of two of its answers.
catalogue : List Rule → Map String Rule
catalogue rules = collect [] rules

get-catalogue : (rules : List Rule) (n : String) → get (catalogue rules) n ≡ rule_named rules n
unfolding catalogue get
get-catalogue rules n = ground (arith, get-collect [] rules n)

only :
    (a b : Option Rule) (x y : Bool)
    → x ≡ elim a [ none ↦ false | some r ↦ true ]
    → y ≡ elim b [ none ↦ false | some r ↦ true ]
    → ((x && not y) ≡ true) ↔ Only a b
only none b x y p q = (λ h. ground arith, λ h. elim h [ ])
only (some r) none x y p q = (λ h. tt, λ h. ground arith)
only (some r) (some s) x y p q = (λ h. ground arith, λ h. elim h [ ])

differs : (a b : Option Rule) → (differ a b ≡ true) ↔ Differs a b
unfolding differ
differs none b = (λ h. cc, λ h. elim h [ ])
differs (some a) none = (λ h. cc, λ h. elim h [ ])
differs (some a) (some b) = (
  λ h e. ground (arith, (same_rule-equal a b).1 e),
  λ n. elim (Bool-cases (same_rule a b)) [
    | inl e ↦ elim (n ((same_rule-equal a b).0 e)) [ ]
    | inr e ↦ rw e refl
  ],
)

found :
    (a b : Option Rule) (x y : Bool)
    → x ≡ elim a [ none ↦ false | some r ↦ true ]
    → y ≡ elim b [ none ↦ false | some r ↦ true ]
    → ((x && (y && differ a b)) && both b a) ≡ differ a b
unfolding differ
found none b x y p q = ground arith
found (some r) none x y p q = ground arith
found (some r) (some s) x y p q = ground arith

contains-catalogue :
    (rules : List Rule) (n : String)
    → contains_key (catalogue rules) n ≡ elim (rule_named rules n) [ none ↦ false | some r ↦ true ]
contains-catalogue rules n =
    ground (arith, contains_key-get (catalogue rules) n, get-catalogue rules n)

has-only :
    (xs ys : List Rule) (n : String)
    → has (sort (filter (λ n. not (contains_key (catalogue ys) n)) (keys (catalogue xs)))) n
      ≡ (contains_key (catalogue xs) n && not (contains_key (catalogue ys) n))
has-only xs ys n =
    has-sort (filter (λ n. not (contains_key (catalogue ys) n)) (keys (catalogue xs))) n
    ∙ has-filter (λ n. not (contains_key (catalogue ys) n)) (keys (catalogue xs)) n
    ∙ ap (λ b. b && not (contains_key (catalogue ys) n)) (has-keys (catalogue xs) n)

listed :
    (xs ys : List Rule) (n : String)
    → (has (sort (filter (λ n. not (contains_key (catalogue ys) n)) (keys (catalogue xs)))) n
        ≡ true)
      ↔ Only (rule_named xs n) (rule_named ys n)
listed xs ys n =
    let same =
      only (rule_named xs n) (rule_named ys n) (contains_key (catalogue xs) n)
        (contains_key (catalogue ys) n) (contains-catalogue xs n) (contains-catalogue ys n) in
    (λ h. same.0 (sym (has-only xs ys n) ∙ h), λ o. has-only xs ys n ∙ same.1 o)

-- The names whose rules differ.
differing : List Rule → List Rule → List String
differing xs ys = sort (
    filter
      (λ n. contains_key (catalogue ys) n && differ (get (catalogue xs) n) (get (catalogue ys) n))
      (keys (catalogue xs)))

has-differing :
    (xs ys : List Rule) (n : String)
    → has (differing xs ys) n ≡ (
        contains_key (catalogue xs) n
        && (contains_key (catalogue ys) n && differ (rule_named xs n) (rule_named ys n)))
unfolding differing
has-differing xs ys n =
    let test : String → Bool =
      λ n. contains_key (catalogue ys) n && differ (get (catalogue xs) n) (get (catalogue ys) n) in
    has-sort (filter test (keys (catalogue xs))) n
    ∙ has-filter test (keys (catalogue xs)) n
    ∙ ap (λ b. b && test n) (has-keys (catalogue xs) n)
    ∙ rw (get-catalogue xs n, get-catalogue ys n) refl

differing-differ :
    (xs ys : List Rule) (n : String)
    → has (differing xs ys) n ≡ true
    → differ (get (catalogue xs) n) (get (catalogue ys) n) ≡ true
differing-differ xs ys n h =
    ground (arith, has-differing xs ys n, get-catalogue xs n, get-catalogue ys n)

-- Of two catalogues that were read: a plan lists as added exactly the names that only the first has a rule of, as removed
-- those that only the second has, and as changed those of which both have one and the two differ; every change lists
-- a field. Of several rules of a name in one catalogue, the last counts.
pub plan-names :
    (printer : Printer) (from to : LoadOutcome) (n : String)
    → ((has (plan printer (ok from) (ok to)).added n ≡ true)
        ↔ Only (rule_named from.rules n) (rule_named to.rules n))
      × ((has (plan printer (ok from) (ok to)).removed n ≡ true)
          ↔ Only (rule_named to.rules n) (rule_named from.rules n))
      × ((has (change_names (plan printer (ok from) (ok to)).changed) n ≡ true)
          ↔ Differs (rule_named from.rules n) (rule_named to.rules n))
      × HasFields printer (plan printer (ok from) (ok to)).changed
unfolding plan compare catalogue differing
plan-names printer from to n =
    let xs = from.rules in
    let ys = to.rules in
    let named =
      has-changes printer (catalogue xs) (catalogue ys) (differing xs ys) n
      ∙ rw (has-differing xs ys n, get-catalogue xs n, get-catalogue ys n)
          (found (rule_named xs n) (rule_named ys n) (contains_key (catalogue xs) n)
            (contains_key (catalogue ys) n) (contains-catalogue xs n) (contains-catalogue ys n)) in
    let same = differs (rule_named xs n) (rule_named ys n) in
    (
      listed xs ys n,
      listed ys xs n,
      (λ h. same.0 (sym named ∙ h), λ d. named ∙ same.1 d),
      changes-HasFields printer (catalogue xs) (catalogue ys) (differing xs ys)
          (λ m a b h k.
            rule_named-name ys m a (sym (get-catalogue ys m) ∙ h)
            ∙ sym (rule_named-name xs m b (sym (get-catalogue xs m) ∙ k)))
          (differing-differ xs ys),
    )
