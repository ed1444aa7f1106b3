-- ===== src/Loom/Names.antt =====
-- crates/loom/src/plan.rs: the names in its lists and in its maps.
use kaleidoscope.Prelude.{
  ◌≡◌, refl, String, Bool, false, ◌&&◌, ◌||◌, Option, none, some, List, [], ◌∷◌, ◌++◌, map,
  if◌then◌else◌, ◌==◌, string_key, eq_iff, arith,
}
use kaleidoscope.Prelude.Order.{nat_order}
use kaleidoscope.Prelude.Map.{Map, get, contains_key, insert, keys, get-insert}
use kaleidoscope.Beacon.Types.{Rule}
use kaleidoscope.Loom.Same.{list_key, option_key, severity_key, sink_key}
use kaleidoscope.Loom.Plan.{RuleChange, collect, filter, place, sort}

-- Whether a list has a name.
abbrev pub has : List String → String → Bool
has [] n = false
has (m ∷ names) n = (m == n) || has names n

-- The rule of a name; of several, the last.
abbrev pub rule_named : List Rule → String → Option Rule
rule_named [] n = none
rule_named (r ∷ rules) n = elim (rule_named rules n) [
  | some s ↦ some s
  | none ↦ if r.name == n then some r else none
]

has-place :
    (m : String) (names : List String) (n : String)
    → has (place m names) n ≡ ((m == n) || has names n)
unfolding place
has-place m [] n = refl
has-place m (k ∷ names) n = ground (arith, has-place m names n)

pub has-sort : (names : List String) (n : String) → has (sort names) n ≡ has names n
unfolding sort
has-sort [] n = refl
has-sort (m ∷ names) n = ground (arith, has-place m (sort names) n, has-sort names n)

pub has-filter :
    (test : String → Bool) (names : List String) (n : String)
    → has (filter test names) n ≡ (has names n && test n)
unfolding filter
has-filter test [] n = refl
has-filter test (m ∷ names) n = ground (arith, eq_iff m n, has-filter test names n)

pub has-keys : (m : Map String Rule) (n : String) → has (keys m) n ≡ contains_key m n
unfolding keys contains_key
has-keys [] n = refl
has-keys ((k, r) ∷ m) n = ground (arith, has-keys m n)

pub get-collect :
    (m : Map String Rule) (rules : List Rule) (n : String)
    → get (collect m rules) n ≡ elim (rule_named rules n) [ some s ↦ some s | none ↦ get m n ]
unfolding collect
get-collect m [] n = refl
get-collect m (r ∷ rules) n =
    ground (arith, get-collect (insert m r.name r) rules n, get-insert m r.name r n)

pub has-append :
    (xs ys : List RuleChange) (n : String)
    → has (map (λ c. c.name) (xs ++ ys)) n
      ≡ (has (map (λ c. c.name) xs) n || has (map (λ c. c.name) ys) n)
has-append [] ys n = refl
has-append (x ∷ xs) ys n = ground (arith, has-append xs ys n)

pub rule_named-name :
    (rules : List Rule) (n : String) (r : Rule) → rule_named rules n ≡ some r → r.name ≡ n
rule_named-name [] n r h = cc
rule_named-name (s ∷ rules) n r h = ground (arith, eq_iff s.name n, rule_named-name rules n r)
