-- ===== src/Loom/Examples.antt =====
-- An `apply` of crates/loom, and the theorems at it.
use kaleidoscope.Prelude.{
  ◌≡◌, ◌⊎◌, ◌↔◌, refl, true, String, none, some, List, [], ◌∷◌, Result, ok, codes,
}
use kaleidoscope.Prelude.Order.{nat_order, list_order}
use kaleidoscope.Prelude.BTree.{find, entry_with}
use kaleidoscope.Loom.Apply.{
  Files, Disk, LoaderDiagnostic, exit_code, apply, walk_trees, copy_tree, copy_files, copy_file,
  is_same, remove_files, remove_file,
}
use kaleidoscope.Loom.Applied.{IsMidway, apply-IsMidway}
use kaleidoscope.Beacon.Types.{Severity, Rule}
use kaleidoscope.Loom.Plan.{Printer, LoadOutcome, plan}
use kaleidoscope.Loom.Names.{has, rule_named}
use kaleidoscope.Loom.Fields.{HasFields}
use kaleidoscope.Loom.Differences.{Only, Differs, change_names, plan-names}
use kaleidoscope.Loom.Synced.{apply-same}

abbrev rules : Files
rules =
    (codes "checkout.toml" ∷ [], codes "[[rules]]")
    ∷ (codes "slo" ∷ codes "disk.toml" ∷ [], codes "[[slo]]")
    ∷ []

-- One file is old, one has to go.
abbrev deployed : Files
deployed = (codes "cart.toml" ∷ [], codes "[[rules]]") ∷ (codes "checkout.toml" ∷ [], codes "") ∷ []

abbrev disk : Disk
disk = record {
  walk_from = none;
  create_dir = none;
  walk_to = none;
  read = λ rel. none;
  read_old = λ rel. none;
  write = λ rel. none;
  remove = λ rel. none;
}

-- The rules load.
abbrev clean : Result (List LoaderDiagnostic) String
clean = ok []

-- A disk without room.
abbrev full : Disk
full = record disk { write = λ rel. some "no space left on device" }

ended : exit_code (apply disk clean rules deployed).1 ≡ 0
unfolding exit_code apply walk_trees copy_tree copy_files copy_file is_same find entry_with
    remove_files remove_file
ended = refl

ended_full : exit_code (apply full clean rules deployed).1 ≡ 2
unfolding exit_code apply walk_trees copy_tree copy_files copy_file is_same find
ended_full = refl

apply-same_example : (apply disk clean rules deployed).0 ≡ rules
apply-same_example =
    apply-same disk clean rules deployed ((refl, tt), (tt, tt)) ((refl, tt), (tt, tt)) ended

apply-IsMidway_example :
    IsMidway rules deployed (apply full clean rules deployed).0
    × (((apply full clean rules deployed).0 ≡ deployed) ⊎ (clean ≡ ok []))
apply-IsMidway_example =
    apply-IsMidway full clean rules deployed ((refl, tt), (tt, tt)) ((refl, tt), (tt, tt))

abbrev printer : Printer
printer = record { count = λ n. "n"; duration = λ d. "d" }

abbrev rule : Rule
rule = record {
  name = "disk";
  query = "disk_free < 1";
  for_duration = 60;
  interval = 30;
  severity = Severity.warning;
  labels = [];
  sinks = [];
  inhibits = [];
}

abbrev working_tree : LoadOutcome
working_tree = record {
  rules = record rule { severity = Severity.critical } ∷ record rule { name = "cpu" } ∷ [];
  diagnostics = [];
}

abbrev running : LoadOutcome
running = record { rules = rule ∷ record rule { name = "cart" } ∷ []; diagnostics = [] }

plan-names_example :
    ((has (plan printer (ok working_tree) (ok running)).added "disk" ≡ true)
      ↔ Only (rule_named working_tree.rules "disk") (rule_named running.rules "disk"))
    × ((has (plan printer (ok working_tree) (ok running)).removed "disk" ≡ true)
        ↔ Only (rule_named running.rules "disk") (rule_named working_tree.rules "disk"))
    × ((has (change_names (plan printer (ok working_tree) (ok running)).changed) "disk" ≡ true)
        ↔ Differs (rule_named working_tree.rules "disk") (rule_named running.rules "disk"))
    × HasFields printer (plan printer (ok working_tree) (ok running)).changed
plan-names_example = plan-names printer working_tree running "disk"
