-- ===== src/Loom/Apply.antt =====
-- crates/loom/src/apply.rs: the copy of the rule files. A directory is the map of its `.toml` files, by their
-- paths within it, in the order in which the walk gives them. Which steps of the file system fail is an
-- argument; a write or a removal that fails leaves its file, as `atomic_write` promises. A message is the data
-- that it formats.
use kaleidoscope.Prelude.{
  ℕ, String, Bool, true, false, Option, none, some, List, [], ◌∷◌, ◌++◌, Result, ok, err,
  if◌then◌else◌, is_nil,
}
use Prim.Native.Nat.{Ordering}
use kaleidoscope.Prelude.Order.{nat_order, list_order, list_cmp}
use kaleidoscope.Prelude.BTree.{BTreeMap, find, entry_with, without}

-- The names from the root to the file.
abbrev pub RelPath : Type 0
RelPath = List (List ℕ)

abbrev pub Bytes : Type 0
Bytes = List ℕ

abbrev pub Files : Type 0
Files = BTreeMap RelPath Bytes

-- The results of the calls to the file system, but for the bytes that are read.
pub record Disk : Type 0 where
  pub walk_from : Option String
  pub create_dir : Option String
  pub walk_to : Option String
  pub read : RelPath → Option String
  pub read_old : RelPath → Option String
  pub write : RelPath → Option String
  pub remove : RelPath → Option String

pub record LoaderDiagnostic : Type 0 where
  pub file : RelPath
  pub message : String
  pub suggestion : Option String

pub data Fatal : Type 0 where
  not_loaded : String → Fatal
  from_walk : String → Fatal
  to_mkdir : String → Fatal
  to_walk : String → Fatal
  not_read : RelPath → String → Fatal
  not_written : RelPath → String → Fatal
  not_removed : RelPath → String → Fatal

pub record ApplyOutcome : Type 0 where
  pub written : List RelPath
  pub removed : List RelPath
  pub unchanged : List RelPath
  pub diagnostics : List LoaderDiagnostic
  pub fatal : Option Fatal

unfoldable pub exit_code : ApplyOutcome → ℕ
exit_code outcome = elim outcome.fatal [
  | some e ↦ 2
  | none ↦ if is_nil outcome.diagnostics then 0 else 1
]

abbrev pub empty : ApplyOutcome
empty = record { written = []; removed = []; unchanged = []; diagnostics = []; fatal = none }

-- The destination and the outcome.
abbrev pub Progress : Type 0
Progress = Files × ApplyOutcome

unfoldable pub same_bytes : Bytes → Bytes → Bool
same_bytes a b = elim (list_cmp a b) [ Ordering.eq ↦ true | _ ↦ false ]

-- Whether the destination has these bytes; a file that cannot be read is not the same.
unfoldable pub is_same : Disk → Files → RelPath → Bytes → Bool
unfolding same_bytes
is_same disk to rel new_bytes = elim (disk.read_old rel) [
  | some e ↦ false
  | none ↦ elim (find to rel) [ none ↦ false | some existing ↦ same_bytes existing new_bytes ]
]

-- A round of the first loop.
unfoldable pub copy_file : Disk → RelPath → Bytes → Progress → Progress
copy_file disk rel new_bytes (to, outcome) = elim (disk.read rel) [
  | some e ↦ (to, record outcome { fatal = some (not_read rel e) })
  | none ↦
      if is_same disk to rel new_bytes
      then (to, record outcome { unchanged = outcome.unchanged ++ rel ∷ [] })
      else elim (disk.write rel) [
        | some e ↦ (to, record outcome { fatal = some (not_written rel e) })
        | none ↦ (
          entry_with to rel (λ old. new_bytes),
          record outcome { written = outcome.written ++ rel ∷ [] },
        )
      ]
]

-- Whether the next step is done: not after a failure, where the loop breaks.
unfoldable pub unless_fatal : Option Fatal → (Progress → Progress) → Progress → Progress
unless_fatal none next now = next now
unless_fatal (some e) next now = now

abbrev pub and_then : Progress → (Progress → Progress) → Progress
and_then now next = unless_fatal now.1.fatal next now

unfoldable pub copy_files : Disk → Files → Progress → Progress
unfolding unless_fatal
copy_files disk [] now = now
copy_files disk ((rel, new_bytes) ∷ source) now =
    and_then (copy_file disk rel new_bytes now) (copy_files disk source)

-- A round of the second loop.
unfoldable pub remove_file : Disk → Files → RelPath → Progress → Progress
remove_file disk source rel (to, outcome) = elim (find source rel) [
  | some bytes ↦ (to, outcome)
  | none ↦ elim (disk.remove rel) [
    | some e ↦ (to, record outcome { fatal = some (not_removed rel e) })
    | none ↦ (without to rel, record outcome { removed = outcome.removed ++ rel ∷ [] })
  ]
]

unfoldable pub remove_files : Disk → Files → Files → Progress → Progress
unfolding unless_fatal
remove_files disk source [] now = now
remove_files disk source ((rel, old) ∷ dest) now =
    and_then (remove_file disk source rel now) (remove_files disk source dest)

-- The two loops.
unfoldable pub copy_tree : Disk → Files → Files → Progress
unfolding unless_fatal
copy_tree disk source to =
    and_then (copy_files disk source (to, empty)) (remove_files disk source to)

-- The walks, and the directory that is made between them.
unfoldable pub walk_trees : Disk → Files → Files → Progress
walk_trees disk source to = elim disk.walk_from [
  | some e ↦ (to, record empty { fatal = some (from_walk e) })
  | none ↦ elim disk.create_dir [
    | some e ↦ (to, record empty { fatal = some (to_mkdir e) })
    | none ↦ elim disk.walk_to [
      | some e ↦ (to, record empty { fatal = some (to_walk e) })
      | none ↦ copy_tree disk source to
    ]
  ]
]

-- `apply(from, to)`, with what `load_rules(from)` gives.
unfoldable pub apply : Disk → Result (List LoaderDiagnostic) String → Files → Files → Progress
apply disk (err e) source to = (to, record empty { fatal = some (not_loaded e) })
apply disk (ok (d ∷ ds)) source to = (to, record empty { diagnostics = d ∷ ds })
apply disk (ok []) source to = walk_trees disk source to
