-- ===== src/Loom/Applied.antt =====
-- crates/loom/src/apply.rs: what `apply` leaves in the destination.
use kaleidoscope.Prelude.{
  ◌≡◌, ◌⊎◌, inl, inr, refl, String, true, Option, none, some, List, [], ◌∷◌, Result, ok, err, All,
  arith,
}
use kaleidoscope.Prelude.Order.{nat_order, list_order, list_cmp-eq, same_or_not}
use kaleidoscope.Prelude.BTree.{
  find, entry_with, without, IsAscending, find-entry_with_self, find-entry_with_other,
  entry_with-IsAscending, without-IsAscending, find-without_self, find-without_other, find-entries,
}
use kaleidoscope.Loom.Apply.{
  RelPath, Bytes, Files, Disk, LoaderDiagnostic, empty, Progress, same_bytes, is_same, copy_file,
  copy_files, Fatal, unless_fatal, remove_file, remove_files, copy_tree, walk_trees, apply,
}

same_bytes-true : (a b : Bytes) → same_bytes a b ≡ true → a ≡ b
unfolding same_bytes
same_bytes-true a b h = ground (arith, list_cmp-eq a b)

pub is_same-find :
    (disk : Disk) (to : Files) (rel : RelPath) (new : Bytes)
    → is_same disk to rel new ≡ true
    → find to rel ≡ some new
unfolding is_same
is_same-find disk to rel new h = by_parts (disk.read_old rel) refl (find to rel) refl
  where
    by_parts :
        (e : Option String)
        → disk.read_old rel ≡ e
        → (old : Option Bytes) → find to rel ≡ old
        → find to rel ≡ some new
    by_parts (some e) eq old eq' = ground arith
    by_parts none eq none eq' = ground arith
    by_parts none eq (some old) eq' = ground (arith, same_bytes-true old new)

-- Every file that the source has.
abbrev pub AreOf : Files → Files → Type 0
AreOf source = All (λ e. find source e.0 ≡ some e.1)

module _ (disk : Disk) (source : Files) (P : Files → Type 0)
    (writes : (to : Files) (rel : RelPath) (new : Bytes)
      → find source rel ≡ some new
      → P to
      → P (entry_with to rel (λ old. new)))
    (drops : (to : Files) (rel : RelPath)
      → find source rel ≡ none
      → P to
      → P (without to rel)) where
  pub copy_file-keeps :
      (rel : RelPath) (new : Bytes) (now : Progress)
      → find source rel ≡ some new
      → P now.0
      → P (copy_file disk rel new now).0
  unfolding copy_file
  copy_file-keeps rel new now is p = ground (arith, writes now.0 rel new is p)

  unless_fatal-keeps :
      (e : Option Fatal) (next : Progress → Progress) (now : Progress)
      → P now.0
      → P (next now).0
      → P (unless_fatal e next now).0
  unfolding unless_fatal
  unless_fatal-keeps none next now p q = q
  unless_fatal-keeps (some e) next now p q = p

  pub copy_files-keeps :
      (rest : Files) (now : Progress) → AreOf source rest → P now.0 → P (copy_files disk rest now).0
  unfolding copy_files
  copy_files-keeps [] now is p = p
  copy_files-keeps ((rel, new) ∷ rest) now is p =
      let kept = copy_file-keeps rel new now is.0 p in
      unless_fatal-keeps (copy_file disk rel new now).1.fatal (copy_files disk rest)
        (copy_file disk rel new now) kept
        (copy_files-keeps rest (copy_file disk rel new now) is.1 kept)

  pub remove_file-keeps :
      (rel : RelPath) (now : Progress) → P now.0 → P (remove_file disk source rel now).0
  unfolding remove_file
  remove_file-keeps rel now p = ground (arith, drops now.0 rel)

  pub remove_files-keeps :
      (rest : Files) (now : Progress) → P now.0 → P (remove_files disk source rest now).0
  unfolding remove_files
  remove_files-keeps [] now p = p
  remove_files-keeps ((rel, old) ∷ rest) now p =
      let kept = remove_file-keeps rel now p in
      unless_fatal-keeps (remove_file disk source rel now).1.fatal (remove_files disk source rest)
        (remove_file disk source rel now) kept
        (remove_files-keeps rest (remove_file disk source rel now) kept)

  pub copy_tree-keeps : (to : Files) → IsAscending source → P to → P (copy_tree disk source to).0
  unfolding copy_tree
  copy_tree-keeps to a p =
      let copied = copy_files-keeps source (to, empty) (find-entries source a) p in
      unless_fatal-keeps (copy_files disk source (to, empty)).1.fatal (remove_files disk source to)
        (copy_files disk source (to, empty)) copied
        (remove_files-keeps to (copy_files disk source (to, empty)) copied)

  pub apply-keeps :
      (loaded : Result (List LoaderDiagnostic) String) (to : Files)
      → IsAscending source
      → P to
      → P (apply disk loaded source to).0
  unfolding apply walk_trees
  apply-keeps (err e) to a p = p
  apply-keeps (ok (d ∷ ds)) to a p = p
  apply-keeps (ok []) to a p = ground (arith, copy_tree-keeps to a p)

module _ (source : Files) where
  -- A file is as it was in the destination or as the source has it.
  abbrev pub IsMidway : Files → Files → Type 0
  IsMidway base to = (p : RelPath) → (find to p ≡ find base p) ⊎ (find to p ≡ find source p)

  write-IsMidway :
      (base to : Files) (rel : RelPath) (new : Bytes)
      → find source rel ≡ some new
      → IsAscending to × IsMidway base to
      → IsAscending (entry_with to rel (λ old. new))
        × IsMidway base (entry_with to rel (λ old. new))
  write-IsMidway base to rel new is (a, m) = (
    entry_with-IsAscending to rel (λ old. new) a,
    λ p. elim (same_or_not p rel) [
      | inl e ↦ inr (rw (e, find-entry_with_self to rel (λ old. new) a, is))
      | inr n ↦ rw (find-entry_with_other to rel (λ old. new) p n) (m p)
    ],
  )

  drop-IsMidway :
      (base to : Files) (rel : RelPath)
      → find source rel ≡ none
      → IsAscending to × IsMidway base to
      → IsAscending (without to rel) × IsMidway base (without to rel)
  drop-IsMidway base to rel is (a, m) = (
    without-IsAscending to rel a,
    λ p. elim (same_or_not p rel) [
      | inl e ↦ inr (rw (e, find-without_self to rel a, is))
      | inr n ↦ rw (find-without_other to rel p n) (m p)
    ],
  )

-- Whichever steps of the file system fail: afterwards every file of the destination is as it was or as the source
-- has it; and if the rules of the source do not load or have diagnostics, nothing has changed.
pub apply-IsMidway :
    (disk : Disk) (loaded : Result (List LoaderDiagnostic) String) (source to : Files)
    → IsAscending source
    → IsAscending to
    → IsMidway source to (apply disk loaded source to).0
      × (((apply disk loaded source to).0 ≡ to) ⊎ (loaded ≡ ok []))
unfolding apply
apply-IsMidway disk loaded source to a b = (
  (apply-keeps disk source (λ now. IsAscending now × IsMidway source to now)
      (write-IsMidway source to) (drop-IsMidway source to) loaded to a (b, λ p. inl refl)).1,
  checked loaded,
)
  where
    checked :
        (loaded : Result (List LoaderDiagnostic) String)
        → ((apply disk loaded source to).0 ≡ to) ⊎ (loaded ≡ ok [])
    checked (err e) = inl refl
    checked (ok (d ∷ ds)) = inl refl
    checked (ok []) = inr refl
