-- ===== src/Loom/Synced.antt =====
-- crates/loom/src/apply.rs: an `apply` that ends without an error.
use kaleidoscope.Prelude.{
  ◌≡◌, inl, inr, refl, sym, ◌∙◌, String, Option, none, some, List, [], ◌∷◌, Result, ok, err, All,
  arith,
}
use kaleidoscope.Prelude.Order.{nat_order, list_order, same_or_not}
use kaleidoscope.Prelude.BTree.{
  find, entry_with, without, IsAscending, find-entry_with_self, find-entry_with_other,
  entry_with-IsAscending, without-IsAscending, find-without_self, find-without_other, find-entries,
  All-find, same_map,
}
use kaleidoscope.Loom.Apply.{
  RelPath, Bytes, Files, Disk, LoaderDiagnostic, empty, Progress, exit_code, copy_file, copy_files,
  Fatal, unless_fatal, remove_file, remove_files, copy_tree, walk_trees, apply,
}
use kaleidoscope.Loom.Applied.{
  AreOf, copy_file-keeps, copy_files-keeps, remove_file-keeps, remove_files-keeps, copy_tree-keeps,
  is_same-find,
}

-- What holds after steps that end without an error: they ran to the end.
unless_fatal-none :
    (Q : Files → Type 0) (e : Option Fatal) (next : Progress → Progress) (now : Progress)
    → (unless_fatal e next now).1.fatal ≡ none
    → now.1.fatal ≡ e
    → (now.1.fatal ≡ none → (next now).1.fatal ≡ none → Q (next now).0)
    → Q (unless_fatal e next now).0
unfolding unless_fatal
unless_fatal-none Q none next now h same q = q same h
unless_fatal-none Q (some e) next now h same q = cc

module _ (disk : Disk) (source : Files) where
  copy_file-find :
      (rel : RelPath) (new : Bytes) (now : Progress)
      → IsAscending now.0
      → (copy_file disk rel new now).1.fatal ≡ none
      → find (copy_file disk rel new now).0 rel ≡ some new
  unfolding copy_file
  copy_file-find rel new now a h =
      ground (arith, is_same-find disk now.0 rel new, find-entry_with_self now.0 rel (λ old. new) a)

  remove_file-find :
      (rel : RelPath) (now : Progress)
      → IsAscending now.0
      → (remove_file disk source rel now).1.fatal ≡ none
      → find source rel ≡ none
      → find (remove_file disk source rel now).0 rel ≡ none
  unfolding remove_file
  remove_file-find rel now a h is = ground (arith, find-without_self now.0 rel a)

  module _ (at : RelPath) where
    -- What the source says of a path is kept by every step.
    abbrev Holds : Files → Type 0
    Holds to = IsAscending to × (find to at ≡ find source at)

    write-Holds :
        (to : Files) (rel : RelPath) (new : Bytes)
        → find source rel ≡ some new
        → Holds to
        → Holds (entry_with to rel (λ old. new))
    write-Holds to rel new is (a, h) = (
      entry_with-IsAscending to rel (λ old. new) a,
      elim (same_or_not at rel) [
        | inl e ↦ rw (e, find-entry_with_self to rel (λ old. new) a, is)
        | inr n ↦ rw (find-entry_with_other to rel (λ old. new) at n) h
      ],
    )

    drop-Holds :
        (to : Files) (rel : RelPath) → find source rel ≡ none → Holds to → Holds (without to rel)
    drop-Holds to rel is (a, h) = (
      without-IsAscending to rel a,
      elim (same_or_not at rel) [
        | inl e ↦ rw (e, find-without_self to rel a, is)
        | inr n ↦ rw (find-without_other to rel at n) h
      ],
    )

  write-IsAscending :
      (to : Files) (rel : RelPath) (new : Bytes)
      → find source rel ≡ some new
      → IsAscending to
      → IsAscending (entry_with to rel (λ old. new))
  write-IsAscending to rel new is a = entry_with-IsAscending to rel (λ old. new) a

  drop-IsAscending :
      (to : Files) (rel : RelPath)
      → find source rel ≡ none
      → IsAscending to
      → IsAscending (without to rel)
  drop-IsAscending to rel is a = without-IsAscending to rel a

  copy_files-find :
      (rest : Files) (now : Progress)
      → AreOf source rest
      → IsAscending now.0
      → (copy_files disk rest now).1.fatal ≡ none
      → All (λ e. find (copy_files disk rest now).0 e.0 ≡ find source e.0) rest
  unfolding copy_files
  copy_files-find [] now is a h = tt
  copy_files-find ((rel, new) ∷ rest) now is a h =
      let ascending =
        copy_file-keeps disk source IsAscending write-IsAscending drop-IsAscending rel new now is.0
          a in
      unless_fatal-none (λ to. All (λ e. find to e.0 ≡ find source e.0) ((rel, new) ∷ rest))
        (copy_file disk rel new now).1.fatal (copy_files disk rest) (copy_file disk rel new now) h
        refl
        λ copied ends. (
          (copy_files-keeps disk source (Holds rel) (write-Holds rel) (drop-Holds rel) rest
              (copy_file disk rel new now) is.1
              (ascending, copy_file-find rel new now a copied ∙ sym is.0)).1,
          copy_files-find rest (copy_file disk rel new now) is.1 ascending ends,
        )

  remove_files-find :
      (rest : Files) (now : Progress)
      → IsAscending now.0
      → (remove_files disk source rest now).1.fatal ≡ none
      → All
          (λ e. find source e.0 ≡ none → find (remove_files disk source rest now).0 e.0 ≡ none)
          rest
  unfolding remove_files
  remove_files-find [] now a h = tt
  remove_files-find ((rel, old) ∷ rest) now a h =
      let ascending =
        remove_file-keeps disk source IsAscending write-IsAscending drop-IsAscending rel now a in
      unless_fatal-none
        (λ to. All (λ e. find source e.0 ≡ none → find to e.0 ≡ none) ((rel, old) ∷ rest))
        (remove_file disk source rel now).1.fatal (remove_files disk source rest)
        (remove_file disk source rel now) h refl
        λ removed ends. (
          λ is.
              (remove_files-keeps disk source (Holds rel) (write-Holds rel) (drop-Holds rel) rest
                (remove_file disk source rel now)
                (ascending, remove_file-find rel now a removed is ∙ sym is)).1
              ∙ is,
          remove_files-find rest (remove_file disk source rel now) ascending ends,
        )

  copy_tree-find :
      (to : Files)
      → IsAscending source
      → IsAscending to
      → (copy_tree disk source to).1.fatal ≡ none
      → (p : RelPath) → find (copy_tree disk source to).0 p ≡ find source p
  unfolding copy_tree
  copy_tree-find to a b h p =
      let copied = copy_files disk source (to, empty) in
      let entries = find-entries source a in
      let ascending =
        copy_files-keeps disk source IsAscending write-IsAscending drop-IsAscending source
          (to, empty) entries b in
      unless_fatal-none (λ to'. find to' p ≡ find source p) copied.1.fatal
        (remove_files disk source to) copied h refl
        λ ran ends. by_cases ran ends ascending (find source p) refl (find to p) refl
    where
      by_cases :
          (copy_files disk source (to, empty)).1.fatal ≡ none
          → (remove_files disk source to (copy_files disk source (to, empty))).1.fatal ≡ none
          → IsAscending (copy_files disk source (to, empty)).0
          → (new : Option Bytes) → find source p ≡ new
          → (old : Option Bytes) → find to p ≡ old
          → find (remove_files disk source to (copy_files disk source (to, empty))).0 p
            ≡ find source p
      by_cases ran ends ascending (some new) is old was =
          (remove_files-keeps disk source (Holds p) (write-Holds p) (drop-Holds p) to
            (copy_files disk source (to, empty))
            (
              ascending,
              All-find (λ q bytes. find (copy_files disk source (to, empty)).0 q ≡ find source q)
                  source p new (copy_files-find source (to, empty) (find-entries source a) b ran)
                  is,
            )).1
      by_cases ran ends ascending none is (some old) was =
          All-find
            (λ q bytes.
              find source q ≡ none
              → find (remove_files disk source to (copy_files disk source (to, empty))).0 q ≡ none)
            to p old (remove_files-find to (copy_files disk source (to, empty)) ascending ends) was
            is
          ∙ sym is
      by_cases ran ends ascending none is none was =
          (remove_files-keeps disk source (Holds p) (write-Holds p) (drop-Holds p) to
            (copy_files disk source (to, empty))
            (copy_files-keeps disk source (Holds p) (write-Holds p) (drop-Holds p) source
              (to, empty) (find-entries source a) (b, was ∙ sym is))).1

  copy_tree-same :
      (to : Files)
      → IsAscending source
      → IsAscending to
      → (copy_tree disk source to).1.fatal ≡ none
      → (copy_tree disk source to).0 ≡ source
  copy_tree-same to a b h =
      same_map (copy_tree disk source to).0 source
        (copy_tree-keeps disk source IsAscending write-IsAscending drop-IsAscending to a b) a
        (copy_tree-find to a b h)

-- If `apply` ends with exit code 0, the rule files of the destination are those of the source: no more, no less, and
-- with the same bytes, whatever the destination had before.
pub apply-same :
    (disk : Disk) (loaded : Result (List LoaderDiagnostic) String) (source to : Files)
    → IsAscending source
    → IsAscending to
    → exit_code (apply disk loaded source to).1 ≡ 0
    → (apply disk loaded source to).0 ≡ source
unfolding apply walk_trees exit_code
apply-same disk (err e) source to a b h = ground arith
apply-same disk (ok (d ∷ ds)) source to a b h = ground arith
apply-same disk (ok []) source to a b h = ground (arith, copy_tree-same disk source to a b)
