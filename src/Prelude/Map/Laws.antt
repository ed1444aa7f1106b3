-- ===== src/Prelude/Map/Laws.antt =====
-- What `get` and `contains_key` see after a write, and that writes keep keys unique.
use mathlib.Core.Path.{◌≡◌, refl}
use mathlib.Core.Bool.{true, false}
use mathlib.Core.Option.{none, some}
use mathlib.Core.List.{[], ◌∷◌}
use native.Mathlib.Omega.{arith}
use kaleidoscope.Prelude.Tests.{if◌then◌else◌}
use kaleidoscope.Prelude.Classes.{Key, ◌==◌}
use kaleidoscope.Prelude.Map.Defs.{Map, get, contains_key, insert, remove, IsUnique}

module _ {ℓ κ} {K : Type ℓ} {V : Type κ} ⦃e : Key K⦄ where
  pub get-insert :
      (m : Map K V) (k : K) (v : V) (j : K)
      → get (insert m k v) j ≡ (if k == j then some v else get m j)
  unfolding get insert
  get-insert [] k v j = refl
  get-insert ((i, w) ∷ m) k v j =
      ground (arith, e.same_iff i k, e.same_iff i j, e.same_iff k j, get-insert m k v j)

  pub get-remove : (m : Map K V) (k j : K) → get (remove m k) j ≡ (if k == j then none else get m j)
  unfolding get remove
  get-remove [] k j = ground arith
  get-remove ((i, w) ∷ m) k j =
      ground (arith, e.same_iff i k, e.same_iff i j, e.same_iff k j, get-remove m k j)

  pub contains_key-insert :
      (m : Map K V) (k : K) (v : V) (j : K)
      → contains_key (insert m k v) j ≡ (if k == j then true else contains_key m j)
  unfolding contains_key insert
  contains_key-insert [] k v j = refl
  contains_key-insert ((i, w) ∷ m) k v j =
      ground (arith, e.same_iff i k, e.same_iff i j, e.same_iff k j, contains_key-insert m k v j)

  pub contains_key-remove :
      (m : Map K V) (k j : K)
      → contains_key (remove m k) j ≡ (if k == j then false else contains_key m j)
  unfolding contains_key remove
  contains_key-remove [] k j = ground arith
  contains_key-remove ((i, w) ∷ m) k j =
      ground (arith, e.same_iff i k, e.same_iff i j, e.same_iff k j, contains_key-remove m k j)

  pub insert-IsUnique : (m : Map K V) (k : K) (v : V) → IsUnique m → IsUnique (insert m k v)
  unfolding insert contains_key
  insert-IsUnique [] k v h = (refl, tt)
  insert-IsUnique ((i, w) ∷ m) k v h = ground (
    arith,
    e.same_iff i k,
    e.same_iff k i,
    contains_key-insert m k v i,
    insert-IsUnique m k v h.1,
  )

  pub remove-IsUnique : (m : Map K V) (k : K) → IsUnique m → IsUnique (remove m k)
  unfolding remove
  remove-IsUnique [] k h = tt
  remove-IsUnique ((i, w) ∷ m) k h =
      ground (arith, contains_key-remove m k i, remove-IsUnique m k h.1)

  pub contains_key-get :
      (m : Map K V) (k : K) → contains_key m k ≡ elim (get m k) [ none ↦ false | some v ↦ true ]
  unfolding get contains_key
  contains_key-get [] k = refl
  contains_key-get ((i, w) ∷ m) k = ground (arith, contains_key-get m k)

  pub contains_key-true : (m : Map K V) (k : K) (v : V) → get m k ≡ some v → contains_key m k ≡ true
  contains_key-true m k v h = ground (arith, contains_key-get m k)

  pub contains_key-false : (m : Map K V) (k : K) → get m k ≡ none → contains_key m k ≡ false
  contains_key-false m k h = ground (arith, contains_key-get m k)

  pub get-none : (m : Map K V) (k : K) → contains_key m k ≡ false → get m k ≡ none
  get-none m k h = ground (arith, contains_key-get m k)

  -- A removal of an absent key changes nothing.
  pub remove-absent : (m : Map K V) (k : K) → contains_key m k ≡ false → remove m k ≡ m
  unfolding remove contains_key
  remove-absent [] k h = refl
  remove-absent ((i, w) ∷ m) k h = ground (arith, remove-absent m k)

pub ruleset map_laws = (get-insert, get-remove, contains_key-insert, contains_key-remove)
