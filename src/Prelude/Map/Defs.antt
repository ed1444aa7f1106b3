-- ===== src/Prelude/Map/Defs.antt =====
-- Rust's `HashMap` and `BTreeMap` as an association list. The order of the entries stands for the
-- order in which the map is iterated.
use Prim.Native.Nat.{ℕ, ◌+◌}
use mathlib.Core.Path.{◌≡◌}
use mathlib.Core.Bool.{Bool, true, false}
use mathlib.Core.Option.{Option, none, some}
use mathlib.Core.List.{List, [], ◌∷◌, map}
use kaleidoscope.Prelude.Tests.{if◌then◌else◌}
use kaleidoscope.Prelude.Classes.{Key, ◌==◌}

abbrev pub Map {ℓ κ} : Type ℓ → Type κ → Type (ℓ ⊔ κ)
Map K V = List (K × V)

module _ {ℓ κ} {K : Type ℓ} {V : Type κ} ⦃e : Key K⦄ where
  -- `m.get(&k)`
  unfoldable pub get : Map K V → K → Option V
  get [] k = none
  get ((j, v) ∷ m) k = if j == k then some v else get m k

  -- `m.contains_key(&k)`
  unfoldable pub contains_key : Map K V → K → Bool
  contains_key [] k = false
  contains_key ((j, v) ∷ m) k = if j == k then true else contains_key m k

  -- `m.insert(k, v)`: the value of a present key is replaced in place.
  unfoldable pub insert : Map K V → K → V → Map K V
  insert [] k v = (k, v) ∷ []
  insert ((j, w) ∷ m) k v = if j == k then (j, v) ∷ m else (j, w) ∷ insert m k v

  -- `m.remove(&k)`, without the value that it returns.
  unfoldable pub remove : Map K V → K → Map K V
  remove [] k = []
  remove ((j, v) ∷ m) k = let rest = remove m k in if j == k then rest else (j, v) ∷ rest

  -- No key occurs twice: what holds of every Rust map.
  abbrev pub IsUnique : Map K V → Type 0
  IsUnique [] = Unit
  IsUnique ((k, v) ∷ m) = (contains_key m k ≡ false) × IsUnique m

module _ {ℓ κ} {K : Type ℓ} {V : Type κ} where
  -- The sum of a measure over the values.
  unfoldable pub sum_by : (V → ℕ) → Map K V → ℕ
  sum_by f [] = 0
  sum_by f ((k, v) ∷ m) = f v + sum_by f m

  unfoldable pub values : Map K V → List V
  values = map (λ p. p.1)

  unfoldable pub keys : Map K V → List K
  keys = map (λ p. p.0)
