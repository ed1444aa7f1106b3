-- ===== src/Prelude/Map/Rebuild.antt =====
-- A map that is rebuilt by inserting the entries of another, as a loader does.
use mathlib.Core.Path.{◌≡◌, refl}
use mathlib.Core.Option.{Option, none, some}
use mathlib.Core.List.{[], ◌∷◌}
use native.Mathlib.Omega.{arith}
use kaleidoscope.Prelude.Lists.{All}
use kaleidoscope.Prelude.Classes.{Key}
use kaleidoscope.Prelude.Map.Defs.{Map, get, insert, IsUnique}
use kaleidoscope.Prelude.Map.Laws.{get-insert, insert-IsUnique, get-none}

abbrev pub or_else {κ} : {V : Type κ} → Option V → Option V → Option V
or_else (some v) o = some v
or_else none o = o

module _ {ℓ κ} {K : Type ℓ} {V : Type κ} ⦃e : Key K⦄ where
  unfoldable pub insert_all : Map K V → Map K V → Map K V
  insert_all acc [] = acc
  insert_all acc ((k, v) ∷ m) = insert_all (insert acc k v) m

  pub get-insert_all :
      (acc m : Map K V) (j : K)
      → IsUnique m
      → get (insert_all acc m) j ≡ or_else (get m j) (get acc j)
  unfolding insert_all get
  get-insert_all acc [] j u = refl
  get-insert_all acc ((k, v) ∷ m) j u = ground (
    arith,
    get-insert_all (insert acc k v) m j u.1,
    get-insert acc k v j,
    e.same_iff k j,
    get-none m k u.0,
  )

  pub insert_all-IsUnique : (acc m : Map K V) → IsUnique acc → IsUnique (insert_all acc m)
  unfolding insert_all
  insert_all-IsUnique acc [] u = u
  insert_all-IsUnique acc ((k, v) ∷ m) u =
      insert_all-IsUnique (insert acc k v) m (insert-IsUnique acc k v u)

  -- What holds of every entry that is looked up holds of every entry of the list.
  pub All-of_get {ι} :
      (P : K → V → Type ι) (m : Map K V)
      → IsUnique m
      → ((k : K) (v : V) → get m k ≡ some v → P k v)
      → All (λ p. P p.0 p.1) m
  unfolding get
  All-of_get P [] u h = tt
  All-of_get P ((k, v) ∷ m) u h = (
    h k v (ground (arith, e.same_iff k k)),
    All-of_get P m u.1 λ j w p. h j w (ground (arith, p, e.same_iff k j, get-none m k u.0)),
  )
