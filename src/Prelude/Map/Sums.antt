-- ===== src/Prelude/Map/Sums.antt =====
-- How a write changes the sum of a measure over a map's values.
use Prim.Native.Nat.{ℕ, ◌+◌, ◌≤◌}
use mathlib.Core.Path.{◌≡◌, refl}
use mathlib.Core.Option.{Option, none, some}
use mathlib.Core.List.{[], ◌∷◌}
use native.Mathlib.Omega.{arith}
use kaleidoscope.Prelude.Classes.{Key}
use kaleidoscope.Prelude.Map.Defs.{Map, get, insert, remove, IsUnique, sum_by}
use kaleidoscope.Prelude.Map.Laws.{remove-absent, get-none}

-- The measure of an entry that may be absent.
abbrev pub at_entry {κ} : {V : Type κ} → (V → ℕ) → Option V → ℕ
at_entry f none = 0
at_entry f (some v) = f v

module _ {ℓ κ} {K : Type ℓ} {V : Type κ} ⦃e : Key K⦄ (f : V → ℕ) where
  pub sum_by-insert :
      (m : Map K V) (k : K) (v : V)
      → sum_by f (insert m k v) + at_entry f (get m k) ≡ sum_by f m + f v
  unfolding sum_by insert get
  sum_by-insert [] k v = omega arith
  sum_by-insert ((i, w) ∷ m) k v = ground (arith, sum_by-insert m k v)

  pub sum_by-remove :
      (m : Map K V) (k : K) → IsUnique m → sum_by f (remove m k) + at_entry f (get m k) ≡ sum_by f m
  unfolding sum_by remove get
  sum_by-remove [] k h = omega arith
  sum_by-remove ((i, w) ∷ m) k h =
      ground (arith, e.same_iff i k, sum_by-remove m k h.1, remove-absent m k, get-none m k)

  pub at_entry-le-sum_by : (m : Map K V) (k : K) → at_entry f (get m k) ≤ sum_by f m
  unfolding sum_by get
  at_entry-le-sum_by [] k = omega arith
  at_entry-le-sum_by ((i, w) ∷ m) k = ground (arith, at_entry-le-sum_by m k)

  pub sum_by_zero :
      (m : Map K V) → IsUnique m → ((k : K) (v : V) → get m k ≡ some v → f v ≡ 0) → sum_by f m ≡ 0
  unfolding sum_by get
  sum_by_zero [] u h = refl
  sum_by_zero ((k, v) ∷ m) u h =
      let here : f v ≡ 0 = h k v (ground (arith, e.same_iff k k)) in
      let rest : sum_by f m ≡ 0 =
        sum_by_zero m u.1 λ j w p. h j w (ground (arith, p, e.same_iff k j, get-none m k u.0)) in
      omega (arith, here, rest)
