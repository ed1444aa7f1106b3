-- ===== src/Pulse/Sums.antt =====
-- Sums over the entries of a map, for crates/pulse/src/store.rs.
use kaleidoscope.Prelude.{ℕ, ◌+◌, ◌≡◌, Option, none, some, [], ◌∷◌, Key, arith}
use kaleidoscope.Prelude.Map.{Map, get, insert}

abbrev pub at_entry {κ} : {V : Type κ} → (V → ℕ) → Option V → ℕ
at_entry f none = 0
at_entry f (some v) = f v

module _ {ℓ κ} {K : Type ℓ} {V : Type κ} ⦃e : Key K⦄ (f : K → V → ℕ) where
  unfoldable pub sum_over : Map K V → ℕ
  sum_over [] = 0
  sum_over ((k, v) ∷ m) = f k v + sum_over m

  pub sum_over-insert :
      (m : Map K V) (k : K) (v : V)
      → sum_over (insert m k v) + at_entry (f k) (get m k) ≡ sum_over m + f k v
  unfolding sum_over insert get
  sum_over-insert [] k v = omega arith
  sum_over-insert ((i, w) ∷ m) k v = ground (arith, e.same_iff i k, sum_over-insert m k v)
