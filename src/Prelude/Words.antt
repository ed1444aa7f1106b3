-- ===== src/Prelude/Words.antt =====
-- Rust's `u64` and `usize` (64 bits), in the wrapping arithmetic of a release build.
use Prim.Native.Nat.{ℕ, ◌+◌, ◌-◌, ◌%◌}
use mathlib.Core.Path.{◌≡◌}
use native.Mathlib.Omega.{arith}

abbrev pub u64_mod : ℕ
u64_mod = 18446744073709551616

abbrev pub u64_add : ℕ → ℕ → ℕ
u64_add a b = (a + b) % u64_mod

abbrev pub u64_sub : ℕ → ℕ → ℕ
u64_sub a b = (a + u64_mod - b) % u64_mod

-- A counter that is kept modulo the word follows the number that it counts.
pub u64_add-mod : (n k : ℕ) → u64_add (n % u64_mod) k ≡ (n + k) % u64_mod
u64_add-mod n k = omega arith

pub u64_sub-mod : (n : ℕ) → u64_sub ((n + 1) % u64_mod) 1 ≡ n % u64_mod
u64_sub-mod n = omega arith
