-- ===== src/Prelude/Classes.antt =====
-- Equality of keys as an interface, with its instances at numbers and texts.
use Prim.Native.Nat.{ℕ}
use Prim.Native.String.{String}
use mathlib.Core.Path.{◌≡◌, refl}
use mathlib.Core.Logic.{◌↔◌}
use mathlib.Core.Bool.{Bool, true, ◌&&◌}
use native.Mathlib.Omega.{arith}
use text.Mathlib.Text.{◌==◌ as str_eq}
use text.Mathlib.TextEquality.{eq_iff}
use kaleidoscope.Prelude.Tests.{nat_beq, nat_beq_iff}

-- What a `HashMap` asks of its keys.
pub record Key {ℓ} (K : Type ℓ) : Type ℓ where
  pub same : K → K → Bool
  pub same_iff : (k k' : K) → (same k k' ≡ true) ↔ (k ≡ k')

instance abbrev pub string_key : Key String
string_key = record { same = str_eq; same_iff = eq_iff }

instance abbrev pub nat_key : Key ℕ
nat_key = record { same = nat_beq; same_iff = nat_beq_iff }

infix 50 ◌==◌
abbrev pub ◌==◌ {ℓ} : {K : Type ℓ} ⦃key : Key K⦄ → K → K → Bool
◌==◌ ⦃key⦄ k k' = key.same k k'

module _ {ℓ} {A : Type ℓ} ⦃e : Key A⦄ where
  pub ==-refl : (a : A) → (a == a) ≡ true
  ==-refl a = (e.same_iff a a).1 refl

abbrev pub same_pair : (String × String) → (String × String) → Bool
same_pair a b = str_eq a.0 b.0 && str_eq a.1 b.1

pub same_pair-equal : (a b : String × String) → (same_pair a b ≡ true) ↔ (a ≡ b)
same_pair-equal a b = (
  (λ h. ground (arith, eq_iff a.0 b.0, eq_iff a.1 b.1)),
  (λ h. ground (arith, eq_iff a.0 b.0, eq_iff a.1 b.1)),
)

-- A pair as a key.
instance abbrev pub pair_key : Key (String × String)
pair_key = record { same = same_pair; same_iff = same_pair-equal }
