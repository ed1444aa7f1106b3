-- ===== src/Prelude/Results.antt =====
-- Rust's `Result<A, E>`, with `?` as the bind of a `do` block.
use mathlib.Core.Path.{◌≡◌, refl}

pub data Result {ℓ κ} (A : Type ℓ) (E : Type κ) : Type (ℓ ⊔ κ) where
  ok : A → Result A E
  err : E → Result A E

infixl 5 ◌>>=◌
abbrev pub ◌>>=◌ {ℓ κ ι} :
    {A : Type ℓ} {B : Type κ} {E : Type ι} → Result A E → (A → Result B E) → Result B E
ok a >>= f = f a
err e >>= f = err e

-- If a call and what follows it succeed, then the call did.
pub succeeds_first {ℓ κ ι} :
    {A : Type ℓ} {B : Type κ} {E : Type ι} {next : A → Result B E} {out : B} (call : Result A E)
    → call >>= next ≡ ok out
    → (value : A) × (call ≡ ok value) × (next value ≡ ok out)
succeeds_first (err e) given = cc
succeeds_first (ok value) given = (value, refl, given)

pub ok-injective {ℓ κ} :
    {A : Type ℓ} {E : Type κ} {a b : A} → ◌≡◌ {A = Result A E} (ok a) (ok b) → a ≡ b
ok-injective h = cc
