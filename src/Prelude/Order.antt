-- ===== src/Prelude/Order.antt =====
-- Rust's `Ord` as an interface, with its instances at numbers, pairs and lists: the derived, lexicographic orders.
use Prim.Native.Nat.{ℕ, compare, Ordering, lt, eq, gt}
use mathlib.Core.Path.{◌≡◌, refl}
use mathlib.Core.Logic.{◌↔◌, ◌⊎◌, inl, inr}
use mathlib.Core.List.{List, [], ◌∷◌}
use native.Mathlib.Omega.{arith}

pub record Order {ℓ} (K : Type ℓ) : Type ℓ where
  pub cmp : K → K → Ordering
  pub cmp_eq : (a b : K) → (cmp a b ≡ eq) ↔ (a ≡ b)
  pub cmp_flip : (a b : K) → cmp a b ≡ gt → cmp b a ≡ lt
  pub cmp_trans : (a b c : K) → cmp a b ≡ lt → cmp b c ≡ lt → cmp a c ≡ lt

-- `a.cmp(&b).then(…)`
abbrev pub and_then : Ordering → Ordering → Ordering
and_then lt o = lt
and_then eq o = o
and_then gt o = gt

abbrev pub nat_cmp : ℕ → ℕ → Ordering
nat_cmp a b = compare a b

pub nat_cmp-eq : (a b : ℕ) → (nat_cmp a b ≡ eq) ↔ (a ≡ b)
nat_cmp-eq a b = (λ h. ground arith, λ h. ground arith)

pub nat_cmp_flip : (a b : ℕ) → nat_cmp a b ≡ gt → nat_cmp b a ≡ lt
nat_cmp_flip a b h = ground arith

pub nat_cmp_trans : (a b c : ℕ) → nat_cmp a b ≡ lt → nat_cmp b c ≡ lt → nat_cmp a c ≡ lt
nat_cmp_trans a b c h k = ground arith

instance abbrev pub nat_order : Order ℕ
nat_order = record {
  cmp = nat_cmp;
  cmp_eq = nat_cmp-eq;
  cmp_flip = nat_cmp_flip;
  cmp_trans = nat_cmp_trans;
}

module _ {ℓ κ} {A : Type ℓ} {B : Type κ} ⦃o : Order A⦄ ⦃p : Order B⦄ where
  abbrev pub pair_cmp : (A × B) → (A × B) → Ordering
  pair_cmp a b = and_then (o.cmp a.0 b.0) (p.cmp a.1 b.1)

  pub pair_cmp-eq : (a b : A × B) → (pair_cmp a b ≡ eq) ↔ (a ≡ b)
  pair_cmp-eq a b = (
    λ h. ground (arith, o.cmp_eq a.0 b.0, p.cmp_eq a.1 b.1),
    λ h. ground (arith, o.cmp_eq a.0 b.0, p.cmp_eq a.1 b.1),
  )

  pub pair_cmp_flip : (a b : A × B) → pair_cmp a b ≡ gt → pair_cmp b a ≡ lt
  pair_cmp_flip a b h =
      ground (arith, o.cmp_eq a.0 b.0, o.cmp_eq b.0 a.0, o.cmp_flip a.0 b.0, p.cmp_flip a.1 b.1)

  pub pair_cmp_trans : (a b c : A × B) → pair_cmp a b ≡ lt → pair_cmp b c ≡ lt → pair_cmp a c ≡ lt
  pair_cmp_trans a b c h k = ground (
    arith,
    o.cmp_eq a.0 b.0,
    o.cmp_eq b.0 c.0,
    o.cmp_eq a.0 c.0,
    o.cmp_trans a.0 b.0 c.0,
    p.cmp_trans a.1 b.1 c.1,
  )

  instance abbrev pub pair_order : Order (A × B)
  pair_order = record {
    cmp = pair_cmp;
    cmp_eq = pair_cmp-eq;
    cmp_flip = pair_cmp_flip;
    cmp_trans = pair_cmp_trans;
  }

module _ {ℓ} {A : Type ℓ} ⦃o : Order A⦄ where
  abbrev pub list_cmp : List A → List A → Ordering
  list_cmp [] [] = eq
  list_cmp [] (y ∷ ys) = lt
  list_cmp (x ∷ xs) [] = gt
  list_cmp (x ∷ xs) (y ∷ ys) = and_then (o.cmp x y) (list_cmp xs ys)

  pub list_cmp-eq : (a b : List A) → (list_cmp a b ≡ eq) ↔ (a ≡ b)
  list_cmp-eq [] [] = (λ h. refl, λ h. refl)
  list_cmp-eq [] (y ∷ ys) = (λ h. cc, λ h. cc)
  list_cmp-eq (x ∷ xs) [] = (λ h. cc, λ h. cc)
  list_cmp-eq (x ∷ xs) (y ∷ ys) = (
    λ h. ground (arith, o.cmp_eq x y, list_cmp-eq xs ys),
    λ h. ground (arith, o.cmp_eq x y, list_cmp-eq xs ys),
  )

  pub list_cmp_flip : (a b : List A) → list_cmp a b ≡ gt → list_cmp b a ≡ lt
  list_cmp_flip [] [] h = cc
  list_cmp_flip [] (y ∷ ys) h = cc
  list_cmp_flip (x ∷ xs) [] h = refl
  list_cmp_flip (x ∷ xs) (y ∷ ys) h =
      ground (arith, o.cmp_eq x y, o.cmp_eq y x, o.cmp_flip x y, list_cmp_flip xs ys)

  pub list_cmp_trans : (a b c : List A) → list_cmp a b ≡ lt → list_cmp b c ≡ lt → list_cmp a c ≡ lt
  list_cmp_trans [] [] c h k = cc
  list_cmp_trans [] (y ∷ ys) [] h k = cc
  list_cmp_trans [] (y ∷ ys) (z ∷ zs) h k = refl
  list_cmp_trans (x ∷ xs) [] c h k = cc
  list_cmp_trans (x ∷ xs) (y ∷ ys) [] h k = cc
  list_cmp_trans (x ∷ xs) (y ∷ ys) (z ∷ zs) h k =
      ground (
        arith,
        o.cmp_eq x y,
        o.cmp_eq y z,
        o.cmp_eq x z,
        o.cmp_trans x y z,
        list_cmp_trans xs ys zs,
      )

  instance abbrev pub list_order : Order (List A)
  list_order = record {
    cmp = list_cmp;
    cmp_eq = list_cmp-eq;
    cmp_flip = list_cmp_flip;
    cmp_trans = list_cmp_trans;
  }

module _ {ℓ} {K : Type ℓ} ⦃o : Order K⦄ where
  -- Equality is decided by the order.
  pub same_or_not : (a b : K) → (a ≡ b) ⊎ (a ≡ b → ⊥)
  same_or_not a b = by_order (o.cmp a b) refl
    where
      by_order : (c : Ordering) → o.cmp a b ≡ c → (a ≡ b) ⊎ (a ≡ b → ⊥)
      by_order eq h = inl ((o.cmp_eq a b).0 h)
      by_order lt h = inr (λ e. ground (arith, (o.cmp_eq a b).1 e))
      by_order gt h = inr (λ e. ground (arith, (o.cmp_eq a b).1 e))
