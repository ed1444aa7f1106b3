-- ===== src/Prelude/BTree.antt =====
-- Rust's `BTreeMap`: an association list in the order of its keys, which is the order of its iteration.
use Prim.Native.Nat.{Ordering, lt, eq, gt}
use mathlib.Core.Path.{◌≡◌, refl, sym, subst, ◌∙◌}
use mathlib.Core.Option.{Option, none, some, some-injective}
use mathlib.Core.List.{List, [], ◌∷◌}
use mathlib.Core.Logic.{inl, inr}
use native.Mathlib.Omega.{arith}
use kaleidoscope.Prelude.Lists.{All}
use kaleidoscope.Prelude.Order.{Order, same_or_not}

abbrev pub BTreeMap {ℓ κ} : Type ℓ → Type κ → Type (ℓ ⊔ κ)
BTreeMap K V = List (K × V)

module _ {ℓ κ} {K : Type ℓ} {V : Type κ} ⦃o : Order K⦄ where
  unfoldable pub find : BTreeMap K V → K → Option V
  find [] k = none
  find ((j, v) ∷ m) k = elim (o.cmp k j) [ eq ↦ some v | _ ↦ find m k ]

  -- `m.entry(k)`, with what is done to its value or to its absence.
  unfoldable pub entry_with : BTreeMap K V → K → (Option V → V) → BTreeMap K V
  entry_with [] k f = (k, f none) ∷ []
  entry_with ((j, w) ∷ m) k f = elim (o.cmp k j) [
    | lt ↦ (k, f none) ∷ (j, w) ∷ m
    | eq ↦ (j, f (some w)) ∷ m
    | gt ↦ (j, w) ∷ entry_with m k f
  ]

  -- Every key is below the ones that follow it.
  abbrev pub IsAscending : BTreeMap K V → Type 0
  IsAscending [] = Unit
  IsAscending ((k, v) ∷ m) = All (λ p. o.cmp k p.0 ≡ lt) m × IsAscending m

  abbrev pub Below : K → BTreeMap K V → Type 0
  Below k m = All (λ p. o.cmp k p.0 ≡ lt) m

  Below-trans : (k j : K) (m : BTreeMap K V) → o.cmp k j ≡ lt → Below j m → Below k m
  Below-trans k j [] h b = tt
  Below-trans k j ((i, v) ∷ m) h b = (o.cmp_trans k j i h b.0, Below-trans k j m h b.1)

  entry_with-Below :
      (j : K) (m : BTreeMap K V) (k : K) (f : Option V → V)
      → o.cmp j k ≡ lt
      → Below j m
      → Below j (entry_with m k f)
  unfolding entry_with
  entry_with-Below j [] k f h b = (h, tt)
  entry_with-Below j ((i, w) ∷ m) k f h b = ground (arith, entry_with-Below j m k f h b.1)

  pub entry_with-IsAscending :
      (m : BTreeMap K V) (k : K) (f : Option V → V) → IsAscending m → IsAscending (entry_with m k f)
  unfolding entry_with
  entry_with-IsAscending [] k f h = (tt, tt)
  entry_with-IsAscending ((j, w) ∷ m) k f h = ground (
    arith,
    o.cmp_flip k j,
    Below-trans k j m,
    entry_with-Below j m k f,
    entry_with-IsAscending m k f h.1,
  )

  pub find-Below : (k : K) (m : BTreeMap K V) → Below k m → find m k ≡ none
  unfolding find
  find-Below k [] b = refl
  find-Below k ((j, v) ∷ m) b = ground (arith, find-Below k m b.1)

  pub find-entry_with_self :
      (m : BTreeMap K V) (k : K) (f : Option V → V)
      → IsAscending m
      → find (entry_with m k f) k ≡ some (f (find m k))
  unfolding find entry_with
  find-entry_with_self [] k f h = ground (arith, o.cmp_eq k k)
  find-entry_with_self ((j, w) ∷ m) k f h = ground (
    arith,
    o.cmp_eq k k,
    o.cmp_eq k j,
    find-entry_with_self m k f h.1,
    Below-trans k j m,
    find-Below k m,
  )

  pub find-entry_with_other :
      (m : BTreeMap K V) (k : K) (f : Option V → V) (i : K)
      → (i ≡ k → ⊥)
      → find (entry_with m k f) i ≡ find m i
  unfolding find entry_with
  find-entry_with_other [] k f i h = ground (arith, o.cmp_eq i k)
  find-entry_with_other ((j, w) ∷ m) k f i h =
      ground (arith, o.cmp_eq i k, o.cmp_eq i j, o.cmp_eq k j, find-entry_with_other m k f i h)

  -- `m.remove(&k)`
  unfoldable pub without : BTreeMap K V → K → BTreeMap K V
  without [] k = []
  without ((j, w) ∷ m) k = elim (o.cmp k j) [ eq ↦ m | _ ↦ (j, w) ∷ without m k ]

  without-Below : (j : K) (m : BTreeMap K V) (k : K) → Below j m → Below j (without m k)
  unfolding without
  without-Below j [] k b = tt
  without-Below j ((i, w) ∷ m) k b = ground (arith, without-Below j m k b.1)

  pub without-IsAscending : (m : BTreeMap K V) (k : K) → IsAscending m → IsAscending (without m k)
  unfolding without
  without-IsAscending [] k h = tt
  without-IsAscending ((j, w) ∷ m) k h =
      ground (arith, without-Below j m k h.0, without-IsAscending m k h.1)

  pub find-without_self : (m : BTreeMap K V) (k : K) → IsAscending m → find (without m k) k ≡ none
  unfolding find without
  find-without_self [] k h = refl
  find-without_self ((j, w) ∷ m) k h =
      ground (arith, o.cmp_eq k j, find-Below k m, find-without_self m k h.1)

  pub find-without_other :
      (m : BTreeMap K V) (k i : K) → (i ≡ k → ⊥) → find (without m k) i ≡ find m i
  unfolding find without
  find-without_other [] k i h = refl
  find-without_other ((j, w) ∷ m) k i h =
      ground (arith, o.cmp_eq k j, o.cmp_eq i j, o.cmp_eq i k, find-without_other m k i h)

  -- Every entry is found.
  pub find-entries : (m : BTreeMap K V) → IsAscending m → All (λ p. find m p.0 ≡ some p.1) m
  unfolding find
  find-entries [] h = tt
  find-entries ((j, w) ∷ m) h = (ground (arith, o.cmp_eq j j), behind m h.0 (find-entries m h.1))
    where
      behind :
          (n : BTreeMap K V)
          → Below j n
          → All (λ p. find m p.0 ≡ some p.1) n
          → All (λ p. find ((j, w) ∷ m) p.0 ≡ some p.1) n
      behind [] b a = tt
      behind ((i, v) ∷ n) b a = (ground (arith, o.cmp_eq i j, o.cmp_eq j i), behind n b.1 a.1)

  pub All-find {ι} :
      (P : K → V → Type ι) (m : BTreeMap K V) (k : K) (v : V)
      → All (λ p. P p.0 p.1) m
      → find m k ≡ some v
      → P k v
  unfolding find
  All-find P [] k v a h = cc
  All-find P ((j, w) ∷ m) k v a h = by_order (o.cmp k j) refl (All-find P m k v a.1)
    where
      by_order : (c : Ordering) → o.cmp k j ≡ c → (find m k ≡ some v → P k v) → P k v
      by_order eq e later =
          subst (λ i. P i v) (sym ((o.cmp_eq k j).0 e))
            (subst (P j) (some-injective w v (rw (find, e) at h)) a.0)
      by_order lt e later = later (rw (find, e) at h)
      by_order gt e later = later (rw (find, e) at h)

  -- A map is what is found in it.
  pub same_map :
      (m n : BTreeMap K V) → IsAscending m → IsAscending n → ((k : K) → find m k ≡ find n k) → m ≡ n
  unfolding find
  same_map [] [] a b h = refl
  same_map [] ((i, w) ∷ n) a b h = ground (arith, o.cmp_eq i i, h i)
  same_map ((j, v) ∷ m) [] a b h = ground (arith, o.cmp_eq j j, h j)
  same_map ((j, v) ∷ m) ((i, w) ∷ n) a b h = by_order (o.cmp j i) refl (same_map m n a.1 b.1)
    where
      tails : j ≡ i → (k : K) → find m k ≡ find n k
      tails e k = elim (same_or_not k j) [
        | inl s ↦ ground (
          arith,
          find-Below k m (subst (λ x. Below x m) (sym s) a.0),
          find-Below k n (subst (λ x. Below x n) (sym (s ∙ e)) b.0),
        )
        | inr d ↦ ground (arith, h k, o.cmp_eq k j, o.cmp_eq k i, e)
      ]

      by_order :
          (c : Ordering)
          → o.cmp j i ≡ c
          → (((k : K) → find m k ≡ find n k) → m ≡ n)
          → (j, v) ∷ m ≡ (i, w) ∷ n
      by_order lt e rest =
          ground (arith, o.cmp_eq j j, h j, find-Below j n (Below-trans j i n e b.0))
      by_order gt e rest = ground (
        arith,
        o.cmp_eq i i,
        o.cmp_eq i j,
        h i,
        find-Below i m (Below-trans i j m (o.cmp_flip j i e) a.0),
      )
      by_order eq e rest =
          let same : j ≡ i = (o.cmp_eq j i).0 e in
          let equal : m ≡ n = rest (tails same) in ground (arith, same, equal, o.cmp_eq j j, h j)
