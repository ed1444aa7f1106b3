-- ===== src/Beacon/Inhibition/Deliveries.antt =====
-- crates/beacon/src/inhibition.rs: what reaches the sinks for one rule, over any observations.
use kaleidoscope.Prelude.{
  ℕ, ◌+◌, ◌≡◌, refl, subst, String, Bool, true, false, Option, none, some, List, [], ◌∷◌, ◌++◌,
  arith, ◌==◌, if◌then◌else◌, Bool-cases, inl, inr, string_key,
}
use kaleidoscope.Prelude.Map.{get, remove, get-remove}
use kaleidoscope.Beacon.Types.{Incident}
use kaleidoscope.Beacon.StateMachine.{Emission}
use kaleidoscope.Beacon.Inhibition.Resolver.{
  InhibitionResolver, is_firing, has_active_inhibitor_of, release_found, release, release_all,
}

-- How many firing and resolved incidents of a rule reach the sinks.
abbrev pub fired : String → List Emission → ℕ
fired n [] = 0
fired n (Emission.firing i ∷ out) = (if i.name == n then 1 else 0) + fired n out
fired n (Emission.resolved i ∷ out) = fired n out

abbrev pub settled : String → List Emission → ℕ
settled n [] = 0
settled n (Emission.firing i ∷ out) = settled n out
settled n (Emission.resolved i ∷ out) = (if i.name == n then 1 else 0) + settled n out

pub fired-append : (n : String) (a b : List Emission) → fired n (a ++ b) ≡ fired n a + fired n b
fired-append n [] b = omega arith
fired-append n (Emission.firing i ∷ a) b = omega (arith, fired-append n a b)
fired-append n (Emission.resolved i ∷ a) b = fired-append n a b

pub settled-append :
    (n : String) (a b : List Emission) → settled n (a ++ b) ≡ settled n a + settled n b
settled-append n [] b = omega arith
settled-append n (Emission.firing i ∷ a) b = settled-append n a b
settled-append n (Emission.resolved i ∷ a) b = omega (arith, settled-append n a b)

abbrev is_open : Bool → Option Incident → ℕ
is_open false pending = 0
is_open true none = 1
is_open true (some i) = 0

-- 1 if the sinks have an unresolved incident of the rule: it is firing and is not suppressed.
abbrev pub delivered : InhibitionResolver → String → ℕ
delivered r n = is_open (is_firing r.firing n) (get r.pending n)

-- A suppressed incident names its rule, which is firing.
pub record IsNamed (r : InhibitionResolver) : Type 0 where
  pub named : (n : String) (i : Incident) → get r.pending n ≡ some i → i.name ≡ n
  pub fires : (n : String) (i : Incident) → get r.pending n ≡ some i → is_firing r.firing n ≡ true

-- What a list of releases does.
pub record Balanced (r r' : InhibitionResolver) (out : List Emission) : Type 0 where
  pub is_named : IsNamed r'
  pub balance : (n : String) → fired n out + delivered r n ≡ delivered r' n
  pub no_resolved : (n : String) → settled n out ≡ 0

nothing-Balanced : (r : InhibitionResolver) → IsNamed r → Balanced r r []
nothing-Balanced r k = record { is_named = k; balance = λ n. omega arith; no_resolved = λ n. refl }

released_one :
    (r : InhibitionResolver) (name : String) (i : Incident) (n : String)
    → i.name ≡ name
    → is_firing r.firing name ≡ true
    → get r.pending name ≡ some i
    → (if i.name == n then 1 else 0) + 0 + delivered r n
      ≡ is_open (is_firing r.firing n) (get (remove r.pending name) n)
released_one r name i n named on found = elim (Bool-cases (name == n)) [
  | inl e ↦
      let same : name ≡ n = (string_key.same_iff name n).0 e in
      let at_n : get r.pending n ≡ some i = subst (λ k. get r.pending k ≡ some i) same found in
      let on_n : is_firing r.firing n ≡ true = subst (λ k. is_firing r.firing k ≡ true) same on in
      rw (get-remove r.pending name n, named) (rw e (rw on_n (rw at_n refl)))
  | inr e ↦ rw (get-remove r.pending name n, named) (rw e (omega arith))
]

release_found-Balanced :
    (r : InhibitionResolver) (name : String) (o : Option Incident)
    → IsNamed r
    → get r.pending name ≡ o
    → Balanced r (release_found r name o).0 (release_found r name o).1
unfolding release_found
release_found-Balanced r name none k e = nothing-Balanced r k
release_found-Balanced r name (some i) k e = record {
  is_named = record {
    named = λ n j h. k.named n j (ground (arith, get-remove r.pending name n));
    fires = λ n j h. k.fires n j (ground (arith, get-remove r.pending name n));
  };
  balance = λ n. released_one r name i n (k.named name i e) (k.fires name i e) e;
  no_resolved = λ n. refl;
}

release-Balanced :
    (r : InhibitionResolver) (name : String)
    → IsNamed r
    → Balanced r (release r name).0 (release r name).1
unfolding release
release-Balanced r name k = elim (Bool-cases (has_active_inhibitor_of r name)) [
  | inl e ↦ rw e (nothing-Balanced r k)
  | inr e ↦ rw e (release_found-Balanced r name (get r.pending name) k refl)
]

pub release_all-Balanced :
    (r : InhibitionResolver) (names : List String)
    → IsNamed r
    → Balanced r (release_all r names).0 (release_all r names).1
unfolding release_all
release_all-Balanced r [] k = nothing-Balanced r k
release_all-Balanced r (name ∷ names) k =
    let first = release-Balanced r name k in
    let rest = release_all-Balanced (release r name).0 names first.is_named in
    record {
      is_named = rest.is_named;
      balance = λ n. omega (
        arith,
        fired-append n (release r name).1 (release_all (release r name).0 names).1,
        first.balance n,
        rest.balance n,
      );
      no_resolved = λ n. omega (
        arith,
        settled-append n (release r name).1 (release_all (release r name).0 names).1,
        first.no_resolved n,
        rest.no_resolved n,
      );
    }
