-- ===== src/Beacon/Inhibition/Suppressed.antt =====
-- crates/beacon/src/inhibition.rs: nothing is suppressed without a rule that suppresses it.
use kaleidoscope.Prelude.{
  ◌≡◌, refl, sym, ◌∙◌, subst, String, Bool, true, false, Option, none, some, List, [], ◌∷◌, arith,
  ◌==◌, if◌then◌else◌, All, string_key, Bool-cases, inl, inr,
}
use kaleidoscope.Prelude.Map.{Map, get, insert, IsUnique, get-insert, get-remove, All-of_get}
use kaleidoscope.Beacon.Types.{Incident}
use kaleidoscope.Beacon.Inhibition.Resolver.{
  InhibitionResolver, any_is, is_firing, inhibitor_in, has_active_inhibitor_of, release_found,
  release, release_all, or_none,
}

-- Every suppressed rule is firing, and a rule that inhibits it is firing too.
pub record IsHeld (r : InhibitionResolver) : Type 0 where
  pub each_rule_once : IsUnique r.inhibits
  pub fires : (n : String) (i : Incident) → get r.pending n ≡ some i → is_firing r.firing n ≡ true
  pub held :
      (n : String) (i : Incident) → get r.pending n ≡ some i → has_active_inhibitor_of r n ≡ true

pub is_firing-insert :
    (f : Map String Bool) (name : String) (on : Bool) (n : String)
    → is_firing (insert f name on) n ≡ (if name == n then on else is_firing f n)
unfolding is_firing
is_firing-insert f name on n = ground (arith, get-insert f name on n)

pub inhibitor_in-more :
    (m : Map String (List String)) (f : Map String Bool) (name n : String)
    → inhibitor_in m f n ≡ true
    → inhibitor_in m (insert f name true) n ≡ true
unfolding inhibitor_in
inhibitor_in-more [] f name n h = h
inhibitor_in-more ((c, names) ∷ m) f name n h =
    ground (arith, is_firing-insert f name true c, inhibitor_in-more m f name n)

-- A rule that stops firing holds back only the rules that it inhibits.
abbrev pub Spares : String → String → String → List String → Type 0
Spares name n c names = (c == name) ≡ true → any_is names n ≡ false

pub inhibitor_in-less :
    (m : Map String (List String)) (f : Map String Bool) (name n : String)
    → All (λ p. Spares name n p.0 p.1) m
    → inhibitor_in m f n ≡ true
    → inhibitor_in m (insert f name false) n ≡ true
unfolding inhibitor_in
inhibitor_in-less [] f name n s h = h
inhibitor_in-less ((c, names) ∷ m) f name n s h = ground (
  arith,
  s.0,
  is_firing-insert f name false c,
  inhibitor_in-less m f name n s.1,
  string_key.same_iff c name,
  string_key.same_iff name c,
)

pub spared_entries :
    (m : Map String (List String)) (name n : String)
    → IsUnique m
    → any_is (or_none (get m name)) n ≡ false
    → All (λ p. Spares name n p.0 p.1) m
unfolding any_is
spared_entries m name n u h =
    All-of_get (Spares name n) m u λ c names found same.
      let e : c ≡ name = (string_key.same_iff c name).0 same in cc (h, found, e)

-- What the releases leave.
pub record Released (r r' : InhibitionResolver) : Type 0 where
  pub inhibits_same : r'.inhibits ≡ r.inhibits
  pub firing_same : r'.firing ≡ r.firing
  pub pending_less :
      (n : String) (i : Incident) → get r'.pending n ≡ some i → get r.pending n ≡ some i

pub active_same :
    (r r' : InhibitionResolver) (n : String)
    → Released r r'
    → has_active_inhibitor_of r' n ≡ has_active_inhibitor_of r n
unfolding has_active_inhibitor_of
active_same r r' n s = cc (s.inhibits_same, s.firing_same)

release_found-Released :
    (r : InhibitionResolver) (name : String) (o : Option Incident)
    → Released r (release_found r name o).0
unfolding release_found
release_found-Released r name none = record {
  inhibits_same = refl;
  firing_same = refl;
  pending_less = λ n i h. h;
}
release_found-Released r name (some incident) = record {
  inhibits_same = refl;
  firing_same = refl;
  pending_less = λ n i h. ground (arith, get-remove r.pending name n);
}

pub release-Released : (r : InhibitionResolver) (name : String) → Released r (release r name).0
unfolding release
release-Released r name = elim (Bool-cases (has_active_inhibitor_of r name)) [
  | inl h ↦ rw h (record { inhibits_same = refl; firing_same = refl; pending_less = λ n i h. h })
  | inr h ↦ rw h (release_found-Released r name (get r.pending name))
]

release_found-gone :
    (r : InhibitionResolver) (name : String) (o : Option Incident) (i : Incident)
    → get r.pending name ≡ o
    → get (release_found r name o).0.pending name ≡ some i
    → ⊥
unfolding release_found
release_found-gone r name none i e h = cc
release_found-gone r name (some incident) i e h =
    ground (arith, get-remove r.pending name name, string_key.same_iff name name)

-- What a release leaves suppressed has an active inhibitor.
release-held :
    (r : InhibitionResolver) (name : String) (i : Incident)
    → get (release r name).0.pending name ≡ some i
    → has_active_inhibitor_of r name ≡ true
unfolding release
release-held r name i h = elim (Bool-cases (has_active_inhibitor_of r name)) [
  | inl e ↦ e
  | inr e ↦ absurd (release_found-gone r name (get r.pending name) i refl (rw e at h))
]

pub release_all-Released :
    (r : InhibitionResolver) (names : List String) → Released r (release_all r names).0
unfolding release_all
release_all-Released r [] = record {
  inhibits_same = refl;
  firing_same = refl;
  pending_less = λ n i h. h;
}
release_all-Released r (name ∷ names) =
    let first = release-Released r name in
    let rest = release_all-Released (release r name).0 names in
    record {
      inhibits_same = rest.inhibits_same ∙ first.inhibits_same;
      firing_same = rest.firing_same ∙ first.firing_same;
      pending_less = λ n i h. first.pending_less n i (rest.pending_less n i h);
    }

pub release_all-held :
    (r : InhibitionResolver) (names : List String) (n : String) (i : Incident)
    → any_is names n ≡ true
    → get (release_all r names).0.pending n ≡ some i
    → has_active_inhibitor_of r n ≡ true
unfolding release_all any_is
release_all-held r [] n i within h = cc
release_all-held r (name ∷ names) n i within h = elim (Bool-cases (name == n)) [
  | inl e ↦
      let same : name ≡ n = (string_key.same_iff name n).0 e in
      let kept = (release_all-Released (release r name).0 names).pending_less n i h in
      subst (λ k. has_active_inhibitor_of r k ≡ true) same
        (release-held r name i
          (subst (λ k. get (release r name).0.pending k ≡ some i) (sym same) kept))
  | inr e ↦
      sym (active_same r (release r name).0 n (release-Released r name))
      ∙ release_all-held (release r name).0 names n i (rw e at within) h
]
