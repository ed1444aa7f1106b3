-- ===== src/Beacon/Inhibition/Backed.antt =====
-- crates/beacon/src/inhibition.rs: what `observe` and `rebuild_from` both keep of the suppressed rules.
use kaleidoscope.Prelude.{
  ◌≡◌, refl, sym, ap, ◌∙◌, subst, String, Bool, true, false, Option, none, some, List, [], ◌∷◌,
  arith, ◌==◌, ◌&&◌, if◌then◌else◌, Bool-cases, inl, inr, string_key,
}
use kaleidoscope.Prelude.Map.{
  Map, get, insert, contains_key, IsUnique, get-insert, insert-IsUnique, contains_key-get,
}
use kaleidoscope.Beacon.Types.{Rule, Incident}
use kaleidoscope.Beacon.StateMachine.{Emission}
use kaleidoscope.Beacon.Inhibition.Resolver.{
  InhibitionResolver, is_firing, inhibitor_in, has_active_inhibitor_of, surviving_in,
  has_surviving_inhibitor_of, add_rule, add_rules, new, carry_flag, carry_firing, carry_incident,
  carry_pending, carryover, rebuild_from, release_all, or_none, observe,
}
use kaleidoscope.Beacon.Inhibition.Suppressed.{is_firing-insert, release_all-Released}
use kaleidoscope.Beacon.Inhibition.Held.{flagged, unflagged, other}
use kaleidoscope.Beacon.Inhibition.Reload.{
  contains_key-carry_flag, get-carry_firing, fields-carry_firing, pending-new,
}

-- Every suppressed rule is firing, and a rule of the configuration inhibits it.
pub record IsBacked (r : InhibitionResolver) : Type 0 where
  pub each_rule_once : IsUnique r.inhibits
  pub each_flag_once : IsUnique r.firing
  pub fires : (n : String) (i : Incident) → get r.pending n ≡ some i → is_firing r.firing n ≡ true
  pub inhibited :
      (n : String) (i : Incident) → get r.pending n ≡ some i → has_surviving_inhibitor_of r n ≡ true

active_survives :
    (m : Map String (List String)) (f : Map String Bool) (n : String)
    → inhibitor_in m f n ≡ true
    → surviving_in m n ≡ true
unfolding inhibitor_in surviving_in
active_survives [] f n h = h
active_survives ((c, names) ∷ m) f n h = ground (arith, active_survives m f n)

active-surviving :
    (r : InhibitionResolver) (n : String)
    → has_active_inhibitor_of r n ≡ true
    → has_surviving_inhibitor_of r n ≡ true
unfolding has_active_inhibitor_of has_surviving_inhibitor_of
active-surviving r n h = active_survives r.inhibits r.firing n h

flagged-IsBacked : (r : InhibitionResolver) (name : String) → IsBacked r → IsBacked (flagged r name)
unfolding has_surviving_inhibitor_of
flagged-IsBacked r name k = record {
  each_rule_once = k.each_rule_once;
  each_flag_once = insert-IsUnique r.firing name true k.each_flag_once;
  fires = λ n i h. ground (arith, k.fires n i h, is_firing-insert r.firing name true n);
  inhibited = k.inhibited;
}

suppressed-IsBacked :
    (r : InhibitionResolver) (name : String) (i : Incident)
    → IsBacked r
    → is_firing r.firing name ≡ true
    → has_surviving_inhibitor_of r name ≡ true
    → IsBacked (record r { pending = insert r.pending name i })
unfolding has_surviving_inhibitor_of
suppressed-IsBacked r name i k on backed = record {
  each_rule_once = k.each_rule_once;
  each_flag_once = k.each_flag_once;
  fires = λ n j h. elim (Bool-cases (name == n)) [
    | inl e ↦ subst (λ x. is_firing r.firing x ≡ true) ((string_key.same_iff name n).0 e) on
    | inr e ↦ k.fires n j (sym (get-insert r.pending name i n ∙ rw e refl) ∙ h)
  ];
  inhibited = λ n j h. elim (Bool-cases (name == n)) [
    | inl e ↦
        subst (λ x. surviving_in r.inhibits x ≡ true) ((string_key.same_iff name n).0 e) backed
    | inr e ↦ k.inhibited n j (sym (get-insert r.pending name i n ∙ rw e refl) ∙ h)
  ];
}

released-IsBacked :
    (r : InhibitionResolver) (name : String)
    → IsBacked r
    → IsBacked (release_all (unflagged r name) (or_none (get r.inhibits name))).0
unfolding has_surviving_inhibitor_of
released-IsBacked r name k =
    let s = release_all-Released (unflagged r name) (or_none (get r.inhibits name)) in
    record {
      each_rule_once = subst (λ m. IsUnique m) (sym s.inhibits_same) k.each_rule_once;
      each_flag_once =
          subst (λ m. IsUnique m) (sym s.firing_same)
            (insert-IsUnique r.firing name false k.each_flag_once);
      fires = λ n i h.
          let (ne, before) = other r name n i (s.pending_less n i h) in
          subst (λ f. is_firing f n ≡ true) (sym s.firing_same)
            (is_firing-insert r.firing name false n ∙ rw ne (k.fires n i before));
      inhibited = λ n i h.
          let (ne, before) = other r name n i (s.pending_less n i h) in
          subst (λ m. surviving_in m n ≡ true) (sym s.inhibits_same) (k.inhibited n i before);
    }

pub observe-IsBacked :
    (r : InhibitionResolver) (name : String) (emission : Option Emission)
    → IsBacked r
    → IsBacked (observe r name emission).0
unfolding observe
observe-IsBacked r name none k = k
observe-IsBacked r name (some (Emission.firing incident)) k =
    elim (Bool-cases (has_active_inhibitor_of (flagged r name) name)) [
      | inl e ↦ rw e (
          suppressed-IsBacked (flagged r name) name incident (flagged-IsBacked r name k)
            (is_firing-insert r.firing name true name
              ∙ ground (arith, string_key.same_iff name name))
            (active-surviving (flagged r name) name e))
      | inr e ↦ rw e (flagged-IsBacked r name k)
    ]
observe-IsBacked r name (some (Emission.resolved incident)) k = released-IsBacked r name k

add_rules-IsUnique :
    (r : InhibitionResolver) (rules : List Rule)
    → IsUnique r.inhibits × IsUnique r.firing
    → IsUnique (add_rules r rules).inhibits × IsUnique (add_rules r rules).firing
unfolding add_rules add_rule
add_rules-IsUnique r [] u = u
add_rules-IsUnique r (rule ∷ rules) u = add_rules-IsUnique (add_rule r rule) rules (
  insert-IsUnique r.inhibits rule.name rule.inhibits u.0,
  insert-IsUnique r.firing rule.name false u.1,
)

pub new-IsUnique : (rules : List Rule) → IsUnique (new rules).inhibits × IsUnique (new rules).firing
unfolding new
new-IsUnique rules =
    add_rules-IsUnique (record { inhibits = []; firing = []; pending = [] }) rules (tt, tt)

pub new-IsBacked : (rules : List Rule) → IsBacked (new rules)
new-IsBacked rules = record {
  each_rule_once = (new-IsUnique rules).0;
  each_flag_once = (new-IsUnique rules).1;
  fires = λ n i h. cc (pending-new rules n, h);
  inhibited = λ n i h. cc (pending-new rules n, h);
}

carry_flag-IsUnique :
    (r : InhibitionResolver) (name : String) (on : Bool)
    → IsUnique r.firing
    → IsUnique (carry_flag r name on).firing
unfolding carry_flag
carry_flag-IsUnique r name on u = go (contains_key r.firing name)
  where
    go :
        (here : Bool)
        → IsUnique (if here then record r { firing = insert r.firing name on } else r).firing
    go true = insert-IsUnique r.firing name on u
    go false = u

carry_firing-IsUnique :
    (r : InhibitionResolver) (m : Map String Bool)
    → IsUnique r.firing
    → IsUnique (carry_firing r m).firing
unfolding carry_firing
carry_firing-IsUnique r [] u = u
carry_firing-IsUnique r ((name, on) ∷ m) u =
    carry_firing-IsUnique (carry_flag r name on) m (carry_flag-IsUnique r name on u)

contains_key-carry_firing :
    (r : InhibitionResolver) (m : Map String Bool) (n : String)
    → contains_key (carry_firing r m).firing n ≡ contains_key r.firing n
unfolding carry_firing
contains_key-carry_firing r [] n = refl
contains_key-carry_firing r ((name, on) ∷ m) n =
    contains_key-carry_firing (carry_flag r name on) m n ∙ contains_key-carry_flag r name on n

found_of :
    (m : Map String Incident) (n : String)
    → contains_key m n ≡ true
    → (i : Incident) × (get m n ≡ some i)
found_of m n here = go (get m n) refl
  where
    go : (o : Option Incident) → get m n ≡ o → (i : Incident) × (get m n ≡ some i)
    go none e = ground (arith, contains_key-get m n)
    go (some i) e = (i, e)

-- The rules of `m` that survive are firing in `r`.
abbrev Fires : InhibitionResolver → Map String Incident → Type 0
Fires r m =
    (n : String)
    → contains_key m n ≡ true
    → contains_key r.firing n ≡ true
    → is_firing r.firing n ≡ true

carry_pending-IsBacked :
    (r : InhibitionResolver) (m : Map String Incident)
    → IsBacked r
    → Fires r m
    → IsBacked (carry_pending r m)
unfolding carry_pending carry_incident contains_key
carry_pending-IsBacked r [] k on = k
carry_pending-IsBacked r ((name, i) ∷ m) k on =
    let rest : Fires r m = λ n here. on n (ground (arith, here)) in
    elim (Bool-cases (contains_key r.firing name && has_surviving_inhibitor_of r name)) [
      | inl e ↦
          let here : contains_key r.firing name ≡ true = ground (arith, e) in
          let backed : has_surviving_inhibitor_of r name ≡ true = ground (arith, e) in
          let fires = on name (ground (arith, string_key.same_iff name name)) here in
          rw e (
            carry_pending-IsBacked (record r { pending = insert r.pending name i }) m
              (suppressed-IsBacked r name i k fires backed) rest)
      | inr e ↦ rw e (carry_pending-IsBacked r m k rest)
    ]

carried_on :
    (rules : List Rule) (r : InhibitionResolver) (n : String)
    → IsUnique r.firing
    → is_firing r.firing n ≡ true
    → contains_key (new rules).firing n ≡ true
    → is_firing (carry_firing (new rules) r.firing).firing n ≡ true
unfolding is_firing
carried_on rules r n u on here = ground (arith, get-carry_firing (new rules) r.firing n u here)

carry_firing-IsBacked :
    (rules : List Rule) (m : Map String Bool) → IsBacked (carry_firing (new rules) m)
carry_firing-IsBacked rules m =
    let fields = fields-carry_firing (new rules) m in
    let absent : (n : String) → get (carry_firing (new rules) m).pending n ≡ none =
      λ n. ap (λ p. get p n) fields.1 ∙ pending-new rules n in
    record {
      each_rule_once = subst (λ p. IsUnique p) (sym fields.0) (new-IsUnique rules).0;
      each_flag_once = carry_firing-IsUnique (new rules) m (new-IsUnique rules).1;
      fires = λ n i h. cc (absent n, h);
      inhibited = λ n i h. cc (absent n, h);
    }

-- A reload keeps it, whatever the new rules are.
pub rebuild_from-IsBacked :
    (rules : List Rule) (r : InhibitionResolver)
    → IsBacked r
    → IsBacked (rebuild_from rules (carryover r))
unfolding rebuild_from carryover
rebuild_from-IsBacked rules r k =
    carry_pending-IsBacked (carry_firing (new rules) r.firing) r.pending
      (carry_firing-IsBacked rules r.firing)
      λ n pending here.
        let (i, found) = found_of r.pending n pending in
        carried_on rules r n k.each_flag_once (k.fires n i found)
          (sym (contains_key-carry_firing (new rules) r.firing n) ∙ here)
