-- ===== src/Beacon/Inhibition/Held.antt =====
-- crates/beacon/src/inhibition.rs: `observe` keeps every suppressed rule behind one that is firing.
use kaleidoscope.Prelude.{
  ◌≡◌, refl, sym, ◌∙◌, subst, String, true, false, Option, none, some, arith, ◌==◌, Bool-cases, inl,
  inr, string_key,
}
use kaleidoscope.Prelude.Map.{get, insert, remove, IsUnique, get-insert, get-remove}
use kaleidoscope.Beacon.Types.{Incident}
use kaleidoscope.Beacon.StateMachine.{Emission}
use kaleidoscope.Beacon.Inhibition.Resolver.{
  InhibitionResolver, any_is, is_firing, inhibitor_in, has_active_inhibitor_of, release_all,
  or_none, observe,
}
use kaleidoscope.Beacon.Inhibition.Suppressed.{
  IsHeld, is_firing-insert, inhibitor_in-more, inhibitor_in-less, spared_entries, active_same,
  release_all-Released, release_all-held,
}

-- The resolvers inside `observe`.
abbrev pub flagged : InhibitionResolver → String → InhibitionResolver
flagged r name = record r { firing = insert r.firing name true }

abbrev pub unflagged : InhibitionResolver → String → InhibitionResolver
unflagged r name = record r { firing = insert r.firing name false; pending = remove r.pending name }

flagged-active :
    (r : InhibitionResolver) (name n : String)
    → has_active_inhibitor_of r n ≡ true
    → has_active_inhibitor_of (flagged r name) n ≡ true
unfolding has_active_inhibitor_of
flagged-active r name n h = inhibitor_in-more r.inhibits r.firing name n h

flagged-IsHeld : (r : InhibitionResolver) (name : String) → IsHeld r → IsHeld (flagged r name)
flagged-IsHeld r name k = record {
  each_rule_once = k.each_rule_once;
  fires = λ n i h. ground (arith, k.fires n i h, is_firing-insert r.firing name true n);
  held = λ n i h. flagged-active r name n (k.held n i h);
}

suppressed-IsHeld :
    (r : InhibitionResolver) (name : String) (incident : Incident)
    → IsHeld r
    → has_active_inhibitor_of (flagged r name) name ≡ true
    → IsHeld (record (flagged r name) { pending = insert r.pending name incident })
unfolding has_active_inhibitor_of
suppressed-IsHeld r name incident k active = record {
  each_rule_once = k.each_rule_once;
  fires = λ n i h. elim (Bool-cases (name == n)) [
    | inl e ↦ is_firing-insert r.firing name true n ∙ rw e refl
    | inr e ↦
        (flagged-IsHeld r name k).fires n i
          (sym (get-insert r.pending name incident n ∙ rw e refl) ∙ h)
  ];
  held = λ n i h. elim (Bool-cases (name == n)) [
    | inl e ↦
        subst (λ j. inhibitor_in r.inhibits (insert r.firing name true) j ≡ true)
          ((string_key.same_iff name n).0 e) active
    | inr e ↦
        (flagged-IsHeld r name k).held n i
          (sym (get-insert r.pending name incident n ∙ rw e refl) ∙ h)
  ];
}

-- A rule that is still pending once `name` has stopped firing.
pub other :
    (r : InhibitionResolver) (name n : String) (i : Incident)
    → get (remove r.pending name) n ≡ some i
    → ((name == n) ≡ false) × (get r.pending n ≡ some i)
other r name n i h = ground (arith, get-remove r.pending name n)

unflagged-active :
    (r : InhibitionResolver) (name n : String)
    → IsHeld r
    → any_is (or_none (get r.inhibits name)) n ≡ false
    → has_active_inhibitor_of r n ≡ true
    → has_active_inhibitor_of (unflagged r name) n ≡ true
unfolding has_active_inhibitor_of
unflagged-active r name n k spared h =
    inhibitor_in-less r.inhibits r.firing name n
      (spared_entries r.inhibits name n k.each_rule_once spared) h

pub released-IsHeld :
    (r : InhibitionResolver) (name : String)
    → IsHeld r
    → IsHeld (release_all (unflagged r name) (or_none (get r.inhibits name))).0
released-IsHeld r name k =
    let downstream = or_none (get r.inhibits name) in
    let s = release_all-Released (unflagged r name) downstream in
    record {
      each_rule_once = subst (λ m. IsUnique m) (sym s.inhibits_same) k.each_rule_once;
      fires = λ n i h.
          let (ne, before) = other r name n i (s.pending_less n i h) in
          subst (λ f. is_firing f n ≡ true) (sym s.firing_same)
            (is_firing-insert r.firing name false n ∙ rw ne (k.fires n i before));
      held = λ n i h.
          let (ne, before) = other r name n i (s.pending_less n i h) in
          active_same (unflagged r name) _ n s ∙ elim (Bool-cases (any_is downstream n)) [
            | inl e ↦ release_all-held (unflagged r name) downstream n i e h
            | inr e ↦ unflagged-active r name n k e (k.held n i before)
          ];
    }

-- Every observation keeps the invariant of the resolver: each rule stands once in the relation, and a
-- suppressed rule is firing, with a rule that inhibits it firing too.
pub observe-IsHeld :
    (r : InhibitionResolver) (name : String) (emission : Option Emission)
    → IsHeld r
    → IsHeld (observe r name emission).0
unfolding observe
observe-IsHeld r name none k = k
observe-IsHeld r name (some (Emission.firing incident)) k =
    elim (Bool-cases (has_active_inhibitor_of (flagged r name) name)) [
      | inl e ↦ rw e (suppressed-IsHeld r name incident k e)
      | inr e ↦ rw e (flagged-IsHeld r name k)
    ]
observe-IsHeld r name (some (Emission.resolved incident)) k = released-IsHeld r name k
