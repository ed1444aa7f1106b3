-- ===== src/Beacon/Inhibition/Paired.antt =====
-- crates/beacon/src/inhibition.rs: the sinks get a firing and its resolution in turns.
use kaleidoscope.Prelude.{
  ◌+◌, ◌≡◌, refl, subst, String, true, false, Option, none, some, List, [], ◌∷◌, ◌++◌, arith, ◌==◌,
  Bool-cases, inl, inr, string_key,
}
use kaleidoscope.Prelude.Map.{get, insert, get-insert, get-remove}
use kaleidoscope.Beacon.Types.{Incident}
use kaleidoscope.Beacon.StateMachine.{Emission}
use kaleidoscope.Beacon.Inhibition.Resolver.{
  InhibitionResolver, is_firing, has_active_inhibitor_of, release_all, or_none, resolved_out,
  observe,
}
use kaleidoscope.Beacon.Inhibition.Suppressed.{is_firing-insert}
use kaleidoscope.Beacon.Inhibition.Held.{flagged, unflagged}
use kaleidoscope.Beacon.Inhibition.Deliveries.{
  fired, settled, fired-append, settled-append, delivered, IsNamed, release_all-Balanced,
}

-- What a rule's state machine hands over: its own incidents, a firing when it is not firing and a
-- resolution when it is.
abbrev pub IsTurn : InhibitionResolver → String → Option Emission → Type 0
IsTurn r name none = Unit
IsTurn r name (some (Emission.firing i)) = (i.name ≡ name) × (is_firing r.firing name ≡ false)
IsTurn r name (some (Emission.resolved i)) = (i.name ≡ name) × (is_firing r.firing name ≡ true)

record Step (r r' : InhibitionResolver) (out : List Emission) : Type 0 where
  is_named : IsNamed r'
  balance : (n : String) → fired n out + delivered r n ≡ settled n out + delivered r' n

not_pending :
    (r : InhibitionResolver) (name : String) (o : Option Incident)
    → IsNamed r
    → get r.pending name ≡ o
    → is_firing r.firing name ≡ false
    → get r.pending name ≡ none
not_pending r name none k e off = e
not_pending r name (some i) k e off = cc (k.fires name i e, off)

flagged-IsNamed : (r : InhibitionResolver) (name : String) → IsNamed r → IsNamed (flagged r name)
flagged-IsNamed r name k = record {
  named = k.named;
  fires = λ n i h. ground (arith, k.fires n i h, is_firing-insert r.firing name true n);
}

-- A firing that goes out.
fired_now :
    (r : InhibitionResolver) (name : String) (i : Incident)
    → IsNamed r
    → i.name ≡ name
    → is_firing r.firing name ≡ false
    → Step r (flagged r name) (Emission.firing i ∷ [])
fired_now r name i k mine off = record {
  is_named = flagged-IsNamed r name k;
  balance = λ n. elim (Bool-cases (name == n)) [
    | inl e ↦
        let same : name ≡ n = (string_key.same_iff name n).0 e in
        let off_n : is_firing r.firing n ≡ false =
          subst (λ j. is_firing r.firing j ≡ false) same off in
        let gone : get r.pending n ≡ none =
          subst (λ j. get r.pending j ≡ none) same
            (not_pending r name (get r.pending name) k refl off) in
        rw (mine, is_firing-insert r.firing name true n) (rw e (rw off_n (rw gone refl)))
    | inr e ↦ rw (mine, is_firing-insert r.firing name true n) (rw e (omega arith))
  ];
}

-- A firing that is suppressed.
suppressed :
    (r : InhibitionResolver) (name : String) (i : Incident)
    → IsNamed r
    → i.name ≡ name
    → is_firing r.firing name ≡ false
    → Step r (record (flagged r name) { pending = insert r.pending name i }) []
suppressed r name i k mine off = record {
  is_named = record {
    named = λ n j h.
        ground (arith, k.named n j, get-insert r.pending name i n, string_key.same_iff name n);
    fires = λ n j h.
        ground (
          arith,
          k.fires n j,
          get-insert r.pending name i n,
          is_firing-insert r.firing name true n,
        );
  };
  balance = λ n. elim (Bool-cases (name == n)) [
    | inl e ↦
        let same : name ≡ n = (string_key.same_iff name n).0 e in
        let off_n : is_firing r.firing n ≡ false =
          subst (λ j. is_firing r.firing j ≡ false) same off in
        rw (is_firing-insert r.firing name true n, get-insert r.pending name i n)
          (rw e (rw off_n refl))
    | inr e ↦ rw (is_firing-insert r.firing name true n, get-insert r.pending name i n) (rw e refl)
  ];
}

unflagged-IsNamed :
    (r : InhibitionResolver) (name : String) → IsNamed r → IsNamed (unflagged r name)
unflagged-IsNamed r name k = record {
  named = λ n i h. k.named n i (ground (arith, get-remove r.pending name n));
  fires = λ n i h.
      ground
        (arith, k.fires n i, get-remove r.pending name n, is_firing-insert r.firing name false n);
}

-- A resolution, before the releases.
settled_now :
    (r : InhibitionResolver) (name : String) (i : Incident) (o : Option Incident) (n : String)
    → i.name ≡ name
    → is_firing r.firing name ≡ true
    → get r.pending name ≡ o
    → settled n (resolved_out i o) + delivered (unflagged r name) n ≡ delivered r n
unfolding resolved_out
settled_now r name i none n mine on e = elim (Bool-cases (name == n)) [
  | inl same ↦
      let is_n : name ≡ n = (string_key.same_iff name n).0 same in
      let on_n : is_firing r.firing n ≡ true = subst (λ j. is_firing r.firing j ≡ true) is_n on in
      let gone : get r.pending n ≡ none = subst (λ j. get r.pending j ≡ none) is_n e in
      rw (mine, is_firing-insert r.firing name false n) (rw same (rw on_n (rw gone refl)))
  | inr same ↦
      rw (mine, is_firing-insert r.firing name false n, get-remove r.pending name n)
        (rw same (omega arith))
]
settled_now r name i (some held) n mine on e = elim (Bool-cases (name == n)) [
  | inl same ↦
      let is_n : name ≡ n = (string_key.same_iff name n).0 same in
      let on_n : is_firing r.firing n ≡ true = subst (λ j. is_firing r.firing j ≡ true) is_n on in
      let found : get r.pending n ≡ some held = subst (λ j. get r.pending j ≡ some held) is_n e in
      rw (is_firing-insert r.firing name false n) (rw same (rw on_n (rw found refl)))
  | inr same ↦
      rw (is_firing-insert r.firing name false n, get-remove r.pending name n)
        (rw same (omega arith))
]

fired-resolved_out :
    (n : String) (i : Incident) (o : Option Incident) → fired n (resolved_out i o) ≡ 0
unfolding resolved_out
fired-resolved_out n i none = refl
fired-resolved_out n i (some held) = refl

resolved-Step :
    (r : InhibitionResolver) (name : String) (i : Incident)
    → IsNamed r
    → i.name ≡ name
    → is_firing r.firing name ≡ true
    → let (r', released) = release_all (unflagged r name) (or_none (get r.inhibits name)) in
      Step r r' (resolved_out i (get r.pending name) ++ released)
resolved-Step r name i k mine on =
    let u = unflagged r name in
    let names = or_none (get r.inhibits name) in
    let rest = release_all-Balanced u names (unflagged-IsNamed r name k) in
    let released = (release_all u names).1 in
    let out = resolved_out i (get r.pending name) in
    record {
      is_named = rest.is_named;
      balance = λ n. omega (
        arith,
        fired-append n out released,
        settled-append n out released,
        rest.balance n,
        rest.no_resolved n,
        fired-resolved_out n i (get r.pending name),
        settled_now r name i (get r.pending name) n mine on refl,
      );
    }

observe-Step :
    (r : InhibitionResolver) (name : String) (emission : Option Emission)
    → IsNamed r
    → IsTurn r name emission
    → Step r (observe r name emission).0 (observe r name emission).1
unfolding observe
observe-Step r name none k t = record { is_named = k; balance = λ n. refl }
observe-Step r name (some (Emission.firing i)) k t =
    elim (Bool-cases (has_active_inhibitor_of (flagged r name) name)) [
      | inl e ↦ rw e (suppressed r name i k t.0 t.1)
      | inr e ↦ rw e (fired_now r name i k t.0 t.1)
    ]
observe-Step r name (some (Emission.resolved i)) k t = resolved-Step r name i k t.0 t.1

-- The observations of all rules in order, and everything that reaches the sinks.
unfoldable pub observe_all :
    InhibitionResolver → List (String × Option Emission) → InhibitionResolver × List Emission
observe_all r [] = (r, [])
observe_all r ((name, emission) ∷ rest) =
    let (r', out) = observe r name emission in
    let (r'', more) = observe_all r' rest in (r'', out ++ more)

abbrev pub AreTurns : InhibitionResolver → List (String × Option Emission) → Type 0
AreTurns r [] = Unit
AreTurns r ((name, emission) ∷ rest) =
    IsTurn r name emission × AreTurns (observe r name emission).0 rest

-- The rules hand over their own incidents, each rule a firing when it is not firing and a resolution
-- when it is. Then, for every rule, the firing incidents that reach the sinks are as many as the resolved
-- ones, up to the one that is open before and the one that is open after; a rule has an open incident
-- exactly if it is firing and not suppressed.
pub observe_all-balance :
    (events : List (String × Option Emission)) (r : InhibitionResolver) (n : String)
    → IsNamed r
    → AreTurns r events
    → fired n (observe_all r events).1 + delivered r n
      ≡ settled n (observe_all r events).1 + delivered (observe_all r events).0 n
unfolding observe_all
observe_all-balance [] r n k t = refl
observe_all-balance ((name, emission) ∷ rest) r n k t =
    let step = observe-Step r name emission k t.0 in
    let r' = (observe r name emission).0 in
    let out = (observe r name emission).1 in
    omega (
      arith,
      fired-append n out (observe_all r' rest).1,
      settled-append n out (observe_all r' rest).1,
      step.balance n,
      observe_all-balance rest r' n step.is_named t.1,
    )
