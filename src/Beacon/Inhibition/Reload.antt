-- ===== src/Beacon/Inhibition/Reload.antt =====
-- `rebuild_from` of crates/beacon/src/inhibition.rs: what a reload carries over, and what it loses.
use kaleidoscope.Prelude.{
  ◌≡◌, refl, ap, ◌∙◌, String, Bool, true, false, none, some, List, [], ◌∷◌, arith, ◌==◌, ◌&&◌,
  if◌then◌else◌, Bool-cases, inl, inr, string_key,
}
use kaleidoscope.Prelude.Map.{
  Map, get, insert, contains_key, IsUnique, get-insert, contains_key-insert, get-none, or_else,
}
use kaleidoscope.Beacon.Types.{Rule, Incident}
use kaleidoscope.Beacon.StateMachine.{Emission}
use kaleidoscope.Beacon.Inhibition.Held.{unflagged}
use kaleidoscope.Beacon.Inhibition.Resolver.{
  InhibitionResolver, add_rule, add_rules, new, surviving_in, has_surviving_inhibitor_of,
  carry_firing, carry_flag, carry_incident, carry_pending, carryover, rebuild_from, resolved_out,
  release_all, or_none, observe,
}

pub contains_key-carry_flag :
    (r : InhibitionResolver) (name : String) (on : Bool) (n : String)
    → contains_key (carry_flag r name on).firing n ≡ contains_key r.firing n
unfolding carry_flag
contains_key-carry_flag r name on n = elim (Bool-cases (contains_key r.firing name)) [
  | inl e ↦
      rw e (ground (arith, contains_key-insert r.firing name on n, string_key.same_iff name n))
  | inr e ↦ rw e refl
]

get-carry_flag :
    (r : InhibitionResolver) (name : String) (on : Bool) (n : String)
    → contains_key r.firing n ≡ true
    → get (carry_flag r name on).firing n ≡ (if name == n then some on else get r.firing n)
unfolding carry_flag
get-carry_flag r name on n here = elim (Bool-cases (contains_key r.firing name)) [
  | inl e ↦ rw e (get-insert r.firing name on n)
  | inr e ↦ rw e (ground (arith, string_key.same_iff name n))
]

pub get-carry_firing :
    (r : InhibitionResolver) (m : Map String Bool) (n : String)
    → IsUnique m
    → contains_key r.firing n ≡ true
    → get (carry_firing r m).firing n ≡ or_else (get m n) (get r.firing n)
unfolding carry_firing get
get-carry_firing r [] n u here = refl
get-carry_firing r ((name, on) ∷ m) n u here = ground (
  arith,
  get-carry_firing (carry_flag r name on) m n u.1 (contains_key-carry_flag r name on n ∙ here),
  get-carry_flag r name on n here,
  string_key.same_iff name n,
  get-none m name u.0,
)

fields-carry_flag :
    (r : InhibitionResolver) (name : String) (on : Bool)
    → ((carry_flag r name on).inhibits ≡ r.inhibits) × ((carry_flag r name on).pending ≡ r.pending)
unfolding carry_flag
fields-carry_flag r name on = elim (Bool-cases (contains_key r.firing name)) [
  | inl e ↦ rw e (refl, refl)
  | inr e ↦ rw e (refl, refl)
]

pub fields-carry_firing :
    (r : InhibitionResolver) (m : Map String Bool)
    → ((carry_firing r m).inhibits ≡ r.inhibits) × ((carry_firing r m).pending ≡ r.pending)
unfolding carry_firing
fields-carry_firing r [] = (refl, refl)
fields-carry_firing r ((name, on) ∷ m) =
    let one = fields-carry_flag r name on in
    let rest = fields-carry_firing (carry_flag r name on) m in (rest.0 ∙ one.0, rest.1 ∙ one.1)

-- An incident of another rule is carried, or none at all.
record Drops (r r' : InhibitionResolver) (n : String) : Type 0 where
  pending_same : get r'.pending n ≡ get r.pending n
  firing_same : r'.firing ≡ r.firing
  inhibits_same : r'.inhibits ≡ r.inhibits

carry_incident-Drops :
    (r : InhibitionResolver) (name : String) (i : Incident) (n : String)
    → has_surviving_inhibitor_of r n ≡ false
    → Drops r (carry_incident r name i) n
unfolding carry_incident
carry_incident-Drops r name i n gone =
    elim (Bool-cases (contains_key r.firing name && has_surviving_inhibitor_of r name)) [
      | inl e ↦ rw e (record { pending_same = other e; firing_same = refl; inhibits_same = refl })
      | inr e ↦ rw e (record { pending_same = refl; firing_same = refl; inhibits_same = refl })
    ]
  where
    other :
        (contains_key r.firing name && has_surviving_inhibitor_of r name) ≡ true
        → get (insert r.pending name i) n ≡ get r.pending n
    other e = elim (Bool-cases (name == n)) [
      | inl same ↦
          let is_n : name ≡ n = (string_key.same_iff name n).0 same in
          let h : has_surviving_inhibitor_of r name ≡ true = ground (arith, e) in cc (is_n, gone, h)
      | inr differs ↦ get-insert r.pending name i n ∙ rw differs refl
    ]

pub survives_same :
    (r r' : InhibitionResolver) (n : String)
    → r'.inhibits ≡ r.inhibits
    → has_surviving_inhibitor_of r' n ≡ has_surviving_inhibitor_of r n
unfolding has_surviving_inhibitor_of
survives_same r r' n e = ap (λ m. surviving_in m n) e

-- No incident of a rule without an inhibitor is carried.
carry_pending-Drops :
    (r : InhibitionResolver) (m : Map String Incident) (n : String)
    → has_surviving_inhibitor_of r n ≡ false
    → Drops r (carry_pending r m) n
unfolding carry_pending
carry_pending-Drops r [] n gone = record {
  pending_same = refl;
  firing_same = refl;
  inhibits_same = refl;
}
carry_pending-Drops r ((name, i) ∷ m) n gone =
    let one = carry_incident-Drops r name i n gone in
    let r' = carry_incident r name i in
    let rest = carry_pending-Drops r' m n (survives_same r r' n one.inhibits_same ∙ gone) in
    record {
      pending_same = rest.pending_same ∙ one.pending_same;
      firing_same = rest.firing_same ∙ one.firing_same;
      inhibits_same = rest.inhibits_same ∙ one.inhibits_same;
    }

pending-add_rules :
    (r : InhibitionResolver) (rules : List Rule) → (add_rules r rules).pending ≡ r.pending
unfolding add_rules add_rule
pending-add_rules r [] = refl
pending-add_rules r (rule ∷ rules) = pending-add_rules (add_rule r rule) rules

pub pending-new : (rules : List Rule) (n : String) → get (new rules).pending n ≡ none
unfolding new get
pending-new rules n =
    ap (λ m. get m n)
      (pending-add_rules (record { inhibits = []; firing = []; pending = [] }) rules)

orphan :
    (r : InhibitionResolver) (n : String) (i : Incident)
    → get r.pending n ≡ none
    → (more : List Emission) × ((observe r n (some (Emission.resolved i))).1
        ≡ Emission.resolved i ∷ more)
unfolding observe resolved_out
orphan r n i absent = ((release_all (unflagged r n) (or_none (get r.inhibits n))).1, rw absent refl)

-- A rule is firing and its incident is suppressed, so the sinks know nothing of it. After a reload in
-- which it survives and no rule inhibits it any more, no incident of it is pending, the rule still
-- counts as firing, and its resolution goes out to the sinks.
pub reload_orphans :
    (r : InhibitionResolver) (rules : List Rule) (n : String) (held : Incident) (i : Incident)
    → IsUnique r.firing
    → get r.firing n ≡ some true
    → get r.pending n ≡ some held
    → contains_key (new rules).firing n ≡ true
    → has_surviving_inhibitor_of (new rules) n ≡ false
    → let r' = rebuild_from rules (carryover r) in
      (get r'.pending n ≡ none)
      × (get r'.firing n ≡ some true)
      × ((more : List Emission) × ((observe r' n (some (Emission.resolved i))).1
            ≡ Emission.resolved i ∷ more))
unfolding rebuild_from carryover
reload_orphans r rules n held i unique on found survives gone =
    let start = carry_firing (new rules) r.firing in
    let fields = fields-carry_firing (new rules) r.firing in
    let dropped =
      carry_pending-Drops start r.pending n (survives_same (new rules) start n fields.0 ∙ gone) in
    let absent = dropped.pending_same ∙ ap (λ m. get m n) fields.1 ∙ pending-new rules n in
    (
      absent,
      ap (λ m. get m n) dropped.firing_same
          ∙ get-carry_firing (new rules) r.firing n unique survives
          ∙ rw on refl,
      orphan (rebuild_from rules (carryover r)) n i absent,
    )
