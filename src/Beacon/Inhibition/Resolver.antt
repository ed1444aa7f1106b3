-- ===== src/Beacon/Inhibition/Resolver.antt =====
-- `InhibitionResolver` of crates/beacon/src/inhibition.rs. Names are looked up in maps; the loops over a
-- map follow the order of its entries.
use kaleidoscope.Prelude.{
  ℕ, String, Bool, true, false, Option, none, some, List, [], ◌∷◌, ◌++◌, length, ◌==◌, ◌&&◌, ◌||◌,
  not, if◌then◌else◌, string_key,
}
use kaleidoscope.Prelude.Map.{Map, get, insert, remove, contains_key}
use kaleidoscope.Beacon.Types.{Rule, Incident}
use kaleidoscope.Beacon.StateMachine.{Emission}

pub record InhibitionResolver : Type 0 where
  pub inhibits : Map String (List String)
  pub firing : Map String Bool
  pub pending : Map String Incident

pub record Carryover : Type 0 where
  pub firing : Map String Bool
  pub pending : Map String Incident

unfoldable pub add_rule : InhibitionResolver → Rule → InhibitionResolver
add_rule r rule = record r {
  inhibits = insert r.inhibits rule.name rule.inhibits;
  firing = insert r.firing rule.name false;
}

unfoldable pub add_rules : InhibitionResolver → List Rule → InhibitionResolver
unfolding add_rule
add_rules r [] = r
add_rules r (rule ∷ rules) = add_rules (add_rule r rule) rules

unfoldable pub new : List Rule → InhibitionResolver
unfolding add_rules
new rules = add_rules (record { inhibits = []; firing = []; pending = [] }) rules

unfoldable pub carryover : InhibitionResolver → Carryover
carryover r = record { firing = r.firing; pending = r.pending }

-- `inhibited.iter().any(|n| n == target_name)`
unfoldable pub any_is : List String → String → Bool
any_is [] target_name = false
any_is (n ∷ names) target_name = n == target_name || any_is names target_name

-- `matches!(self.firing.get(candidate), Some(true))`
unfoldable pub is_firing : Map String Bool → String → Bool
is_firing firing name = elim (get firing name) [ none ↦ false | some on ↦ on ]

-- The loops return at the first entry that answers the question.
unfoldable pub inhibitor_in : Map String (List String) → Map String Bool → String → Bool
inhibitor_in [] firing target_name = false
inhibitor_in ((candidate, inhibited) ∷ inhibits) firing target_name =
    (not (candidate == target_name) && (any_is inhibited target_name && is_firing firing candidate))
    || inhibitor_in inhibits firing target_name

unfoldable pub has_active_inhibitor_of : InhibitionResolver → String → Bool
unfolding inhibitor_in any_is is_firing
has_active_inhibitor_of r target_name = inhibitor_in r.inhibits r.firing target_name

unfoldable pub surviving_in : Map String (List String) → String → Bool
surviving_in [] target_name = false
surviving_in ((candidate, inhibited) ∷ inhibits) target_name =
    (not (candidate == target_name) && any_is inhibited target_name)
    || surviving_in inhibits target_name

unfoldable pub has_surviving_inhibitor_of : InhibitionResolver → String → Bool
unfolding surviving_in any_is
has_surviving_inhibitor_of r target_name = surviving_in r.inhibits target_name

unfoldable pub carry_flag : InhibitionResolver → String → Bool → InhibitionResolver
carry_flag r name on =
    if contains_key r.firing name then record r { firing = insert r.firing name on } else r

unfoldable pub carry_firing : InhibitionResolver → Map String Bool → InhibitionResolver
unfolding carry_flag
carry_firing r [] = r
carry_firing r ((name, on) ∷ rest) = carry_firing (carry_flag r name on) rest

unfoldable pub carry_incident : InhibitionResolver → String → Incident → InhibitionResolver
unfolding has_surviving_inhibitor_of
carry_incident r inhibited_name incident =
    if contains_key r.firing inhibited_name && has_surviving_inhibitor_of r inhibited_name
    then record r { pending = insert r.pending inhibited_name incident }
    else r

unfoldable pub carry_pending : InhibitionResolver → Map String Incident → InhibitionResolver
unfolding carry_incident
carry_pending r [] = r
carry_pending r ((inhibited_name, incident) ∷ rest) =
    carry_pending (carry_incident r inhibited_name incident) rest

unfoldable pub rebuild_from : List Rule → Carryover → InhibitionResolver
unfolding new carry_firing carry_pending
rebuild_from new_rules carried =
    carry_pending (carry_firing (new new_rules) carried.firing) carried.pending

-- One step of the loop over the inhibited rules: a suppressed firing that no rule holds back any more is
-- released.
unfoldable pub release_found :
    InhibitionResolver → String → Option Incident → InhibitionResolver × List Emission
release_found r name none = (r, [])
release_found r name (some incident) =
    (record r { pending = remove r.pending name }, Emission.firing incident ∷ [])

unfoldable pub release : InhibitionResolver → String → InhibitionResolver × List Emission
unfolding release_found has_active_inhibitor_of
release r name =
    if has_active_inhibitor_of r name then (r, []) else release_found r name (get r.pending name)

unfoldable pub release_all : InhibitionResolver → List String → InhibitionResolver × List Emission
unfolding release
release_all r [] = (r, [])
release_all r (name ∷ names) =
    let (r', out) = release r name in let (r'', rest) = release_all r' names in (r'', out ++ rest)

abbrev pub or_none : Option (List String) → List String
or_none none = []
or_none (some names) = names

-- The answer of `self.pending.remove(rule_name)`, and what is emitted for it.
unfoldable pub resolved_out : Incident → Option Incident → List Emission
resolved_out incident none = Emission.resolved incident ∷ []
resolved_out incident (some held) = []

unfoldable pub observe :
    InhibitionResolver → String → Option Emission → InhibitionResolver × List Emission
unfolding has_active_inhibitor_of release_all resolved_out
observe r rule_name none = (r, [])
observe r rule_name (some (Emission.firing incident)) =
    let r' = record r { firing = insert r.firing rule_name true } in
    if has_active_inhibitor_of r' rule_name
    then (record r' { pending = insert r'.pending rule_name incident }, [])
    else (r', Emission.firing incident ∷ [])
observe r rule_name (some (Emission.resolved incident)) =
    let r' = record r {
      firing = insert r.firing rule_name false;
      pending = remove r.pending rule_name;
    } in
    let downstream = or_none (get r'.inhibits rule_name) in
    let (r'', released) = release_all r' downstream in
    (r'', resolved_out incident (get r.pending rule_name) ++ released)

-- The names whose flag is set, without the order of the `BTreeSet`.
unfoldable pub firing_now : Map String Bool → List String
firing_now [] = []
firing_now ((name, on) ∷ rest) = let names = firing_now rest in if on then name ∷ names else names

unfoldable pub pending_count : InhibitionResolver → ℕ
pending_count r = length r.pending
