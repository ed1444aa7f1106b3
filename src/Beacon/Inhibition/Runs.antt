-- ===== src/Beacon/Inhibition/Runs.antt =====
-- crates/beacon/src/inhibition.rs: any history of observations and reloads, from the rules of a first
-- configuration, as the evaluation loop and the SIGHUP handler of crates/beacon-server/src/main.rs make it.
use kaleidoscope.Prelude.{String, Bool, true, false, Option, List, [], ◌∷◌}
use kaleidoscope.Beacon.Types.{Rule}
use kaleidoscope.Beacon.StateMachine.{Emission}
use kaleidoscope.Beacon.Inhibition.Resolver.{
  InhibitionResolver, new, carryover, rebuild_from, observe,
}
use kaleidoscope.Beacon.Inhibition.Suppressed.{IsHeld}
use kaleidoscope.Beacon.Inhibition.Held.{observe-IsHeld}
use kaleidoscope.Beacon.Inhibition.Reload.{pending-new}
use kaleidoscope.Beacon.Inhibition.Backed.{
  IsBacked, observe-IsBacked, rebuild_from-IsBacked, new-IsUnique, new-IsBacked,
}

pub data Event : Type 0 where
  observed : String → Option Emission → Event
  reloaded : List Rule → Event

unfoldable pub after : InhibitionResolver → Event → InhibitionResolver
after r (observed name emission) = (observe r name emission).0
after r (reloaded rules) = rebuild_from rules (carryover r)

unfoldable pub run : InhibitionResolver → List Event → InhibitionResolver
unfolding after
run r [] = r
run r (event ∷ events) = run (after r event) events

-- Whether a history, or what came before it, has a reload.
unfoldable pub has_reload : Bool → List Event → Bool
has_reload before [] = before
has_reload before (observed name emission ∷ events) = has_reload before events
has_reload before (reloaded rules ∷ events) = has_reload true events

-- Without a reload, a rule that inhibits a suppressed one is firing as well.
abbrev pub IsKept : Bool → InhibitionResolver → Type 0
IsKept false r = IsBacked r × IsHeld r
IsKept true r = IsBacked r

IsKept-IsBacked : (reload : Bool) (r : InhibitionResolver) → IsKept reload r → IsBacked r
IsKept-IsBacked false r k = k.0
IsKept-IsBacked true r k = k

observe-IsKept :
    (reload : Bool) (r : InhibitionResolver) (name : String) (emission : Option Emission)
    → IsKept reload r
    → IsKept reload (observe r name emission).0
observe-IsKept false r name emission k =
    (observe-IsBacked r name emission k.0, observe-IsHeld r name emission k.1)
observe-IsKept true r name emission k = observe-IsBacked r name emission k

run-IsKept :
    (events : List Event) (reload : Bool) (r : InhibitionResolver)
    → IsKept reload r
    → IsKept (has_reload reload events) (run r events)
unfolding run has_reload
run-IsKept [] reload r k = k
run-IsKept (observed name emission ∷ events) reload r k =
    run-IsKept events reload (observe r name emission).0 (observe-IsKept reload r name emission k)
run-IsKept (reloaded rules ∷ events) reload r k =
    run-IsKept events true (rebuild_from rules (carryover r))
      (rebuild_from-IsBacked rules r (IsKept-IsBacked reload r k))

new-IsHeld : (rules : List Rule) → IsHeld (new rules)
new-IsHeld rules = record {
  each_rule_once = (new-IsUnique rules).0;
  fires = λ n i h. cc (pending-new rules n, h);
  held = λ n i h. cc (pending-new rules n, h);
}

-- After any history of observations and reloads from the rules of a first configuration, each rule stands
-- once in the relation and once among the flags, and a suppressed rule is firing, with a rule of the
-- configuration that inhibits it. If the history has no reload, then a rule that inhibits it is firing
-- too.
pub run-new-IsKept :
    (rules : List Rule) (events : List Event)
    → IsKept (has_reload false events) (run (new rules) events)
run-new-IsKept rules events =
    run-IsKept events false (new rules) (new-IsBacked rules, new-IsHeld rules)
