-- ===== src/Beacon/StateMachine.antt =====
-- crates/beacon/src/state_machine.rs: the pure transition of one rule.
use kaleidoscope.Prelude.{◌-◌, Option, none, some, leb, if◌then◌else◌}
use kaleidoscope.Beacon.Types.{
  SystemTime, Duration, Rule, Incident, firing_incident, resolved_incident,
}

pub data QueryOutcome : Type 0 where
  active : QueryOutcome
  inactive : QueryOutcome

pub data RuleState : Type 0 where
  inactive : RuleState
  pending : SystemTime → RuleState
  firing : SystemTime → RuleState

pub data Emission : Type 0 where
  firing : Incident → Emission
  resolved : Incident → Emission

-- `now.duration_since(since).unwrap_or_default()`: subtraction that stops at 0.
unfoldable pub dwell_time : SystemTime → SystemTime → Duration
dwell_time now since = now - since

unfoldable pub transition :
    RuleState → QueryOutcome → Rule → SystemTime → RuleState × Option Emission
unfolding dwell_time firing_incident resolved_incident
transition RuleState.inactive QueryOutcome.inactive rule now = (RuleState.inactive, none)
transition RuleState.inactive QueryOutcome.active rule now = (RuleState.pending now, none)
transition (RuleState.pending since) QueryOutcome.inactive rule now = (RuleState.inactive, none)
transition (RuleState.pending since) QueryOutcome.active rule now =
    let dwell = dwell_time now since in
    if leb rule.for_duration dwell
    then (RuleState.firing now, some (Emission.firing (firing_incident rule now)))
    else (RuleState.pending since, none)
transition (RuleState.firing since) QueryOutcome.active rule now = (RuleState.firing since, none)
transition (RuleState.firing since) QueryOutcome.inactive rule now =
    (RuleState.inactive, some (Emission.resolved (resolved_incident rule since now)))
