-- ===== src/Beacon/Dwell.antt =====
-- crates/beacon/src/state_machine.rs over the observations of one rule: when it fires, and how its
-- emissions alternate.
use kaleidoscope.Prelude.{
  ℕ, ◌+◌, ◌-◌, ◌≤◌, ◌≡◌, refl, Bool, true, false, Option, none, some, List, [], ◌∷◌, arith, leb,
  if◌then◌else◌,
}
use kaleidoscope.Beacon.Types.{SystemTime, Rule, Incident, firing_incident}
use kaleidoscope.Beacon.StateMachine.{QueryOutcome, RuleState, Emission, transition, dwell_time}

-- What the backend said, and when; the newest observation comes first.
abbrev pub Observations : Type 0
Observations = List (QueryOutcome × SystemTime)

-- The state after all observations.
unfoldable pub state_after : Rule → Observations → RuleState
state_after rule [] = RuleState.inactive
state_after rule ((outcome, now) ∷ past) = (transition (state_after rule past) outcome rule now).0

-- The emission at the newest observation.
unfoldable pub emitted : Rule → Observations → Option Emission
emitted rule [] = none
emitted rule ((outcome, now) ∷ past) = (transition (state_after rule past) outcome rule now).1

-- Every observation was active, back to one at `since`.
pub data ActiveSince (since : SystemTime) : Observations → Type 0 where
  started : (past : Observations) → ActiveSince since ((QueryOutcome.active, since) ∷ past)
  longer :
      (now : SystemTime) (past : Observations)
      → ActiveSince since past
      → ActiveSince since ((QueryOutcome.active, now) ∷ past)

-- A pending rule has seen its condition active since the time that it keeps.
Explained : Observations → RuleState → Type 0
Explained past RuleState.inactive = Unit
Explained past (RuleState.pending since) = ActiveSince since past
Explained past (RuleState.firing since) = Unit

-- What a firing at `now` needs.
abbrev pub Dwelt : Rule → Observations → SystemTime → Type 0
Dwelt rule past now =
    (since : SystemTime) × ActiveSince since past × (rule.for_duration ≤ now - since)

transition-Explained :
    (rule : Rule) (past : Observations) (state : RuleState) (outcome : QueryOutcome)
    (now : SystemTime)
    → Explained past state
    → Explained ((outcome, now) ∷ past) (transition state outcome rule now).0
unfolding transition Explained
transition-Explained rule past RuleState.inactive QueryOutcome.inactive now h = tt
transition-Explained rule past RuleState.inactive QueryOutcome.active now h = started past
transition-Explained rule past (RuleState.pending since) QueryOutcome.inactive now h = tt
transition-Explained rule past (RuleState.pending since) QueryOutcome.active now h =
    by_dwell (leb rule.for_duration (dwell_time now since))
  where
    outcome_if : Bool → RuleState × Option Emission
    outcome_if long =
        if long
        then (RuleState.firing now, some (Emission.firing (firing_incident rule now)))
        else (RuleState.pending since, none)

    by_dwell : (long : Bool) → Explained ((QueryOutcome.active, now) ∷ past) (outcome_if long).0
    by_dwell true = tt
    by_dwell false = longer now past h
transition-Explained rule past (RuleState.firing since) QueryOutcome.active now h = tt
transition-Explained rule past (RuleState.firing since) QueryOutcome.inactive now h = tt

state_after-Explained : (rule : Rule) (past : Observations) → Explained past (state_after rule past)
unfolding state_after
state_after-Explained rule [] = unfold Explained in tt
state_after-Explained rule ((outcome, now) ∷ past) =
    transition-Explained rule past (state_after rule past) outcome now
      (state_after-Explained rule past)

fires :
    (rule : Rule) (past : Observations) (state : RuleState) (outcome : QueryOutcome)
    (now : SystemTime) (i : Incident)
    → Explained past state
    → (transition state outcome rule now).1 ≡ some (Emission.firing i)
    → Dwelt rule ((outcome, now) ∷ past) now
unfolding transition Explained dwell_time
fires rule past RuleState.inactive QueryOutcome.inactive now i h e = cc
fires rule past RuleState.inactive QueryOutcome.active now i h e = cc
fires rule past (RuleState.pending since) QueryOutcome.inactive now i h e = cc
fires rule past (RuleState.pending since) QueryOutcome.active now i h e =
    (since, longer now past h, ground arith)
fires rule past (RuleState.firing since) QueryOutcome.active now i h e = cc
fires rule past (RuleState.firing since) QueryOutcome.inactive now i h e = cc

-- A rule that emits a firing incident at its newest observation has seen nothing but active
-- observations since some time, that observation among them, and its duration has passed since then.
pub fires_after_dwell :
    (rule : Rule) (outcome : QueryOutcome) (now : SystemTime) (past : Observations) (i : Incident)
    → emitted rule ((outcome, now) ∷ past) ≡ some (Emission.firing i)
    → Dwelt rule ((outcome, now) ∷ past) now
unfolding emitted
fires_after_dwell rule outcome now past i e =
    fires rule past (state_after rule past) outcome now i (state_after-Explained rule past) e

count_firing : Option Emission → ℕ
count_firing none = 0
count_firing (some (Emission.firing i)) = 1
count_firing (some (Emission.resolved i)) = 0

count_resolved : Option Emission → ℕ
count_resolved none = 0
count_resolved (some (Emission.firing i)) = 0
count_resolved (some (Emission.resolved i)) = 1

-- How many incidents of a kind all observations have led to.
unfoldable pub firings : Rule → Observations → ℕ
unfolding emitted count_firing
firings rule [] = 0
firings rule (o ∷ past) = count_firing (emitted rule (o ∷ past)) + firings rule past

unfoldable pub resolutions : Rule → Observations → ℕ
unfolding emitted count_resolved
resolutions rule [] = 0
resolutions rule (o ∷ past) = count_resolved (emitted rule (o ∷ past)) + resolutions rule past

abbrev pub open_incidents : RuleState → ℕ
open_incidents RuleState.inactive = 0
open_incidents (RuleState.pending since) = 0
open_incidents (RuleState.firing since) = 1

transition-balance :
    (rule : Rule) (state : RuleState) (outcome : QueryOutcome) (now : SystemTime)
    → count_firing (transition state outcome rule now).1 + open_incidents state
      ≡ count_resolved (transition state outcome rule now).1
        + open_incidents (transition state outcome rule now).0
unfolding transition count_firing count_resolved
transition-balance rule RuleState.inactive QueryOutcome.inactive now = refl
transition-balance rule RuleState.inactive QueryOutcome.active now = refl
transition-balance rule (RuleState.pending since) QueryOutcome.inactive now = refl
transition-balance rule (RuleState.pending since) QueryOutcome.active now = ground arith
transition-balance rule (RuleState.firing since) QueryOutcome.active now = refl
transition-balance rule (RuleState.firing since) QueryOutcome.inactive now = refl

-- After any observations a rule has emitted as many firing incidents as resolved ones, and one more
-- exactly if it is firing now.
pub firings-balance :
    (rule : Rule) (past : Observations)
    → firings rule past ≡ resolutions rule past + open_incidents (state_after rule past)
unfolding firings resolutions state_after emitted
firings-balance rule [] = refl
firings-balance rule ((outcome, now) ∷ past) =
    omega (
      arith,
      firings-balance rule past,
      transition-balance rule (state_after rule past) outcome now,
    )
