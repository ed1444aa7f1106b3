-- ===== src/Beacon/Examples.antt =====
-- Two rules of crates/beacon, one of which inhibits the other, and the theorems at them.
use kaleidoscope.Prelude.{
  ◌+◌, ◌≡◌, refl, String, true, false, Option, none, some, List, [], ◌∷◌, string_key,
}
use kaleidoscope.Prelude.Map.{get, insert, remove, contains_key}
use kaleidoscope.Beacon.Types.{SystemTime, Severity, Rule, firing_incident, resolved_incident}
use kaleidoscope.Beacon.StateMachine.{QueryOutcome, Emission, transition}
use kaleidoscope.Beacon.Dwell.{
  Observations, Dwelt, emitted, state_after, firings, resolutions, open_incidents,
  fires_after_dwell, firings-balance,
}
use kaleidoscope.Beacon.Inhibition.Resolver.{
  InhibitionResolver, new, carryover, rebuild_from, observe, has_surviving_inhibitor_of, is_firing,
  has_active_inhibitor_of,
}
use kaleidoscope.Beacon.Inhibition.Deliveries.{fired, settled, delivered, IsNamed}
use kaleidoscope.Beacon.Inhibition.Paired.{observe_all, AreTurns, observe_all-balance}
use kaleidoscope.Beacon.Inhibition.Reload.{reload_orphans}
use kaleidoscope.Beacon.Inhibition.Runs.{
  Event, observed, reloaded, run, has_reload, IsKept, run-new-IsKept,
}

abbrev db : Rule
db = record {
  name = "db";
  query = "up{job='db'} == 0";
  for_duration = 30;
  interval = 10;
  severity = Severity.critical;
  labels = [];
  sinks = [];
  inhibits = "api" ∷ [];
}

abbrev api : Rule
api = record {
  name = "api";
  query = "up{job='api'} == 0";
  for_duration = 30;
  interval = 10;
  severity = Severity.warning;
  labels = [];
  sinks = [];
  inhibits = [];
}

-- Down from 10 on, with a first sight of it at 0 that did not last.
abbrev outage : Observations
outage =
    (QueryOutcome.active, 30)
    ∷ (QueryOutcome.active, 20)
    ∷ (QueryOutcome.active, 10)
    ∷ (QueryOutcome.inactive, 5)
    ∷ (QueryOutcome.active, 0)
    ∷ []

fires_at_40 :
    emitted db ((QueryOutcome.active, 40) ∷ outage) ≡ some (Emission.firing (firing_incident db 40))
unfolding emitted state_after transition
fires_at_40 = refl

fires_after_dwell_example : Dwelt db ((QueryOutcome.active, 40) ∷ outage) 40
fires_after_dwell_example =
    fires_after_dwell db QueryOutcome.active 40 outage (firing_incident db 40) fires_at_40

firings-balance_example :
    firings db ((QueryOutcome.active, 40) ∷ outage)
    ≡ resolutions db ((QueryOutcome.active, 40) ∷ outage)
      + open_incidents (state_after db ((QueryOutcome.active, 40) ∷ outage))
firings-balance_example = firings-balance db ((QueryOutcome.active, 40) ∷ outage)

abbrev both_rules : List Rule
both_rules = db ∷ api ∷ []

abbrev down : Rule → SystemTime → Option Emission
down rule now = some (Emission.firing (firing_incident rule now))

abbrev up : Rule → SystemTime → SystemTime → Option Emission
up rule since now = some (Emission.resolved (resolved_incident rule since now))

-- The database goes down, the API with it, and then the database is back.
abbrev storm : List (String × Option Emission)
storm = ("db", down db 40) ∷ ("api", down api 45) ∷ ("db", up db 40 90) ∷ ("api", up api 45 95) ∷ []

new-IsNamed : IsNamed (new both_rules)
unfolding new get
new-IsNamed = record { named = λ n i h. cc; fires = λ n i h. cc }

storm-AreTurns : AreTurns (new both_rules) storm
unfolding new insert get remove is_firing observe firing_incident resolved_incident
storm-AreTurns = ((refl, refl), ((refl, refl), ((refl, refl), ((refl, refl), tt))))

observe_all-balance_example :
    fired "api" (observe_all (new both_rules) storm).1 + delivered (new both_rules) "api"
    ≡ settled "api" (observe_all (new both_rules) storm).1
      + delivered (observe_all (new both_rules) storm).0 "api"
observe_all-balance_example =
    observe_all-balance storm (new both_rules) "api" new-IsNamed storm-AreTurns

-- The API is suppressed behind the database, and the rules are read again.
abbrev outage_reloaded : List Event
outage_reloaded =
    observed "db" (down db 40) ∷ observed "api" (down api 45) ∷ reloaded both_rules ∷ []

run-new-IsKept_example :
    IsKept (has_reload false outage_reloaded) (run (new both_rules) outage_reloaded)
run-new-IsKept_example = run-new-IsKept both_rules outage_reloaded

-- The database and its replica go down, and the API behind the database; then the rule of the database
-- is deleted. The API stays suppressed, since the rule of the replica survives.
abbrev replica : Rule
replica = record db { name = "replica" }

abbrev db_deleted : List Event
db_deleted =
    observed "db" (down db 40) ∷ observed "api" (down api 45) ∷ reloaded (replica ∷ api ∷ []) ∷ []

stays_suppressed :
    let r = run (new (db ∷ replica ∷ api ∷ [])) db_deleted in
    (get r.pending "api" ≡ some (firing_incident api 45))
    × (has_active_inhibitor_of r "api" ≡ false)
unfolding run new insert get observe rebuild_from carryover contains_key has_active_inhibitor_of
stays_suppressed = (refl, refl)

-- The API is suppressed behind the database.
abbrev api_suppressed : InhibitionResolver
api_suppressed = record {
  inhibits = ("db", "api" ∷ []) ∷ ("api", []) ∷ [];
  firing = ("db", true) ∷ ("api", true) ∷ [];
  pending = ("api", firing_incident api 45) ∷ [];
}

-- The rule of the database is deleted.
abbrev api_only : List Rule
api_only = api ∷ []

reload_orphans_example :
    let r' = rebuild_from api_only (carryover api_suppressed) in
    (get r'.pending "api" ≡ none)
    × (get r'.firing "api" ≡ some true)
    × ((more : List Emission) × ((observe r' "api" (up api 45 95)).1
          ≡ Emission.resolved (resolved_incident api 45 95) ∷ more))
reload_orphans_example =
    reload_orphans api_suppressed api_only "api" (firing_incident api 45)
      (resolved_incident api 45 95) (unfold contains_key in (refl, (refl, tt))) (unfold get in refl)
      (unfold get in refl) api_survives no_inhibitor
  where
    api_survives : contains_key (new api_only).firing "api" ≡ true
    api_survives = unfold new in unfold insert in unfold contains_key in refl

    no_inhibitor : has_surviving_inhibitor_of (new api_only) "api" ≡ false
    no_inhibitor = unfold new in unfold insert in unfold has_surviving_inhibitor_of in refl
