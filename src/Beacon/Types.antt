-- ===== src/Beacon/Types.antt =====
-- crates/beacon/src/types.rs. Times and durations are numbers of nanoseconds.
use kaleidoscope.Prelude.{ℕ, String, Option, none, some, List}
use kaleidoscope.Prelude.Map.{Map}

abbrev pub SystemTime : Type 0
SystemTime = ℕ

abbrev pub Duration : Type 0
Duration = ℕ

pub data Severity : Type 0 where
  info : Severity
  warning : Severity
  critical : Severity

pub record SinkConfig : Type 0 where
  pub kind : String
  pub url : Option String
  pub channel : Option String
  pub topic : Option String
  pub auth_token_env : Option String

pub record Rule : Type 0 where
  pub name : String
  pub query : String
  pub for_duration : Duration
  pub interval : Duration
  pub severity : Severity
  pub labels : Map String String
  pub sinks : List SinkConfig
  pub inhibits : List String

pub record Incident : Type 0 where
  pub name : String
  pub query : String
  pub severity : Severity
  pub labels : Map String String
  pub started_at : SystemTime
  pub resolved_at : Option SystemTime

unfoldable pub firing_incident : Rule → SystemTime → Incident
firing_incident rule started_at = record {
  name = rule.name;
  query = rule.query;
  severity = rule.severity;
  labels = rule.labels;
  started_at = started_at;
  resolved_at = none;
}

unfoldable pub resolved_incident : Rule → SystemTime → SystemTime → Incident
resolved_incident rule started_at resolved_at = record {
  name = rule.name;
  query = rule.query;
  severity = rule.severity;
  labels = rule.labels;
  started_at = started_at;
  resolved_at = some resolved_at;
}
