-- ===== src/Pulse/Samples.antt =====
-- Metrics of two services, for the examples of crates/pulse and crates/query-api. A value is a number.
use kaleidoscope.Prelude.{ℕ, ◌*◌, String, List, [], ◌∷◌, codes}
use kaleidoscope.Pulse.Types.{Metric, MetricPoint, MetricKind, TimeRange}

abbrev pub point_at : ℕ → MetricPoint ℕ
point_at seconds = record {
  time_unix_nano = seconds * 1000000000;
  start_time_unix_nano = 0;
  attributes = (codes "code", codes "500") ∷ [];
  value = 7;
}

abbrev pub requests_of : String → List (MetricPoint ℕ) → Metric ℕ
requests_of service points = record {
  name = codes "requests";
  description = [];
  unit = codes "1";
  kind = MetricKind.sum;
  points = points;
  resource_attributes = (codes "service.name", codes service) ∷ [];
}

abbrev pub checkout : Metric ℕ
checkout = requests_of "checkout" (point_at 20 ∷ point_at 10 ∷ [])

abbrev pub cart : Metric ℕ
cart = requests_of "cart" (point_at 15 ∷ [])

abbrev pub minute : TimeRange
minute = record { start_unix_nano = 0; end_unix_nano = 60000000000 }
