-- ===== src/QueryHttp/TimeRange.antt =====
-- crates/query-http-common/src/lib.rs: `parse_time_range`. The parsers of an `f64` and of RFC 3339 are
-- parameters, in a record. A bound's text is the list of its characters.
use kaleidoscope.Prelude.{
  ℕ, ◌^◌, ◌≤◌, ◌<◌, ◌≡◌, refl, ap, String, Bool, Bool-cases, ◌&&◌, Option, none, some, trim, Result,
  ok, err, ◌>>=◌, succeeds_first, ok-injective, ltb, if◌then◌else◌, arith, inl, inr,
}
use kaleidoscope.Aegis.Validator.{ℤ, pos, negsuc}
use kaleidoscope.QueryHttp.Responses.{reason_invalid_time_range}
use kaleidoscope.QueryHttp.Bearer.{Header, blank}

-- `str::parse::<f64>`, what the code reads of a float, and `OffsetDateTime::parse` with `unix_timestamp`. `as
-- u64` saturates, so its value is a `u64`.
pub record Numbers : Type 1 where
  pub Float : Type 0
  pub parse_float : Header → Option Float
  pub is_finite : Float → Bool
  pub ge_zero : Float → Bool
  pub as_u64 : Float → ℕ
  pub as_u64_lt : (x : Float) → as_u64 x < 2 ^ 64
  pub parse_rfc3339 : Header → Option ℤ
  pub rfc3339_lt :
      (text : Header) (seconds : ℕ) → parse_rfc3339 text ≡ some (pos seconds) → seconds < 2 ^ 63

pub record TimeRange : Type 0 where
  pub start_secs : ℕ
  pub end_secs : ℕ

pub data EpochField : Type 0 where
  start : EpochField
  stop : EpochField

unfoldable pub unparseable_reason : EpochField → String
unparseable_reason start =
    "invalid time bounds: start must be RFC3339 (e.g. 2026-06-14T17:00:00Z) or unix seconds"
unparseable_reason stop =
    "invalid time bounds: end must be RFC3339 (e.g. 2026-06-14T17:00:00Z) or unix seconds"

module _ (numbers : Numbers) where
  open numbers use {
    Float, parse_float, is_finite, ge_zero, as_u64, as_u64_lt, parse_rfc3339, rfc3339_lt,
  }

  unfoldable pub of_moment : Option ℤ → EpochField → Result ℕ String
  of_moment (some (pos seconds)) field = ok seconds
  of_moment (some (negsuc n)) field = err (unparseable_reason field)
  of_moment none field = err (unparseable_reason field)

  unfoldable pub of_number : Option Float → Header → EpochField → Result ℕ String
  unfolding of_moment
  of_number (some parsed) trimmed field =
      if is_finite parsed && ge_zero parsed
      then ok (as_u64 parsed)
      else err (unparseable_reason field)
  of_number none trimmed field = of_moment (parse_rfc3339 trimmed) field

  unfoldable pub parse_epoch_seconds : Header → EpochField → Result ℕ String
  unfolding of_number trim
  parse_epoch_seconds raw field = of_number (parse_float (trim blank raw)) (trim blank raw) field

  unfoldable pub in_order : ℕ → ℕ → Result TimeRange String
  in_order start_secs end_secs =
      if ltb end_secs start_secs
      then err reason_invalid_time_range
      else ok (record { start_secs = start_secs; end_secs = end_secs })

  unfoldable pub parse_time_range : Header → Header → Result TimeRange String
  unfolding parse_epoch_seconds in_order
  parse_time_range from to = do
    start_secs ← parse_epoch_seconds from start
    end_secs ← parse_epoch_seconds to stop
    in_order start_secs end_secs

  of_number-lt :
      (o : Option Float) (trimmed : Header) (field : EpochField) (n : ℕ)
      → of_number o trimmed field ≡ ok n
      → n < 2 ^ 64
  unfolding of_number
  of_number-lt (some parsed) trimmed field n h =
      elim (Bool-cases (is_finite parsed && ge_zero parsed)) [
        | inl e ↦
            let same : as_u64 parsed ≡ n = ok-injective (rw e at h) in
            omega (arith, as_u64_lt parsed)
        | inr e ↦ cc (rw e at h)
      ]
  of_number-lt none trimmed field n h = moment-lt (parse_rfc3339 trimmed) refl h
    where
      moment-lt : (o : Option ℤ) → parse_rfc3339 trimmed ≡ o → of_moment o field ≡ ok n → n < 2 ^ 64
      moment-lt none e h = cc
      moment-lt (some (negsuc k)) e h = cc
      moment-lt (some (pos k)) e h =
          let same : k ≡ n = ok-injective h in omega (arith, rfc3339_lt trimmed k e)

  -- The bounds of a range that is given.
  pub parse_time_range-bounds :
      (from to : Header) (r : TimeRange)
      → parse_time_range from to ≡ ok r
      → (r.start_secs ≤ r.end_secs) × (r.end_secs < 2 ^ 64)
  unfolding parse_time_range
  parse_time_range-bounds from to r h =
      let (a, first, h1) = succeeds_first (parse_epoch_seconds from start) h in
      let (b, second, h2) = succeeds_first (parse_epoch_seconds to stop) h1 in
      elim (Bool-cases (ltb b a)) [
        | inl e ↦ cc (rw e at h2)
        | inr e ↦
            let same : record { start_secs = a; end_secs = b } ≡ r = ok-injective (rw e at h2) in
            let starts : a ≡ r.start_secs = ap (λ t. t.start_secs) same in
            let ends : b ≡ r.end_secs = ap (λ t. t.end_secs) same in
            (
              ground (arith),
              omega
                  (arith, of_number-lt (parse_float (trim blank to)) (trim blank to) stop b second),
            )
      ]
