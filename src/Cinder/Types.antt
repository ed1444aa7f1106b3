-- ===== src/Cinder/Types.antt =====
-- crates/cinder/src/tier.rs, policy.rs, metrics.rs and the errors of store.rs. A `SystemTime` is a
-- number of nanoseconds since a fixed origin, a `Duration` a number of nanoseconds.
use kaleidoscope.Prelude.{
  ℕ, ◌-◌, String, Bool, true, false, Option, none, some, leb, if◌then◌else◌, pair_key,
}
use kaleidoscope.Prelude.Map.{Map}
use kaleidoscope.Sluice.Types.{TenantId}
use kaleidoscope.Storage.Log.{Reason}

abbrev pub SystemTime : Type 0
SystemTime = ℕ

abbrev pub Duration : Type 0
Duration = ℕ

pub data Tier : Type 0 where
  hot : Tier
  warm : Tier
  cold : Tier

unfoldable pub next_forward : Tier → Option Tier
next_forward hot = some warm
next_forward warm = some cold
next_forward cold = none

-- The derived `==`.
unfoldable pub same_tier : Tier → Tier → Bool
same_tier hot hot = true
same_tier warm warm = true
same_tier cold cold = true
same_tier a b = false

abbrev pub ItemId : Type 0
ItemId = String

abbrev pub ItemKey : Type 0
ItemKey = TenantId × ItemId

pub record TierEntry : Type 0 where
  pub tier : Tier
  pub placed_at : SystemTime
  pub migrated_at : SystemTime

abbrev pub Entries : Type 0
Entries = Map ItemKey TierEntry

pub record TierPolicy : Type 0 where
  pub hot_to_warm : Duration
  pub warm_to_cold : Duration

unfoldable pub age_based : Duration → Duration → TierPolicy
age_based hot_to_warm warm_to_cold = record {
  hot_to_warm = hot_to_warm;
  warm_to_cold = warm_to_cold;
}

unfoldable pub threshold_from : TierPolicy → Tier → Option Duration
threshold_from policy hot = some policy.hot_to_warm
threshold_from policy warm = some policy.warm_to_cold
threshold_from policy cold = none

-- `now.duration_since(earlier)`: an error when `earlier` is the later one.
unfoldable pub duration_since : SystemTime → SystemTime → Option Duration
duration_since now earlier = if leb earlier now then some (now - earlier) else none

pub data MigrateError : Type 0 where
  unknown_item : TenantId → ItemId → MigrateError
  persistence_failed : Reason → MigrateError

-- The calls of the recorder.
pub data RecordedEvent : Type 0 where
  placed : TenantId → Tier → RecordedEvent
  migrated : TenantId → Tier → Tier → RecordedEvent
  evaluated : TenantId → ℕ → RecordedEvent
