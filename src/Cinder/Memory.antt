-- ===== src/Cinder/Memory.antt =====
-- `InMemoryTieringStore` of crates/cinder/src/store.rs. Every call returns the store and its result.
use kaleidoscope.Prelude.{
  ℕ, Option, none, some, List, [], ◌∷◌, ◌++◌, Result, ok, err, length, ◌==◌, ◌&&◌, if◌then◌else◌,
  pair_key, string_key,
}
use kaleidoscope.Prelude.Map.{Map, get, insert}
use kaleidoscope.Sluice.Types.{TenantId}
use kaleidoscope.Cinder.Types.{
  SystemTime, Tier, same_tier, ItemId, ItemKey, TierEntry, Entries, TierPolicy, MigrateError,
  unknown_item, RecordedEvent, placed, migrated,
}
use kaleidoscope.Cinder.Sweep.{Moves, to_migrate, count_one, evaluated_events}

pub record InMemoryTieringStore : Type 0 where
  pub entries : Entries
  pub events : List RecordedEvent

unfoldable pub new : InMemoryTieringStore
new = record { entries = []; events = [] }

unfoldable pub place :
    InMemoryTieringStore
    → TenantId
    → ItemId
    → Tier
    → SystemTime
    → InMemoryTieringStore × Result (Unit {0}) MigrateError
place q tenant item tier placed_at = (
  record {
    entries =
        insert q.entries (tenant, item)
          (record { tier = tier; placed_at = placed_at; migrated_at = placed_at });
    events = q.events ++ placed tenant tier ∷ [];
  },
  ok tt,
)

unfoldable pub get_entry : InMemoryTieringStore → TenantId → ItemId → Option TierEntry
get_entry q tenant item = get q.entries (tenant, item)

unfoldable pub get_tier : InMemoryTieringStore → TenantId → ItemId → Option Tier
get_tier q tenant item = elim (get q.entries (tenant, item)) [
  | none ↦ none
  | some entry ↦ some entry.tier
]

unfoldable pub migrate_found :
    InMemoryTieringStore
    → TenantId
    → ItemId
    → Tier
    → SystemTime
    → Option TierEntry
    → InMemoryTieringStore × Result (Unit {0}) MigrateError
migrate_found q tenant item to_tier migrated_at none = (q, err (unknown_item tenant item))
migrate_found q tenant item to_tier migrated_at (some entry) = (
  record {
    entries =
        insert q.entries (tenant, item)
          (record entry { tier = to_tier; migrated_at = migrated_at });
    events = q.events ++ migrated tenant entry.tier to_tier ∷ [];
  },
  ok tt,
)

unfoldable pub migrate :
    InMemoryTieringStore
    → TenantId
    → ItemId
    → Tier
    → SystemTime
    → InMemoryTieringStore × Result (Unit {0}) MigrateError
unfolding migrate_found
migrate q tenant item to_tier migrated_at =
    migrate_found q tenant item to_tier migrated_at (get q.entries (tenant, item))

-- The filter and the map over the entries.
unfoldable pub list_entries : TenantId → Tier → Entries → List ItemId
list_entries tenant tier [] = []
list_entries tenant tier (((t, id), e) ∷ entries) =
    let rest = list_entries tenant tier entries in
    if t == tenant && same_tier e.tier tier then id ∷ rest else rest

unfoldable pub list_by_tier : InMemoryTieringStore → TenantId → Tier → List ItemId
unfolding list_entries
list_by_tier q tenant tier = list_entries tenant tier q.entries

-- What the second loop of `evaluate_at` writes to.
pub record Swept : Type 0 where
  pub store : InMemoryTieringStore
  pub per_tenant : Map TenantId ℕ

unfoldable pub move_found : SystemTime → ItemKey → Tier → Tier → Swept → Option TierEntry → Swept
move_found now key from to s none = s
move_found now key from to s (some entry) = record {
  store = record {
    entries = insert s.store.entries key (record entry { tier = to; migrated_at = now });
    events = s.store.events ++ migrated key.0 from to ∷ [];
  };
  per_tenant = count_one s.per_tenant key.0;
}

unfoldable pub sweep : SystemTime → Moves → Swept → Swept
unfolding move_found
sweep now [] s = s
sweep now ((key, (from, to)) ∷ moves) s =
    sweep now moves (move_found now key from to s (get s.store.entries key))

unfoldable pub evaluate_at :
    InMemoryTieringStore → SystemTime → TierPolicy → InMemoryTieringStore × Result ℕ MigrateError
unfolding sweep to_migrate
evaluate_at q now policy =
    let moves = to_migrate now policy q.entries in
    let s = sweep now moves (record { store = q; per_tenant = [] }) in
    (
      record (s.store) { events = s.store.events ++ evaluated_events s.per_tenant },
      ok (length moves),
    )
