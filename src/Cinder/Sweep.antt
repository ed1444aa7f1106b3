-- ===== src/Cinder/Sweep.antt =====
-- `evaluate_at` of crates/cinder/src/store.rs and file_backed.rs: the part that both stores share, the
-- scan for the items to migrate and the counts per tenant.
use kaleidoscope.Prelude.{
  ℕ, ◌+◌, Option, none, some, List, [], ◌∷◌, leb, if◌then◌else◌, map, pair_key, string_key,
}
use kaleidoscope.Prelude.Map.{Map, get, insert}
use kaleidoscope.Sluice.Types.{TenantId}
use kaleidoscope.Cinder.Types.{
  SystemTime, Duration, Tier, next_forward, ItemKey, TierEntry, Entries, TierPolicy, threshold_from,
  duration_since, RecordedEvent, evaluated,
}

-- The three tests of one entry, and the comparison of its age.
unfoldable pub due_if : Option Duration → Option Tier → Option Duration → Option Tier
due_if none next age = none
due_if (some threshold) none age = none
due_if (some threshold) (some next) none = none
due_if (some threshold) (some next) (some age) = if leb threshold age then some next else none

unfoldable pub due : SystemTime → TierPolicy → TierEntry → Option Tier
unfolding due_if
due now policy entry =
    due_if (threshold_from policy entry.tier) (next_forward entry.tier)
      (duration_since now entry.migrated_at)

-- The vector of keys, each with the tiers it moves from and to.
abbrev pub Moves : Type 0
Moves = Map ItemKey (Tier × Tier)

unfoldable pub push_due : ItemKey → Tier → Option Tier → Moves → Moves
push_due key from none moves = moves
push_due key from (some next) moves = (key, (from, next)) ∷ moves

unfoldable pub to_migrate : SystemTime → TierPolicy → Entries → Moves
unfolding push_due
to_migrate now policy [] = []
to_migrate now policy ((key, entry) ∷ entries) =
    push_due key entry.tier (due now policy entry) (to_migrate now policy entries)

-- `entry.tier = to; entry.migrated_at = now`, on a present key.
unfoldable pub set_tier : Entries → ItemKey → Tier → SystemTime → Option TierEntry → Entries
set_tier entries key to now none = entries
set_tier entries key to now (some entry) =
    insert entries key (record entry { tier = to; migrated_at = now })

-- `*per_tenant.entry(tenant).or_insert(0) += 1`
unfoldable pub count_one : Map TenantId ℕ → TenantId → Map TenantId ℕ
count_one per_tenant tenant =
    insert per_tenant tenant (elim (get per_tenant tenant) [ none ↦ 1 | some count ↦ count + 1 ])

unfoldable pub evaluated_events : Map TenantId ℕ → List RecordedEvent
evaluated_events = map (λ p. evaluated p.0 p.1)
