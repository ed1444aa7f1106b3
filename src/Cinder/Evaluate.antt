-- ===== src/Cinder/Evaluate.antt =====
-- `evaluate_at` of crates/cinder/src/store.rs against the policy in words: an item moves one tier
-- forward when its age has reached the threshold of its tier.
use kaleidoscope.Prelude.{
  ℕ, ◌+◌, ◌≡◌, refl, ap, ◌∙◌, Bool, false, Option, none, some, [], ◌∷◌, arith, leb, if◌then◌else◌,
  ok, length, pair_key, ◌==◌,
}
use kaleidoscope.Prelude.Map.{get, contains_key, IsUnique, sum_by, get-insert, get-none}
use kaleidoscope.Sluice.Types.{TenantId}
use kaleidoscope.Cinder.Types.{
  SystemTime, Duration, Tier, hot, warm, cold, next_forward, ItemId, ItemKey, TierEntry, Entries,
  TierPolicy, threshold_from, duration_since,
}
use kaleidoscope.Cinder.Sweep.{due_if, due, Moves, push_due, to_migrate}
use kaleidoscope.Cinder.Memory.{
  InMemoryTieringStore, get_entry, Swept, move_found, sweep, evaluate_at,
}

-- The age of an entry has reached a threshold.
abbrev pub aged : SystemTime → Duration → TierEntry → Bool
aged now threshold e = leb (e.migrated_at + threshold) now

abbrev pub moved_to : Tier → SystemTime → TierEntry → TierEntry
moved_to to now e = record e { tier = to; migrated_at = now }

abbrev pub forward_from : Tier → SystemTime → TierPolicy → TierEntry → TierEntry
forward_from hot now policy e = if aged now policy.hot_to_warm e then moved_to warm now e else e
forward_from warm now policy e = if aged now policy.warm_to_cold e then moved_to cold now e else e
forward_from cold now policy e = e

-- One entry after an evaluation.
abbrev pub forward : SystemTime → TierPolicy → TierEntry → TierEntry
forward now policy e = forward_from e.tier now policy e

abbrev pub moves_from : Tier → SystemTime → TierPolicy → TierEntry → ℕ
moves_from hot now policy e = if aged now policy.hot_to_warm e then 1 else 0
moves_from warm now policy e = if aged now policy.warm_to_cold e then 1 else 0
moves_from cold now policy e = 0

-- 1 if the entry moves, 0 if it stays.
abbrev pub moves : SystemTime → TierPolicy → TierEntry → ℕ
moves now policy e = moves_from e.tier now policy e

-- What the code finds due, in the words of the policy.
abbrev due_from : Tier → SystemTime → TierPolicy → TierEntry → Option Tier
due_from hot now policy e = if aged now policy.hot_to_warm e then some warm else none
due_from warm now policy e = if aged now policy.warm_to_cold e then some cold else none
due_from cold now policy e = none

due_at :
    (tier : Tier) (now : SystemTime) (policy : TierPolicy) (e : TierEntry)
    → due_if (threshold_from policy tier) (next_forward tier) (duration_since now e.migrated_at)
      ≡ due_from tier now policy e
unfolding due_if threshold_from next_forward duration_since
due_at hot now policy e = ground arith
due_at warm now policy e = ground arith
due_at cold now policy e = refl

due-aged :
    (now : SystemTime) (policy : TierPolicy) (e : TierEntry)
    → due now policy e ≡ due_from e.tier now policy e
unfolding due
due-aged now policy e = due_at e.tier now policy e

abbrev move_of : TierEntry → Option Tier → Option (Tier × Tier)
move_of e none = none
move_of e (some to) = some (e.tier, to)

abbrev found_move : SystemTime → TierPolicy → Option TierEntry → Option (Tier × Tier)
found_move now policy none = none
found_move now policy (some e) = move_of e (due now policy e)

contains_key-push_due :
    (key : ItemKey) (from : Tier) (d : Option Tier) (ms : Moves) (k : ItemKey)
    → (key == k) ≡ false
    → contains_key (push_due key from d ms) k ≡ contains_key ms k
unfolding push_due contains_key
contains_key-push_due key from none ms k ne = refl
contains_key-push_due key from (some to) ms k ne = rw ne refl

contains_key-to_migrate :
    (now : SystemTime) (policy : TierPolicy) (entries : Entries) (k : ItemKey)
    → contains_key entries k ≡ false
    → contains_key (to_migrate now policy entries) k ≡ false
unfolding to_migrate contains_key
contains_key-to_migrate now policy [] k h = refl
contains_key-to_migrate now policy ((key, e) ∷ entries) k h = ground (
  arith,
  contains_key-push_due key e.tier (due now policy e) (to_migrate now policy entries) k,
  contains_key-to_migrate now policy entries k,
)

push_due-IsUnique :
    (key : ItemKey) (from : Tier) (d : Option Tier) (ms : Moves)
    → contains_key ms key ≡ false
    → IsUnique ms
    → IsUnique (push_due key from d ms)
unfolding push_due
push_due-IsUnique key from none ms absent u = u
push_due-IsUnique key from (some to) ms absent u = (absent, u)

to_migrate-IsUnique :
    (now : SystemTime) (policy : TierPolicy) (entries : Entries)
    → IsUnique entries
    → IsUnique (to_migrate now policy entries)
unfolding to_migrate
to_migrate-IsUnique now policy [] u = tt
to_migrate-IsUnique now policy ((key, e) ∷ entries) u =
    push_due-IsUnique key e.tier (due now policy e) (to_migrate now policy entries)
      (contains_key-to_migrate now policy entries key u.0)
      (to_migrate-IsUnique now policy entries u.1)

get-push_due :
    (key : ItemKey) (e : TierEntry) (d : Option Tier) (ms : Moves) (k : ItemKey)
    → contains_key ms key ≡ false
    → get (push_due key e.tier d ms) k ≡ (if key == k then move_of e d else get ms k)
unfolding push_due get
get-push_due key e none ms k absent =
    ground (arith, get-none ms key absent, pair_key.same_iff key k)
get-push_due key e (some to) ms k absent = refl

get-to_migrate :
    (now : SystemTime) (policy : TierPolicy) (entries : Entries) (k : ItemKey)
    → IsUnique entries
    → get (to_migrate now policy entries) k ≡ found_move now policy (get entries k)
unfolding to_migrate get
get-to_migrate now policy [] k u = refl
get-to_migrate now policy ((key, e) ∷ entries) k u = ground (
  arith,
  get-push_due key e (due now policy e) (to_migrate now policy entries) k
      (contains_key-to_migrate now policy entries key u.0),
  get-to_migrate now policy entries k u.1,
)

abbrev after_move : SystemTime → Option (Tier × Tier) → Option TierEntry → Option TierEntry
after_move now none entry = entry
after_move now (some (from, to)) none = none
after_move now (some (from, to)) (some e) = some (moved_to to now e)

get-move_found :
    (now : SystemTime) (key : ItemKey) (from to : Tier) (s : Swept) (entry : Option TierEntry)
    (k : ItemKey)
    → get s.store.entries key ≡ entry
    → get (move_found now key from to s entry).store.entries k
      ≡ (if key == k then after_move now (some (from, to)) entry else get s.store.entries k)
unfolding move_found
get-move_found now key from to s none k h = ground (arith, pair_key.same_iff key k)
get-move_found now key from to s (some e) k h = get-insert s.store.entries key (moved_to to now e) k

get-sweep :
    (now : SystemTime) (ms : Moves) (s : Swept) (k : ItemKey)
    → IsUnique ms
    → get (sweep now ms s).store.entries k ≡ after_move now (get ms k) (get s.store.entries k)
unfolding sweep get
get-sweep now [] s k u = refl
get-sweep now ((key, (from, to)) ∷ ms) s k u =
    let entry = get s.store.entries key in
    ground (
      arith,
      get-sweep now ms (move_found now key from to s entry) k u.1,
      get-move_found now key from to s entry k refl,
      get-none ms key u.0,
      pair_key.same_iff key k,
    )

length-push_due :
    (key : ItemKey) (e : TierEntry) (now : SystemTime) (policy : TierPolicy) (tier : Tier)
    (ms : Moves)
    → length (push_due key e.tier (due_from tier now policy e) ms)
      ≡ moves_from tier now policy e + length ms
unfolding push_due
length-push_due key e now policy hot ms = ground arith
length-push_due key e now policy warm ms = ground arith
length-push_due key e now policy cold ms = omega arith

length-to_migrate :
    (now : SystemTime) (policy : TierPolicy) (entries : Entries)
    → length (to_migrate now policy entries) ≡ sum_by (moves now policy) entries
unfolding to_migrate sum_by
length-to_migrate now policy [] = refl
length-to_migrate now policy ((key, e) ∷ entries) =
    ap (λ d. length (push_due key e.tier d (to_migrate now policy entries))) (due-aged now policy e)
    ∙ length-push_due key e now policy e.tier (to_migrate now policy entries)
    ∙ ap (λ n. moves now policy e + n) (length-to_migrate now policy entries)

abbrev pub forwarded : SystemTime → TierPolicy → Option TierEntry → Option TierEntry
forwarded now policy none = none
forwarded now policy (some e) = some (forward now policy e)

moved_once :
    (now : SystemTime) (policy : TierPolicy) (tier : Tier) (e : TierEntry)
    → after_move now (move_of e (due_from tier now policy e)) (some e)
      ≡ some (forward_from tier now policy e)
moved_once now policy hot e = ground arith
moved_once now policy warm e = ground arith
moved_once now policy cold e = refl

found_forward :
    (now : SystemTime) (policy : TierPolicy) (entry : Option TierEntry)
    → after_move now (found_move now policy entry) entry ≡ forwarded now policy entry
found_forward now policy none = refl
found_forward now policy (some e) =
    ap (λ d. after_move now (move_of e d) (some e)) (due-aged now policy e)
    ∙ moved_once now policy e.tier e

-- On entries with each key once: after an evaluation every item has gone one tier forward, at the
-- time of the evaluation, if its age has reached the threshold of its tier, and is as it was
-- otherwise; and the result is the number of items that moved.
pub evaluate_at_lem :
    (q : InMemoryTieringStore) (now : SystemTime) (policy : TierPolicy)
    → IsUnique q.entries
    → ((tenant : TenantId) (item : ItemId)
        → get_entry (evaluate_at q now policy).0 tenant item
          ≡ forwarded now policy (get_entry q tenant item))
      × ((evaluate_at q now policy).1 ≡ ok (sum_by (moves now policy) q.entries))
unfolding evaluate_at get_entry
evaluate_at_lem q now policy u = (
  (λ tenant item.
      get-sweep now (to_migrate now policy q.entries) (record { store = q; per_tenant = [] })
        (tenant, item) (to_migrate-IsUnique now policy q.entries u)
      ∙ ap (λ m. after_move now m (get q.entries (tenant, item)))
          (get-to_migrate now policy q.entries (tenant, item) u)
      ∙ found_forward now policy (get q.entries (tenant, item))),
  ap ok (length-to_migrate now policy q.entries),
)
