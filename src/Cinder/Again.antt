-- ===== src/Cinder/Again.antt =====
-- `evaluate_at` of crates/cinder/src/store.rs, called a second time at the same time.
use kaleidoscope.Prelude.{
  ◌<◌, ◌≡◌, refl, sym, ap, ◌∙◌, Option, none, some, [], ◌∷◌, arith, ok, pair_key,
}
use kaleidoscope.Prelude.Map.{get, IsUnique, insert-IsUnique, sum_by_zero}
use kaleidoscope.Sluice.Types.{TenantId}
use kaleidoscope.Cinder.Types.{
  SystemTime, Tier, hot, warm, cold, ItemId, ItemKey, TierEntry, TierPolicy,
}
use kaleidoscope.Cinder.Sweep.{Moves, to_migrate}
use kaleidoscope.Cinder.Memory.{
  InMemoryTieringStore, get_entry, Swept, move_found, sweep, evaluate_at,
}
use kaleidoscope.Cinder.Evaluate.{
  forward, forward_from, moves, moves_from, forwarded, evaluate_at_lem, moved_to,
}

move_found-IsUnique :
    (now : SystemTime) (key : ItemKey) (from to : Tier) (s : Swept) (entry : Option TierEntry)
    → IsUnique s.store.entries
    → IsUnique (move_found now key from to s entry).store.entries
unfolding move_found
move_found-IsUnique now key from to s none u = u
move_found-IsUnique now key from to s (some e) u =
    insert-IsUnique s.store.entries key (moved_to to now e) u

sweep-IsUnique :
    (now : SystemTime) (ms : Moves) (s : Swept)
    → IsUnique s.store.entries
    → IsUnique (sweep now ms s).store.entries
unfolding sweep
sweep-IsUnique now [] s u = u
sweep-IsUnique now ((key, (from, to)) ∷ ms) s u =
    sweep-IsUnique now ms (move_found now key from to s (get s.store.entries key))
      (move_found-IsUnique now key from to s (get s.store.entries key) u)

pub evaluate_at-IsUnique :
    (q : InMemoryTieringStore) (now : SystemTime) (policy : TierPolicy)
    → IsUnique q.entries
    → IsUnique (evaluate_at q now policy).0.entries
unfolding evaluate_at
evaluate_at-IsUnique q now policy u =
    sweep-IsUnique now (to_migrate now policy q.entries) (record { store = q; per_tenant = [] }) u

stays_from :
    (tier : Tier) (now : SystemTime) (policy : TierPolicy) (placed_at migrated_at : SystemTime)
    → 0 < policy.warm_to_cold
    → moves now policy (
        forward now policy
          (record { tier = tier; placed_at = placed_at; migrated_at = migrated_at }))
      ≡ 0
stays_from hot now policy placed_at migrated_at h = ground arith
stays_from warm now policy placed_at migrated_at h = ground arith
stays_from cold now policy placed_at migrated_at h = refl

same_from :
    (tier : Tier) (now : SystemTime) (policy : TierPolicy) (e : TierEntry)
    → moves_from tier now policy e ≡ 0
    → forward_from tier now policy e ≡ e
same_from hot now policy e h = ground arith
same_from warm now policy e h = ground arith
same_from cold now policy e h = refl

stays :
    (now : SystemTime) (policy : TierPolicy) (e : TierEntry)
    → 0 < policy.warm_to_cold
    → moves now policy (forward now policy e) ≡ 0
stays now policy e h = stays_from e.tier now policy e.placed_at e.migrated_at h

forwarded_twice :
    (now : SystemTime) (policy : TierPolicy) (o : Option TierEntry)
    → 0 < policy.warm_to_cold
    → forwarded now policy (forwarded now policy o) ≡ forwarded now policy o
forwarded_twice now policy none h = refl
forwarded_twice now policy (some e) h =
    ap some (
      same_from (forward now policy e).tier now policy (forward now policy e)
        (stays now policy e h))

stays_found :
    (now : SystemTime) (policy : TierPolicy) (o : Option TierEntry) (e : TierEntry)
    → 0 < policy.warm_to_cold
    → forwarded now policy o ≡ some e
    → moves now policy e ≡ 0
stays_found now policy none e h found = cc
stays_found now policy (some e') e h found =
    let same : forward now policy e' ≡ e = cc found in
    ap (moves now policy) (sym same) ∙ stays now policy e' h

-- On entries with each key once, and with a threshold from warm to cold that is not 0: a second
-- evaluation at the same time leaves every item as the first one did, and counts no item.
pub evaluate_at-again :
    (q : InMemoryTieringStore) (now : SystemTime) (policy : TierPolicy)
    → IsUnique q.entries
    → 0 < policy.warm_to_cold
    → let first = (evaluate_at q now policy).0 in
      ((tenant : TenantId) (item : ItemId)
        → get_entry (evaluate_at first now policy).0 tenant item ≡ get_entry first tenant item)
      × ((evaluate_at first now policy).1 ≡ ok 0)
unfolding get_entry
evaluate_at-again q now policy u h =
    let first = (evaluate_at q now policy).0 in
    let once = evaluate_at_lem q now policy u in
    let again = evaluate_at_lem first now policy (evaluate_at-IsUnique q now policy u) in
    (
      (λ tenant item.
          again.0 tenant item
          ∙ ap (forwarded now policy) (once.0 tenant item)
          ∙ forwarded_twice now policy (get_entry q tenant item) h
          ∙ sym (once.0 tenant item)),
      again.1
          ∙ ap ok (
              sum_by_zero (moves now policy) first.entries (evaluate_at-IsUnique q now policy u)
                (λ k e found.
                  stays_found now policy (get q.entries k) e h (sym (once.0 k.0 k.1) ∙ found))),
    )
