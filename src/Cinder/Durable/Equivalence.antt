-- ===== src/Cinder/Durable/Equivalence.antt =====
-- crates/cinder/src/file_backed.rs against store.rs: a durable evaluation that returns a count has done
-- what the in-memory one does.
use kaleidoscope.Prelude.{
  ℕ, ◌+◌, ◌≡◌, refl, ap, ◌∙◌, true, Option, none, some, List, [], ◌∷◌, Result, ok, err, arith, All,
  length, pair_key, string_key,
}
use kaleidoscope.Prelude.Map.{get, contains_key, insert, contains_key-insert, contains_key-get}
use kaleidoscope.WalRecovery.Json.{JsonLines}
use kaleidoscope.Storage.Log.{Outcome, LogFile, Appended}
use kaleidoscope.Cinder.Types.{
  SystemTime, Tier, ItemKey, TierEntry, Entries, TierPolicy, MigrateError,
}
use kaleidoscope.Cinder.Sweep.{Moves, due, push_due, to_migrate, set_tier}
use kaleidoscope.Cinder.Memory.{InMemoryTieringStore}
use kaleidoscope.Cinder.Evaluate.{moved_to}
use kaleidoscope.Cinder.Durable.Records.{WalRecord, SnapshotCodec}
use kaleidoscope.Cinder.Durable.Store.{
  FileBackedTieringStore, Swept, moved, sweep_appended, sweep, evaluate_swept, evaluate_at,
}

-- Every key of the moves is present.
abbrev Present : Entries → Moves → Type 0
Present m = All (λ move. contains_key m move.0 ≡ true)

Present-more :
    (m : Entries) (key : ItemKey) (e : TierEntry) (ms : Moves)
    → Present m ms
    → Present (insert m key e) ms
Present-more m key e [] h = tt
Present-more m key e (move ∷ ms) h =
    (ground (arith, contains_key-insert m key e move.0), Present-more m key e ms h.1)

weaken :
    (key : ItemKey) (e : TierEntry) (m : Entries) (ms : Moves)
    → Present m ms
    → Present ((key, e) ∷ m) ms
unfolding contains_key
weaken key e m [] h = tt
weaken key e m (move ∷ ms) h = (ground (arith, h.0), weaken key e m ms h.1)

push_due-Present :
    (key : ItemKey) (e : TierEntry) (m : Entries) (d : Option Tier) (ms : Moves)
    → Present ((key, e) ∷ m) ms
    → Present ((key, e) ∷ m) (push_due key e.tier d ms)
unfolding push_due contains_key
push_due-Present key e m none ms h = h
push_due-Present key e m (some to) ms h = (ground (arith, pair_key.same_iff key key), h)

to_migrate-Present :
    (now : SystemTime) (policy : TierPolicy) (m : Entries) → Present m (to_migrate now policy m)
unfolding to_migrate
to_migrate-Present now policy [] = tt
to_migrate-Present now policy ((key, e) ∷ m) =
    push_due-Present key e m (due now policy e) (to_migrate now policy m)
      (weaken key e m (to_migrate now policy m) (to_migrate-Present now policy m))

module _ (json : JsonLines WalRecord) (snapshot_json : SnapshotCodec) where
  abbrev Cinder : Type 0
  Cinder = FileBackedTieringStore json snapshot_json

  abbrev Sweeping : Type 0
  Sweeping = Swept json snapshot_json

  -- The part of the store that is not files.
  abbrev pub memory_of : Cinder → InMemoryTieringStore
  memory_of q = record { entries = q.entries; events = q.events }

  abbrev swept_of : Sweeping → kaleidoscope.Cinder.Memory.Swept
  swept_of s = record { store = memory_of s.store; per_tenant = s.per_tenant }

  abbrev Succeeds : Sweeping × Result (Unit {0}) MigrateError → Type 0
  Succeeds out = out.1 ≡ ok tt

  -- A sweep that goes through: the same store in memory, and a count of all moves.
  record Agrees (now : SystemTime) (ms : Moves) (s : Sweeping)
      (out : Sweeping × Result (Unit {0}) MigrateError) : Type 0 where
    agrees : swept_of out.0 ≡ kaleidoscope.Cinder.Memory.sweep now ms (swept_of s)
    counted : out.0.count ≡ s.count + length ms

  moved-memory :
      (now : SystemTime) (key : ItemKey) (from to : Tier) (s : Sweeping) (wal : LogFile)
      (entry : Option TierEntry)
      → get s.store.entries key ≡ entry
      → contains_key s.store.entries key ≡ true
      → swept_of (moved json snapshot_json now key from to s wal)
        ≡ kaleidoscope.Cinder.Memory.move_found now key from to (swept_of s) entry
  unfolding moved set_tier kaleidoscope.Cinder.Memory.move_found
  moved-memory now key from to s wal none e present =
      absurd (ground (arith, contains_key-get s.store.entries key))
  moved-memory now key from to s wal (some entry) e present = rw e refl

  moved-Present :
      (now : SystemTime) (key : ItemKey) (from to : Tier) (s : Sweeping) (wal : LogFile)
      (ms : Moves) (entry : Option TierEntry)
      → Present s.store.entries ms
      → Present (set_tier s.store.entries key to now entry) ms
  unfolding set_tier
  moved-Present now key from to s wal ms none h = h
  moved-Present now key from to s wal ms (some entry) h =
      Present-more s.store.entries key (moved_to to now entry) ms h

  step :
      (continue : Sweeping → Sweeping × Result (Unit {0}) MigrateError) (now : SystemTime)
      (key : ItemKey) (from to : Tier) (ms : Moves) (s : Sweeping) (a : Appended)
      → Present s.store.entries ((key, (from, to)) ∷ ms)
      → ((s' : Sweeping)
          → Present s'.store.entries ms
          → Succeeds (continue s')
          → Agrees now ms s' (continue s'))
      → Succeeds (sweep_appended json snapshot_json continue now key from to s a)
      → Agrees now
          ((key, (from, to)) ∷ ms)
          s
          (sweep_appended json snapshot_json continue now key from to s a)
  unfolding sweep_appended kaleidoscope.Cinder.Memory.sweep
  step continue now key from to ms s (wal, err e) present ih success = cc
  step continue now key from to ms s (wal, ok u) present ih success =
      let s' = moved json snapshot_json now key from to s wal in
      let rest =
        ih s'
          (unfold moved in
            moved-Present now key from to s wal ms (get s.store.entries key) present.1)
          success in
      record {
        agrees =
            rest.agrees
            ∙ ap (kaleidoscope.Cinder.Memory.sweep now ms)
                (moved-memory now key from to s wal (get s.store.entries key) refl present.0);
        counted = unfold moved in omega (arith, rest.counted);
      }

  sweep-Agrees :
      (os : List Outcome) (now : SystemTime) (ms : Moves) (s : Sweeping)
      → Present s.store.entries ms
      → Succeeds (sweep json snapshot_json os now ms s)
      → Agrees now ms s (sweep json snapshot_json os now ms s)
  unfolding sweep
  sweep-Agrees os now [] s present success = record {
    agrees = unfold kaleidoscope.Cinder.Memory.sweep in refl;
    counted = omega arith;
  }
  sweep-Agrees [] now ((key, (from, to)) ∷ ms) s present success =
      step (sweep json snapshot_json [] now ms) now key from to ms s _ present
        (λ s' p h. sweep-Agrees [] now ms s' p h) success
  sweep-Agrees (o ∷ os) now ((key, (from, to)) ∷ ms) s present success =
      step (sweep json snapshot_json os now ms) now key from to ms s _ present
        (λ s' p h. sweep-Agrees os now ms s' p h) success

  finish :
      (now : SystemTime) (policy : TierPolicy) (q : Cinder)
      (out : Sweeping × Result (Unit {0}) MigrateError) (n : ℕ)
      → (Succeeds out
          → Agrees now
              (to_migrate now policy q.entries)
              (record { store = q; count = 0; per_tenant = [] })
              out)
      → (evaluate_swept json snapshot_json out).1 ≡ ok n
      → kaleidoscope.Cinder.Memory.evaluate_at (memory_of q) now policy
        ≡ (memory_of (evaluate_swept json snapshot_json out).0, ok n)
  unfolding evaluate_swept kaleidoscope.Cinder.Memory.evaluate_at
  finish now policy q (s, err e) n agree h = cc
  finish now policy q (s, ok u) n agree h =
      let a = agree refl in
      let count : s.count ≡ n = cc h in
      let counted : length (to_migrate now policy q.entries) ≡ n =
        omega (arith, a.counted, count) in
      cc (a.agrees, counted)

  -- Whatever the outcomes of its appends: a durable evaluation that returns a count has the entries, the
  -- recorded events and the count of the in-memory evaluation of the same entries and events.
  pub evaluate_at-refines :
      (os : List Outcome) (q : FileBackedTieringStore json snapshot_json) (now : SystemTime)
      (policy : TierPolicy) (n : ℕ)
      → (evaluate_at json snapshot_json os q now policy).1 ≡ ok n
      → kaleidoscope.Cinder.Memory.evaluate_at (memory_of q) now policy
        ≡ (memory_of (evaluate_at json snapshot_json os q now policy).0, ok n)
  unfolding evaluate_at
  evaluate_at-refines os q now policy n h =
      finish now policy q _ n
        (λ success.
          sweep-Agrees os now (to_migrate now policy q.entries) _
            (to_migrate-Present now policy q.entries) success)
        h
