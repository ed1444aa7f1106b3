-- ===== src/Beacon/States/Saved.antt =====
-- crates/beacon/src/state_store.rs: the files of a store lead to its states, after every clean call.
use kaleidoscope.Prelude.{
  ◌≡◌, refl, sym, ap, ◌∙◌, subst, String, Option, some, List, [], ◌∷◌, ◌++◌, Result, ok, err, ◌⊎◌,
  inl, inr, string_key, ◌==◌, if◌then◌else◌, Bool-cases,
}
use kaleidoscope.Prelude.Map.{get, get-insert}
use mathlib.Core.List.{append-nil}
use kaleidoscope.WalRecovery.Lines.{terminated}
use kaleidoscope.WalRecovery.Json.{JsonLines}
use kaleidoscope.Storage.Log.{Outcome, flushed}
use kaleidoscope.Storage.Replayed.{IsClean, fold, fold-append, Logged, append_clean}
use kaleidoscope.Beacon.StateMachine.{RuleState}
use kaleidoscope.Beacon.States.Records.{
  States, WalRecord, Snapshot, SnapshotCodec, apply_put, SnapshotOutcome, stored, not_flushed,
  not_written, not_truncated,
}
use kaleidoscope.Beacon.States.Store.{
  FileBackedRuleStateStore, put_appended, put, load_parsed, read_snapshot, store_snapshot, snapshot,
}

-- The records of a log on the state of one rule.
abbrev effect : String → WalRecord → Option RuleState → Option RuleState
effect n (WalRecord.put name state) o = if name == n then some state else o

unfoldable effects : String → List WalRecord → Option RuleState → Option RuleState
effects n [] o = o
effects n (r ∷ rs) o = effects n rs (effect n r o)

get-apply_put :
    (m : States) (r : WalRecord) (n : String) → get (apply_put m r) n ≡ effect n r (get m n)
unfolding apply_put
get-apply_put m (WalRecord.put name state) n = get-insert m name state n

get-fold :
    (rs : List WalRecord) (m : States) (n : String)
    → get (fold apply_put m rs) n ≡ effects n rs (get m n)
unfolding fold effects
get-fold [] m n = refl
get-fold (r ∷ rs) m n = get-fold rs (apply_put m r) n ∙ ap (effects n rs) (get-apply_put m r n)

-- The last record of a rule decides its state, whatever it was.
effects_decide :
    (n : String) (rs : List WalRecord)
    → ((o : Option RuleState) → effects n rs o ≡ o)
      ⊎ ((state : RuleState) × ((o : Option RuleState) → effects n rs o ≡ some state))
unfolding effects
effects_decide n [] = inl (λ o. refl)
effects_decide n (WalRecord.put name state ∷ rs) = elim (effects_decide n rs) [
  | inr (last, same) ↦ inr (last, λ o. same (effect n (WalRecord.put name state) o))
  | inl same ↦ elim (Bool-cases (name == n)) [
    | inl e ↦ inr (state, λ o. same (effect n (WalRecord.put name state) o) ∙ rw e refl)
    | inr e ↦ inl (λ o. same (effect n (WalRecord.put name state) o) ∙ rw e refl)
  ]
]

effects_again :
    (n : String) (rs : List WalRecord) (o : Option RuleState)
    → effects n rs (effects n rs o) ≡ effects n rs o
effects_again n rs o = elim (effects_decide n rs) [
  | inl same ↦ same (effects n rs o)
  | inr (last, same) ↦ same (effects n rs o) ∙ sym (same o)
]

module _ (json : JsonLines WalRecord) (snapshot_json : SnapshotCodec) where
  abbrev Store : Type 0
  Store = FileBackedRuleStateStore json snapshot_json

  -- The snapshot loads, the log is the lines of some records, and both lead to the states in memory.
  pub record Saved (q : Store) : Type 0 where
    pub loaded : States
    pub loads : read_snapshot json snapshot_json q.snapshot_file ≡ ok loaded
    pub records : List WalRecord
    pub logged : Logged json q.wal records
    pub same : (n : String) → get (fold apply_put loaded records) n ≡ get q.rules n

  pub put-Saved :
      (o : Outcome) (q : Store) (name : String) (state : RuleState)
      → IsClean o
      → Saved q
      → Saved (put json snapshot_json o q name state).0
  unfolding put put_appended apply_put
  put-Saved o q name state clean d =
      let r = WalRecord.put name state in
      elim (append_clean json o q.wal d.records r clean d.logged) [
        | inl (e, fails) ↦
            subst (λ a. Saved (put_appended json snapshot_json q name state a).0) (sym fails) d
        | inr (wal, works, logged) ↦
            subst (λ a. Saved (put_appended json snapshot_json q name state a).0) (sym works)
              (record {
                loaded = d.loaded;
                loads = d.loads;
                records = d.records ++ r ∷ [];
                logged = logged;
                same = λ n.
                    ap (λ m. get m n) (fold-append apply_put d.loaded d.records r)
                    ∙ get-apply_put (fold apply_put d.loaded d.records) r n
                    ∙ ap (effect n r) (d.same n)
                    ∙ sym (get-apply_put q.rules r n);
              })
      ]

  flushed-Logged : (q : Store) (d : Saved q) → Logged json (flushed q.wal) d.records
  unfolding flushed
  flushed-Logged q d = record {
    lines = d.logged.lines;
    written = d.logged.written;
    file = ap (λ b. q.wal.bytes ++ b) d.logged.flushed_all ∙ append-nil q.wal.bytes ∙ d.logged.file;
    flushed_all = refl;
  }

  flushed-Saved : (q : Store) → Saved q → Saved (record q { wal = flushed q.wal })
  flushed-Saved q d = record {
    loaded = d.loaded;
    loads = d.loads;
    records = d.records;
    logged = flushed-Logged q d;
    same = d.same;
  }

  replayed_again :
      (q : Store) (d : Saved q) (m : States) (n : String)
      → get m n ≡ get q.rules n
      → get (fold apply_put m d.records) n ≡ get q.rules n
  replayed_again q d m n e =
      let led : effects n d.records (get d.loaded n) ≡ get q.rules n =
        sym (get-fold d.records d.loaded n) ∙ d.same n in
      get-fold d.records m n
      ∙ ap (effects n d.records) (e ∙ sym led)
      ∙ effects_again n d.records (get d.loaded n)
      ∙ led

  read_back :
      (file : snapshot_json.File) (s : Snapshot)
      → snapshot_json.from_reader file ≡ ok s
      → read_snapshot json snapshot_json (some file) ≡ ok s.rules
  unfolding read_snapshot load_parsed
  read_back file s e = rw e refl

  store_snapshot-Saved :
      (o : SnapshotOutcome) (q : Store) (text : Result snapshot_json.File String)
      → snapshot_json.to_writer (record { rules = q.rules }) ≡ text
      → Saved q
      → Saved (store_snapshot json snapshot_json o q text).0
  unfolding store_snapshot fold terminated
  store_snapshot-Saved (not_flushed e) q text t d = d
  store_snapshot-Saved stored q (err e) t d = flushed-Saved q d
  store_snapshot-Saved stored q (ok file) t d =
      let (s, reads, same) = snapshot_json.round_trip (record { rules = q.rules }) file t in
      record {
        loaded = s.rules;
        loads = read_back file s reads;
        records = [];
        logged = record { lines = []; written = tt; file = refl; flushed_all = refl };
        same = same;
      }
  store_snapshot-Saved (not_written e) q text t d = flushed-Saved q d
  store_snapshot-Saved (not_truncated e) q (err e') t d = flushed-Saved q d
  store_snapshot-Saved (not_truncated e) q (ok file) t d =
      let (s, reads, same) = snapshot_json.round_trip (record { rules = q.rules }) file t in
      record {
        loaded = s.rules;
        loads = read_back file s reads;
        records = d.records;
        logged = flushed-Logged q d;
        same = λ n. replayed_again q d s.rules n (same n);
      }

  pub snapshot-Saved :
      (o : SnapshotOutcome) (q : Store) → Saved q → Saved (snapshot json snapshot_json o q).0
  unfolding snapshot
  snapshot-Saved o q d = store_snapshot-Saved o q _ refl d
