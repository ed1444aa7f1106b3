-- ===== src/Beacon/States/Examples.antt =====
-- A run of the state store of crates/beacon, and its recovery.
use kaleidoscope.Prelude.{
  ◌≡◌, refl, sym, String, Bool, true, false, Option, none, some, List, [], ◌∷◌, ◌++◌, Result, ok,
  arith, ◌==◌, string_key, eq_iff,
}
use kaleidoscope.Prelude.Map.{get}
use kaleidoscope.WalRecovery.Json.{JsonLines}
use kaleidoscope.WalRecovery.Switches.{print, two_records}
use kaleidoscope.Storage.Log.{Outcome}
use kaleidoscope.Beacon.StateMachine.{RuleState}
use kaleidoscope.Beacon.States.Records.{WalRecord, put, Snapshot, SnapshotCodec, SnapshotOutcome}
use kaleidoscope.Beacon.States.Store.{FileBackedRuleStateStore, open_files}
use kaleidoscope.Beacon.States.Recovery.{
  Call, put_call, snapshot_call, calls, new_store, states_recovered,
}

-- A serialiser that knows the inactive state of two rules.
abbrev encode_name : Bool → Bool → Option Bool
encode_name true second = some true
encode_name false true = some false
encode_name false false = none

abbrev encode : WalRecord → Option Bool
encode (put name RuleState.inactive) = encode_name (name == "db") (name == "api")
encode (put name (RuleState.pending since)) = none
encode (put name (RuleState.firing since)) = none

abbrev decode : Bool → WalRecord
decode true = put "db" RuleState.inactive
decode false = put "api" RuleState.inactive

decode-encode : (r : WalRecord) (b : Bool) → encode r ≡ some b → decode b ≡ r
decode-encode (put name RuleState.inactive) b h =
    ground (arith, eq_iff name "db", eq_iff name "api")
decode-encode (put name (RuleState.pending since)) b h = cc
decode-encode (put name (RuleState.firing since)) b h = cc

abbrev json : JsonLines WalRecord
json = two_records encode decode decode-encode

abbrev read_back : Snapshot → Result Snapshot String
read_back s = ok s

same_values :
    (s f : Snapshot)
    → read_back s ≡ ok f
    → (s' : Snapshot) × (read_back f ≡ ok s')
      × ((name : String) → get s'.rules name ≡ get s.rules name)
same_values s f h = (s, sym h, λ name. refl)

abbrev whole : SnapshotCodec
whole = record {
  File = Snapshot;
  to_writer = read_back;
  from_reader = read_back;
  round_trip = same_values;
}

abbrev history : List Call
history =
    put_call Outcome.done "db" RuleState.inactive
    ∷ snapshot_call (SnapshotOutcome.not_truncated "disk full")
    ∷ put_call Outcome.done "api" RuleState.inactive
    ∷ []

abbrev served : FileBackedRuleStateStore json whole
served = calls json whole (new_store json whole) history

states_recovered_example :
    (q' : FileBackedRuleStateStore json whole) × (open_files json whole served.snapshot_file
        (served.wal.bytes ++ 195 ∷ [])
      ≡ ok q')
    × ((n : String) → get q'.rules n ≡ get served.rules n)
states_recovered_example =
    states_recovered json whole history (put "db" RuleState.inactive) (195 ∷ 169 ∷ []) (195 ∷ [])
      169 [] (tt, (tt, (tt, tt))) (unfold print in refl) refl
