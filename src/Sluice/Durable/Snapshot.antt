-- ===== src/Sluice/Durable/Snapshot.antt =====
-- crates/sluice/src/file_backed.rs: what `snapshot` writes of a state and how `open` loads it.
use kaleidoscope.Prelude.{
  ◌≡◌, refl, sym, subst, some, List, [], ◌∷◌, Result, ok, ◌>>=◌, map, nat_key, string_key, All,
  arith,
}
use kaleidoscope.Prelude.Map.{
  Map, get, insert, insert_all, get-insert_all, insert_all-IsUnique, All-of_get,
}
use kaleidoscope.Sluice.Types.{TenantId, MessageId, Message, EnqueueError, InnerState, queue_of}
use kaleidoscope.Sluice.Hex.{encode_hex, decode_hex, IsBytes, decode_hex-encode_hex}
use kaleidoscope.Sluice.Invariant.{IsWellFormed}
use kaleidoscope.Sluice.Durable.Replay.{Recovers}
use kaleidoscope.Sluice.Durable.Log.{Snapshot, MessageSnapshot, TenantPending, Loaded}

unfoldable pub to_snapshot : Message → MessageSnapshot
to_snapshot m = record { id = m.id; tenant = m.tenant; payload_hex = encode_hex m.payload }

to_pending : TenantId × List Message → TenantPending
to_pending entry = record { tenant = entry.0; messages = map to_snapshot entry.1 }

-- The snapshot that is built of a state.
unfoldable pub snapshot_of : InnerState → Snapshot
unfolding to_snapshot to_pending
snapshot_of s = record {
  next_id = s.next_id;
  pending = map to_pending s.pending;
  in_flight = map (λ (p : MessageId × Message). to_snapshot p.1) s.in_flight;
}

load_message : MessageSnapshot → Result Message EnqueueError
load_message m = do
  payload ← decode_hex m.payload_hex
  ok (record { id = m.id; tenant = m.tenant; payload = payload })

load_messages : List MessageSnapshot → Result (List Message) EnqueueError
load_messages [] = ok []
load_messages (m ∷ ms) = do n ← load_message m; rest ← load_messages ms; ok (n ∷ rest)

load_pending :
    Map TenantId (List Message)
    → List TenantPending
    → Result (Map TenantId (List Message)) EnqueueError
load_pending acc [] = ok acc
load_pending acc (t ∷ ts) = do
  queue ← load_messages t.messages
  load_pending (insert acc t.tenant queue) ts

load_in_flight :
    Map MessageId Message → List MessageSnapshot → Result (Map MessageId Message) EnqueueError
load_in_flight acc [] = ok acc
load_in_flight acc (m ∷ ms) = do n ← load_message m; load_in_flight (insert acc m.id n) ms

unfoldable pub load_snapshot : Snapshot → Result Loaded EnqueueError
unfolding load_message load_messages load_pending load_in_flight
load_snapshot snap = do
  pending ← load_pending [] snap.pending
  in_flight ← load_in_flight [] snap.in_flight
  ok (record { next_id = snap.next_id; pending = pending; in_flight = in_flight })

-- Every payload that the state holds is a list of bytes.
abbrev pub OfBytes : Message → Type 0
OfBytes m = IsBytes m.payload

pub record HasBytes (s : InnerState) : Type 0 where
  pub pending : (t : TenantId) → All OfBytes (queue_of s.pending t)
  pub in_flight : (i : MessageId) (m : Message) → get s.in_flight i ≡ some m → OfBytes m

load_message-to_snapshot : (m : Message) → OfBytes m → load_message (to_snapshot m) ≡ ok m
unfolding load_message to_snapshot
load_message-to_snapshot m h = rw (decode_hex-encode_hex m.payload h)

load_messages-map :
    (ms : List Message) → All OfBytes ms → load_messages (map to_snapshot ms) ≡ ok ms
unfolding load_messages
load_messages-map [] h = refl
load_messages-map (m ∷ ms) h = rw (load_message-to_snapshot m h.0, load_messages-map ms h.1) refl

load_pending-map :
    (acc p : Map TenantId (List Message))
    → All (λ (entry : TenantId × List Message). All OfBytes entry.1) p
    → load_pending acc (map to_pending p) ≡ ok (insert_all acc p)
unfolding load_pending to_pending insert_all
load_pending-map acc [] h = refl
load_pending-map acc ((t, queue) ∷ p) h =
    rw (load_messages-map queue h.0) (load_pending-map (insert acc t queue) p h.1)

abbrev InFlightOk : MessageId → Message → Type 0
InFlightOk i m = (m.id ≡ i) × OfBytes m

load_in_flight-map :
    (acc f : Map MessageId Message)
    → All (λ (entry : MessageId × Message). InFlightOk entry.0 entry.1) f
    → load_in_flight acc (map (λ (p : MessageId × Message). to_snapshot p.1) f)
      ≡ ok (insert_all acc f)
unfolding load_in_flight insert_all to_snapshot
load_in_flight-map acc [] h = refl
load_in_flight-map acc ((i, m) ∷ f) h = rw (load_message-to_snapshot m h.0.1) (
    subst
      (λ k.
        load_in_flight (insert acc k m) (map (λ (p : MessageId × Message). to_snapshot p.1) f)
        ≡ ok (insert_all (insert acc i m) f))
      (sym h.0.0) (load_in_flight-map (insert acc i m) f h.1))

-- The maps that a snapshot of `s` loads.
abbrev pub reloaded : InnerState → Loaded
reloaded s = record {
  next_id = s.next_id;
  pending = insert_all [] s.pending;
  in_flight = insert_all [] s.in_flight;
}

unique_entry :
    (p : Map TenantId (List Message)) (t : TenantId) (queue : List Message)
    → get p t ≡ some queue
    → queue_of p t ≡ queue
unfolding queue_of
unique_entry p t queue h = rw h

-- A snapshot loads: decoding cannot fail on what was encoded.
pub load_snapshot-snapshot_of :
    (s : InnerState) → IsWellFormed s → HasBytes s → load_snapshot (snapshot_of s) ≡ ok (reloaded s)
unfolding load_snapshot snapshot_of
load_snapshot-snapshot_of s w b =
    rw
      (
        load_pending-map [] s.pending (
            All-of_get (λ t queue. All OfBytes queue) s.pending w.pending_unique
              λ t queue h.
                subst (λ c. All OfBytes c) (unique_entry s.pending t queue h) (b.pending t)),
        load_in_flight-map [] s.in_flight (
            All-of_get InFlightOk s.in_flight w.in_flight_unique
              λ i m h. (w.keyed i m h, b.in_flight i m h)),
      )
      refl

-- What is loaded is what was saved.
pub reloaded-Recovers : (s : InnerState) → IsWellFormed s → Recovers (reloaded s) s
reloaded-Recovers s w = record {
  unique = insert_all-IsUnique [] s.pending tt;
  next_id = omega arith;
  contents =
      λ t. unfold queue_of get in ground (arith, get-insert_all [] s.pending t w.pending_unique);
  in_flight = λ i. unfold get in ground (arith, get-insert_all [] s.in_flight i w.in_flight_unique);
}
