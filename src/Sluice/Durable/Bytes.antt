-- ===== src/Sluice/Durable/Bytes.antt =====
-- The states of crates/sluice/src/file_backed.rs hold payloads of bytes, after every call.
use kaleidoscope.Prelude.{
  ◌≡◌, subst, some, List, [], ◌∷◌, ◌++◌, arith, All, All-append, Bool-cases, inl, inr, nat_key,
  string_key, ◌==◌,
}
use kaleidoscope.Prelude.Map.{get, get-insert, get-remove}
use kaleidoscope.Sluice.Types.{TenantId, MessageId, Message, InnerState, queue_of}
use kaleidoscope.Sluice.Queues.{queue_of-insert, queue_of-put_rest}
use kaleidoscope.Sluice.Spec.{at_tenant}
use kaleidoscope.Sluice.Invariant.{touched, accept, take, drop, give}
use kaleidoscope.Sluice.Durable.Snapshot.{HasBytes, OfBytes}

at_tenant-All :
    (f : TenantId → List Message) (t : TenantId) (queue : List Message) (j : TenantId)
    → All OfBytes (f j)
    → All OfBytes queue
    → All OfBytes (at_tenant f t queue j)
at_tenant-All f t queue j old new = elim (Bool-cases (t == j)) [
  | inl same ↦ rw same new
  | inr other ↦ rw other old
]

module _ (s : InnerState) (b : HasBytes s) where
  pub touched-HasBytes : (t : TenantId) → HasBytes (touched s t)
  touched-HasBytes t = record {
    pending = λ j.
        rw (queue_of-insert s.pending t (queue_of s.pending t) j) (
          at_tenant-All (queue_of s.pending) t (queue_of s.pending t) j (b.pending j)
            (b.pending t));
    in_flight = b.in_flight;
  }

  pub accept-HasBytes : (t : TenantId) (m : Message) → OfBytes m → HasBytes (accept s t m)
  accept-HasBytes t m h = record {
    pending = λ j. rw (queue_of-insert (touched s t).pending t (queue_of s.pending t ++ m ∷ []) j) (
        at_tenant-All (queue_of (touched s t).pending) t (queue_of s.pending t ++ m ∷ []) j
          ((touched-HasBytes t).pending j)
          (All-append OfBytes (queue_of s.pending t) (m ∷ []) (b.pending t) (h, tt)));
    in_flight = b.in_flight;
  }

  pub take-HasBytes :
      (t : TenantId) (m : Message) (rest : List Message)
      → queue_of s.pending t ≡ m ∷ rest
      → HasBytes (take s t m rest)
  take-HasBytes t m rest front =
      let old : All OfBytes (m ∷ rest) = subst (λ c. All OfBytes c) front (b.pending t) in
      record {
        pending = λ j.
            rw (queue_of-put_rest s.pending t rest j)
              (at_tenant-All (queue_of s.pending) t rest j (b.pending j) old.1);
        in_flight = λ i n h. elim (Bool-cases (m.id == i)) [
          | inl same ↦
              let e : m ≡ n = ground (arith, h, same, get-insert s.in_flight m.id m i) in
              subst OfBytes e old.0
          | inr other ↦ b.in_flight i n (ground (arith, h, other, get-insert s.in_flight m.id m i))
        ];
      }

  pub drop-HasBytes : (id : MessageId) → HasBytes (drop s id)
  drop-HasBytes id = record {
    pending = b.pending;
    in_flight = λ i n h. b.in_flight i n (ground (arith, h, get-remove s.in_flight id i));
  }

  pub give-HasBytes :
      (id : MessageId) (m : Message) → get s.in_flight id ≡ some m → HasBytes (give s id m)
  give-HasBytes id m found = record {
    pending = λ j. rw (queue_of-insert s.pending m.tenant (m ∷ queue_of s.pending m.tenant) j) (
        at_tenant-All (queue_of s.pending) m.tenant (m ∷ queue_of s.pending m.tenant) j
          (b.pending j) (b.in_flight id m found, b.pending m.tenant));
    in_flight = λ i n h. b.in_flight i n (ground (arith, h, get-remove s.in_flight id i));
  }
