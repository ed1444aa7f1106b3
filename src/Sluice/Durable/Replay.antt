-- ===== src/Sluice/Durable/Replay.antt =====
-- What the replay of a record of crates/sluice/src/file_backed.rs does to the maps that it fills:
-- the same as the call that wrote the record.
use kaleidoscope.Prelude.{
  ℕ, ◌+◌, ◌<◌, ◌≤◌, ◌≡◌, ◌≢◌, refl, ap, ◌∙◌, none, some, List, [], ◌∷◌, ◌++◌, arith, false, inl,
  inr, Bool-cases, ok, nat_key, string_key, ◌==◌, eq_iff, nat_beq_iff, if◌then◌else◌,
}
use kaleidoscope.Prelude.Map.{
  Map, get, contains_key, insert, remove, IsUnique, sum_by, get-insert, get-remove, insert-IsUnique,
  remove-IsUnique, get-none,
}
use kaleidoscope.Sluice.Types.{
  TenantId, MessageId, Message, InnerState, queue_of, count_id, or_default,
}
use kaleidoscope.Sluice.Spec.{at_tenant}
use kaleidoscope.Sluice.Queues.{queue_of-insert, queue_of-put_rest}
use kaleidoscope.Sluice.Invariant.{IsWellFormed, touched, accept, take, drop, give}
use kaleidoscope.Sluice.Hex.{encode_hex, IsBytes, decode_hex-encode_hex}
use kaleidoscope.Sluice.Durable.Log.{WalRecord, Loaded, take_id, scan, prune, apply_record}

-- The maps hold what the state `s` holds. The counter may lag behind, by calls that failed.
pub record Recovers (l : Loaded) (s : InnerState) : Type 0 where
  pub unique : IsUnique l.pending
  pub next_id : l.next_id ≤ s.next_id
  pub contents : (t : TenantId) → queue_of l.pending t ≡ queue_of s.pending t
  pub in_flight : (i : MessageId) → get l.in_flight i ≡ get s.in_flight i

take_id-front : (m : Message) (rest : List Message) → take_id m.id (m ∷ rest) ≡ some (m, rest)
unfolding take_id
take_id-front m rest = ground (arith, nat_beq_iff m.id m.id)

take_id-absent :
    (id : MessageId) (queue : List Message) → count_id id queue ≡ 0 → take_id id queue ≡ none
unfolding take_id count_id
take_id-absent id [] h = refl
take_id-absent id (m ∷ ms) h = ground (arith, take_id-absent id ms)

queue_of-cons :
    (k : TenantId) (queue : List Message) (p : Map TenantId (List Message)) (t : TenantId)
    → queue_of ((k, queue) ∷ p) t ≡ (if k == t then queue else queue_of p t)
unfolding queue_of get
queue_of-cons k queue p t = ground arith

count_id-tail :
    (id : MessageId) (k : TenantId) (queue : List Message) (p : Map TenantId (List Message))
    → contains_key p k ≡ false
    → (u : TenantId) → count_id id (queue_of ((k, queue) ∷ p) u) ≡ 0
    → count_id id (queue_of p u) ≡ 0
unfolding queue_of count_id get
count_id-tail id k queue p absent u h = ground (arith, eq_iff k u, get-none p k absent)

-- The scan finds the one queue that has the message, at its front.
scan_lem :
    (p : Map TenantId (List Message)) (t : TenantId) (m : Message) (rest : List Message)
    → IsUnique p
    → queue_of p t ≡ m ∷ rest
    → ((u : TenantId) → u ≢ t → count_id m.id (queue_of p u) ≡ 0)
    → scan m.id p ≡ some (t, m, insert p t rest)
unfolding scan insert
scan_lem [] t m rest u front others = unfold queue_of get in cc front
scan_lem ((k, queue) ∷ p) t m rest u front others = elim (Bool-cases (k == t)) [
  | inl same ↦
      ground (arith, same, eq_iff k t, queue_of-cons k queue p t, front, take_id-front m rest)
  | inr other ↦
      let apart : k ≢ t = λ e. cc (other, (eq_iff k t).1 e) in
      let here = others k apart in
      let none_here =
        take_id-absent m.id queue (ground (arith, here, queue_of-cons k queue p k, eq_iff k k)) in
      let ih =
        scan_lem p t m rest u.1 (ground (arith, front, other, queue_of-cons k queue p t))
          (λ v ne. count_id-tail m.id k queue p u.0 v (others v ne)) in
      rw (none_here, ih, other) refl
]

-- The queue is pruned as the call dropped it.
queue_of-prune :
    (p : Map TenantId (List Message)) (t : TenantId) (rest : List Message) (j : TenantId)
    → queue_of (prune (insert p t rest) t) j ≡ at_tenant (queue_of p) t rest j
unfolding prune queue_of
queue_of-prune p t [] j =
    ground
      (arith, get-insert p t [] t, get-insert p t [] j, get-remove (insert p t []) t j, eq_iff t t)
queue_of-prune p t (m ∷ rest) j =
    ground (arith, get-insert p t (m ∷ rest) t, get-insert p t (m ∷ rest) j, eq_iff t t)

prune-IsUnique :
    (p : Map TenantId (List Message)) (t : TenantId) → IsUnique p → IsUnique (prune p t)
unfolding prune
prune-IsUnique p t u = ground (arith, remove-IsUnique p t u)

-- A message that is once in all the queues is in no second one.
two_queues :
    (f : List Message → ℕ) (p : Map TenantId (List Message)) (t u : TenantId)
    → f [] ≡ 0
    → u ≢ t
    → f (queue_of p t) + f (queue_of p u) ≤ sum_by f p
unfolding queue_of get sum_by
two_queues f [] t u z ne = omega arith
two_queues f ((k, queue) ∷ p) t u z ne =
    ground (arith, two_queues f p t u z ne, eq_iff k t, eq_iff k u, one_queue p t, one_queue p u)
  where
    one_queue :
        (p : Map TenantId (List Message)) (v : TenantId) → f (or_default (get p v)) ≤ sum_by f p
    one_queue [] v = omega arith
    one_queue ((j, queue') ∷ p') v = ground (arith, one_queue p' v)

-- A record that was written by a call of the state `s` is replayed to the maps of the state after it.
abbrev pub Replays : Loaded → WalRecord → InnerState → Type 0
Replays l r s = (l' : Loaded) × (apply_record l r ≡ ok l') × Recovers l' s

module _ (l : Loaded) (s : InnerState) (h : Recovers l s) where
  pub Replays-accept :
      (t : TenantId) (m : Message)
      → t ≡ m.tenant
      → IsBytes m.payload
      → s.next_id < m.id
      → Replays l (WalRecord.enqueue m.id t (encode_hex m.payload)) (accept s t m)
  unfolding apply_record
  Replays-accept t m e bytes newer = (
    record {
      next_id = m.id;
      pending = insert l.pending t (queue_of l.pending t ++ m ∷ []);
      in_flight = l.in_flight;
    },
    ground (arith, decode_hex-encode_hex m.payload bytes, h.next_id),
    record {
      unique = insert-IsUnique l.pending t (queue_of l.pending t ++ m ∷ []) h.unique;
      next_id = omega arith;
      contents = λ j. ground (
        arith,
        h.contents t,
        h.contents j,
        eq_iff t j,
        queue_of-insert l.pending t (queue_of l.pending t ++ m ∷ []) j,
        queue_of-insert s.pending t (queue_of s.pending t) j,
        queue_of-insert (touched s t).pending t (queue_of s.pending t ++ m ∷ []) j,
      );
      in_flight = h.in_flight;
    },
  )

  pub Replays-take :
      (w : IsWellFormed s) (t : TenantId) (m : Message) (rest : List Message)
      → queue_of s.pending t ≡ m ∷ rest
      → Replays l (WalRecord.dequeue m.id) (take s t m rest)
  unfolding apply_record
  Replays-take w t m rest front =
      let found =
        scan_lem l.pending t m rest h.unique (h.contents t ∙ front)
          (λ u ne. only_there w t m rest front u ne) in
      (
        record {
          next_id = l.next_id;
          pending = prune (insert l.pending t rest) t;
          in_flight = insert l.in_flight m.id m;
        },
        rw found,
        record {
          unique =
              prune-IsUnique (insert l.pending t rest) t
                (insert-IsUnique l.pending t rest h.unique);
          next_id = h.next_id;
          contents = λ j. ground (
            arith,
            h.contents j,
            queue_of-prune l.pending t rest j,
            queue_of-put_rest s.pending t rest j,
          );
          in_flight = λ i. ground (
            arith,
            h.in_flight i,
            get-insert l.in_flight m.id m i,
            get-insert s.in_flight m.id m i,
          );
        },
      )
    where
      only_there :
          (w : IsWellFormed s) (t : TenantId) (m : Message) (rest : List Message)
          → queue_of s.pending t ≡ m ∷ rest
          → (u : TenantId) → u ≢ t
          → count_id m.id (queue_of l.pending u) ≡ 0
      only_there w t m rest front u ne =
          let two = two_queues (count_id m.id) s.pending t u (unfold count_id in refl) ne in
          let here : 1 ≤ count_id m.id (queue_of s.pending t) =
            rw front (unfold count_id in ground (arith, nat_beq_iff m.id m.id)) in
          let same : count_id m.id (queue_of l.pending u) ≡ count_id m.id (queue_of s.pending u) =
            ap (count_id m.id) (h.contents u) in
          omega (arith, two, here, same, w.ids_once m.id)

  pub Replays-drop : (id : MessageId) → Replays l (WalRecord.ack id) (drop s id)
  unfolding apply_record
  Replays-drop id = (
    record l { in_flight = remove l.in_flight id },
    refl,
    record {
      unique = h.unique;
      next_id = h.next_id;
      contents = h.contents;
      in_flight = λ i.
          ground (arith, h.in_flight i, get-remove l.in_flight id i, get-remove s.in_flight id i);
    },
  )

  pub Replays-give :
      (id : MessageId) (m : Message)
      → get s.in_flight id ≡ some m
      → Replays l (WalRecord.nack id) (give s id m)
  unfolding apply_record
  Replays-give id m found = (
    record l {
      in_flight = remove l.in_flight id;
      pending = insert l.pending m.tenant (m ∷ queue_of l.pending m.tenant);
    },
    rw (h.in_flight id ∙ found),
    record {
      unique = insert-IsUnique l.pending m.tenant (m ∷ queue_of l.pending m.tenant) h.unique;
      next_id = h.next_id;
      contents = λ j. ground (
        arith,
        h.contents j,
        h.contents m.tenant,
        queue_of-insert l.pending m.tenant (m ∷ queue_of l.pending m.tenant) j,
        queue_of-insert s.pending m.tenant (m ∷ queue_of s.pending m.tenant) j,
      );
      in_flight = λ i.
          ground (arith, h.in_flight i, get-remove l.in_flight id i, get-remove s.in_flight id i);
    },
  )
