-- ===== src/Sluice/Invariant.antt =====
-- The invariant of the queue state of crates/sluice/src/queue.rs and file_backed.rs: the counter
-- agrees with the queues, and no id stands in the state twice.
use kaleidoscope.Prelude.{
  ℕ, ◌+◌, ◌*◌, ◌%◌, ◌≤◌, ◌<◌, ◌≡◌, refl, sym, ap, subst, some, All, All-append, Bool-cases, inl,
  inr, ◌==◌, List, [], ◌∷◌, ◌++◌, arith, length, length-append, u64_mod, nat_key, string_key,
  nat_beq_iff, u64_add, u64_sub,
}
use kaleidoscope.Sluice.Spec.{at_tenant}
use kaleidoscope.Prelude.Map.{
  Map, get, contains_key, insert, remove, IsUnique, sum_by, insert-IsUnique, remove-IsUnique,
  get-insert, get-remove, contains_key-true,
}
use kaleidoscope.Sluice.Types.{
  TenantId, MessageId, Message, InnerState, empty_state, queue_of, put_rest, count_id, occurs, held,
}
use kaleidoscope.Sluice.Queues.{
  queue_of-insert, queue_of-put_rest, sum_by-insert_queue, sum_by-put_rest, put_rest-IsUnique,
  one_if, occurs-insert, occurs-remove, pushed, sum_by-touched, sum_by-pushed, sum_by_count-pushed,
}

pub record IsWellFormed (s : InnerState) : Type 0 where
  pub pending_unique : IsUnique s.pending
  pub in_flight_unique : IsUnique s.in_flight
  pub total_exact : s.total ≡ sum_by length s.pending % u64_mod
  pub ids_once : (i : MessageId) → held i s ≤ 1
  pub ids_issued : (i : MessageId) → s.next_id < i → held i s ≡ 0
  pub keyed : (i : MessageId) (m : Message) → get s.in_flight i ≡ some m → m.id ≡ i
  pub placed : (t : TenantId) → All (λ m. m.tenant ≡ t) (queue_of s.pending t)

pub empty_state-IsWellFormed : IsWellFormed empty_state
unfolding sum_by contains_key get queue_of
empty_state-IsWellFormed = record {
  pending_unique = tt;
  in_flight_unique = tt;
  total_exact = refl;
  ids_once = λ i. omega arith;
  ids_issued = λ i h. refl;
  keyed = λ i m h. ground arith;
  placed = λ t. tt;
}

-- The queues after a write to one of them.
module _ (p : Map TenantId (List Message)) (t : TenantId) (queue : List Message)
    (placed : (u : TenantId) → All (λ m. m.tenant ≡ u) (queue_of p u))
    (mine : All (λ m. m.tenant ≡ t) queue) where
  written :
      (p' : Map TenantId (List Message))
      → ((u : TenantId) → queue_of p' u ≡ at_tenant (queue_of p) t queue u)
      → (u : TenantId) → All (λ m. m.tenant ≡ u) (queue_of p' u)
  written p' reads u = subst (All (λ m. m.tenant ≡ u)) (sym (reads u)) (elim (Bool-cases (t == u)) [
    | inl e ↦ rw e (subst (λ v. All (λ m. m.tenant ≡ v) queue) ((string_key.same_iff t u).0 e) mine)
    | inr e ↦ rw e (placed u)
  ])

  insert-placed : (u : TenantId) → All (λ m. m.tenant ≡ u) (queue_of (insert p t queue) u)
  insert-placed = written (insert p t queue) (queue_of-insert p t queue)

  put_rest-placed : (u : TenantId) → All (λ m. m.tenant ≡ u) (queue_of (put_rest p t queue) u)
  put_rest-placed = written (put_rest p t queue) (queue_of-put_rest p t queue)

-- The states that the calls leave. Here the key of an absent queue has been made.
abbrev pub touched : InnerState → TenantId → InnerState
touched s t = record s { pending = insert s.pending t (queue_of s.pending t) }

abbrev pub accept : InnerState → TenantId → Message → InnerState
accept s t m = record s { next_id = m.id; pending = pushed s t m; total = u64_add s.total 1 }

abbrev pub take : InnerState → TenantId → Message → List Message → InnerState
take s t m rest = record s {
  pending = put_rest s.pending t rest;
  total = u64_sub s.total 1;
  in_flight = insert s.in_flight m.id m;
}

abbrev pub drop : InnerState → MessageId → InnerState
drop s id = record s { in_flight = remove s.in_flight id }

abbrev pub give : InnerState → MessageId → Message → InnerState
give s id m = record s {
  in_flight = remove s.in_flight id;
  pending = insert s.pending m.tenant (m ∷ queue_of s.pending m.tenant);
  total = u64_add s.total 1;
}

module _ (s : InnerState) where
  pub held-touched : (t : TenantId) (i : MessageId) → held i (touched s t) ≡ held i s
  unfolding count_id
  held-touched t i = omega (arith, sum_by-touched (count_id i) refl s t)

  pub held-accept :
      (t : TenantId) (m : Message) (i : MessageId)
      → held i (accept s t m) ≡ held i s + one_if m.id i
  held-accept t m i = omega (arith, sum_by_count-pushed s t m i)

  pub held-drop :
      (id i : MessageId) → held i (drop s id) + one_if id i * occurs i s.in_flight ≡ held i s
  held-drop id i = ground (arith, occurs-remove s.in_flight id i)

  pub touched-IsWellFormed : (t : TenantId) → IsWellFormed s → IsWellFormed (touched s t)
  touched-IsWellFormed t w = record {
    pending_unique = insert-IsUnique s.pending t (queue_of s.pending t) w.pending_unique;
    in_flight_unique = w.in_flight_unique;
    total_exact = omega (arith, w.total_exact, sum_by-touched length refl s t);
    ids_once = λ i. omega (arith, held-touched t i, w.ids_once i);
    ids_issued = λ i h. omega (arith, held-touched t i, w.ids_issued i h);
    keyed = w.keyed;
    placed = insert-placed s.pending t (queue_of s.pending t) w.placed (w.placed t);
  }

  pub accept-IsWellFormed :
      (t : TenantId) (m : Message)
      → m.id ≡ s.next_id + 1
      → m.tenant ≡ t
      → IsWellFormed s
      → IsWellFormed (accept s t m)
  accept-IsWellFormed t m e mine w = record {
    pending_unique =
        insert-IsUnique (touched s t).pending t (queue_of s.pending t ++ m ∷ [])
          (insert-IsUnique s.pending t (queue_of s.pending t) w.pending_unique);
    in_flight_unique = w.in_flight_unique;
    total_exact = omega (
      arith,
      w.total_exact,
      sum_by-pushed length refl s t m,
      length-append (queue_of s.pending t) (m ∷ []),
    );
    ids_once =
        λ i. ground (arith, held-accept t m i, w.ids_once i, w.ids_issued i, nat_beq_iff m.id i);
    ids_issued = λ i h. ground (arith, held-accept t m i, w.ids_issued i, nat_beq_iff m.id i);
    keyed = w.keyed;
    placed =
        insert-placed (touched s t).pending t (queue_of s.pending t ++ m ∷ [])
          (touched-IsWellFormed t w).placed
          (All-append (λ m. m.tenant ≡ t) (queue_of s.pending t) (m ∷ []) (w.placed t) (mine, tt));
  }

module _ (s : InnerState) (w : IsWellFormed s) where
  module _ (t : TenantId) (m : Message) (rest : List Message)
      (front : queue_of s.pending t ≡ m ∷ rest) where
    sum_by_count-take :
        (i : MessageId)
        → sum_by (count_id i) (put_rest s.pending t rest) + one_if m.id i
          ≡ sum_by (count_id i) s.pending
    unfolding count_id
    sum_by_count-take i = omega (
      arith,
      sum_by-put_rest (count_id i) refl s.pending t rest w.pending_unique,
      ap (count_id i) front,
    )

    pub held-take : (i : MessageId) → held i (take s t m rest) ≡ held i s
    held-take i =
        ground (arith, sum_by_count-take i, w.ids_once i, occurs-insert s.in_flight m.id m i)

    pub take-IsWellFormed : IsWellFormed (take s t m rest)
    take-IsWellFormed = record {
      pending_unique = put_rest-IsUnique s.pending t rest w.pending_unique;
      in_flight_unique = insert-IsUnique s.in_flight m.id m w.in_flight_unique;
      total_exact = omega (
        arith,
        w.total_exact,
        sum_by-put_rest length refl s.pending t rest w.pending_unique,
        ap length front,
      );
      ids_once = λ i. omega (arith, held-take i, w.ids_once i);
      ids_issued = λ i h. omega (arith, held-take i, w.ids_issued i h);
      keyed =
          λ i n h. ground (arith, get-insert s.in_flight m.id m i, w.keyed i n, nat_beq_iff m.id i);
      placed =
          put_rest-placed s.pending t rest w.placed
            (subst (All (λ n. n.tenant ≡ t)) front (w.placed t)).1;
    }

  pub drop-IsWellFormed : (id : MessageId) → IsWellFormed (drop s id)
  drop-IsWellFormed id = record {
    pending_unique = w.pending_unique;
    in_flight_unique = remove-IsUnique s.in_flight id w.in_flight_unique;
    total_exact = w.total_exact;
    ids_once = λ i. omega (arith, held-drop s id i, w.ids_once i);
    ids_issued = λ i h. omega (arith, held-drop s id i, w.ids_issued i h);
    keyed = λ i n h. ground (arith, get-remove s.in_flight id i, w.keyed i n);
    placed = w.placed;
  }

  module _ (id : MessageId) (m : Message) (found : get s.in_flight id ≡ some m) where
    pub held-give : (i : MessageId) → held i (give s id m) ≡ held i s
    unfolding count_id
    held-give i = ground (
      arith,
      w.keyed id m found,
      sum_by-insert_queue (count_id i) refl s.pending m.tenant (m ∷ queue_of s.pending m.tenant),
      occurs-remove s.in_flight id i,
      contains_key-true s.in_flight id m found,
      nat_beq_iff id i,
    )

    pub give-IsWellFormed : IsWellFormed (give s id m)
    give-IsWellFormed = record {
      pending_unique =
          insert-IsUnique s.pending m.tenant (m ∷ queue_of s.pending m.tenant) w.pending_unique;
      in_flight_unique = remove-IsUnique s.in_flight id w.in_flight_unique;
      total_exact = omega (
        arith,
        w.total_exact,
        sum_by-insert_queue length refl s.pending m.tenant (m ∷ queue_of s.pending m.tenant),
      );
      ids_once = λ i. omega (arith, held-give i, w.ids_once i);
      ids_issued = λ i h. omega (arith, held-give i, w.ids_issued i h);
      keyed = λ i n h. ground (arith, get-remove s.in_flight id i, w.keyed i n);
      placed =
          insert-placed s.pending m.tenant (m ∷ queue_of s.pending m.tenant) w.placed
            (refl, w.placed m.tenant);
    }

-- A call that fails after it drew an id leaves the counter ahead.
pub bump-IsWellFormed :
    (s : InnerState) (n : ℕ)
    → s.next_id ≤ n
    → IsWellFormed s
    → IsWellFormed (record s { next_id = n })
bump-IsWellFormed s n le w = record {
  pending_unique = w.pending_unique;
  in_flight_unique = w.in_flight_unique;
  total_exact = w.total_exact;
  ids_once = w.ids_once;
  ids_issued = λ i h. w.ids_issued i (omega arith);
  keyed = w.keyed;
  placed = w.placed;
}
