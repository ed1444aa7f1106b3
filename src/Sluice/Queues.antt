-- ===== src/Sluice/Queues.antt =====
-- The queues of crates/sluice as a map: what a reader sees after a write, and how a measure of
-- the queues, summed over the tenants, changes.
use kaleidoscope.Prelude.{
  ℕ, ◌+◌, ◌≡◌, refl, ap, List, [], ◌∷◌, ◌++◌, arith, nat_key, string_key, ◌==◌, if◌then◌else◌,
}
use kaleidoscope.Prelude.Map.{
  Map, get, insert, remove, IsUnique, sum_by, sum_by-insert, sum_by-remove, at_entry,
  contains_key-insert, contains_key-remove, insert-IsUnique, remove-IsUnique, get-insert,
  get-remove,
}
use kaleidoscope.Sluice.Types.{
  TenantId, MessageId, Message, InnerState, queue_of, put_rest, count_id, occurs,
}
use kaleidoscope.Sluice.Spec.{at_tenant}

pub queue_of-insert :
    (p : Map TenantId (List Message)) (t : TenantId) (queue : List Message) (j : TenantId)
    → queue_of (insert p t queue) j ≡ at_tenant (queue_of p) t queue j
unfolding queue_of
queue_of-insert p t queue j = ground (arith, get-insert p t queue j)

pub queue_of-put_rest :
    (p : Map TenantId (List Message)) (t : TenantId) (rest : List Message) (j : TenantId)
    → queue_of (put_rest p t rest) j ≡ at_tenant (queue_of p) t rest j
unfolding queue_of put_rest
queue_of-put_rest p t [] j = ground (arith, get-remove p t j)
queue_of-put_rest p t (m ∷ rest) j = ground (arith, get-insert p t (m ∷ rest) j)

pub count_id-append :
    (i : MessageId) (xs ys : List Message) → count_id i (xs ++ ys) ≡ count_id i xs + count_id i ys
unfolding count_id
count_id-append i [] ys = omega arith
count_id-append i (x ∷ xs) ys = omega (arith, count_id-append i xs ys)

-- A measure of queues that is 0 at the empty queue, summed over the tenants.
module _ (f : List Message → ℕ) (f_nil : f [] ≡ 0) where
  at_entry-queue_of :
      (p : Map TenantId (List Message)) (t : TenantId) → at_entry f (get p t) ≡ f (queue_of p t)
  unfolding queue_of
  at_entry-queue_of p t = ground arith

  pub sum_by-insert_queue :
      (p : Map TenantId (List Message)) (t : TenantId) (queue : List Message)
      → sum_by f (insert p t queue) + f (queue_of p t) ≡ sum_by f p + f queue
  sum_by-insert_queue p t queue = omega (arith, at_entry-queue_of p t, sum_by-insert f p t queue)

  pub sum_by-put_rest :
      (p : Map TenantId (List Message)) (t : TenantId) (rest : List Message)
      → IsUnique p
      → sum_by f (put_rest p t rest) + f (queue_of p t) ≡ sum_by f p + f rest
  unfolding put_rest
  sum_by-put_rest p t [] u = omega (arith, at_entry-queue_of p t, sum_by-remove f p t u, f_nil)
  sum_by-put_rest p t (m ∷ rest) u = sum_by-insert_queue p t (m ∷ rest)

pub put_rest-IsUnique :
    (p : Map TenantId (List Message)) (t : TenantId) (rest : List Message)
    → IsUnique p
    → IsUnique (put_rest p t rest)
unfolding put_rest
put_rest-IsUnique p t [] u = remove-IsUnique p t u
put_rest-IsUnique p t (m ∷ rest) u = insert-IsUnique p t (m ∷ rest) u

abbrev pub one_if : MessageId → MessageId → ℕ
one_if id i = if id == i then 1 else 0

pub occurs-insert :
    (f : Map MessageId Message) (id : MessageId) (m : Message) (i : MessageId)
    → occurs i (insert f id m) ≡ (if id == i then 1 else occurs i f)
occurs-insert f id m i = ground (arith, contains_key-insert f id m i)

pub occurs-remove :
    (f : Map MessageId Message) (id i : MessageId)
    → occurs i (remove f id) ≡ (if id == i then 0 else occurs i f)
occurs-remove f id i = ground (arith, contains_key-remove f id i)

-- The pending map after an accepted message.
abbrev pub pushed : InnerState → TenantId → Message → Map TenantId (List Message)
pushed s t m = insert (insert s.pending t (queue_of s.pending t)) t (queue_of s.pending t ++ m ∷ [])

module _ (f : List Message → ℕ) (f_nil : f [] ≡ 0) where
  pub sum_by-touched :
      (s : InnerState) (t : TenantId)
      → sum_by f (insert s.pending t (queue_of s.pending t)) ≡ sum_by f s.pending
  sum_by-touched s t = omega (arith, sum_by-insert_queue f f_nil s.pending t (queue_of s.pending t))

  pub sum_by-pushed :
      (s : InnerState) (t : TenantId) (m : Message)
      → sum_by f (pushed s t m) + f (queue_of s.pending t)
        ≡ sum_by f s.pending + f (queue_of s.pending t ++ m ∷ [])
  sum_by-pushed s t m =
      let p = insert s.pending t (queue_of s.pending t) in
      let same : queue_of p t ≡ queue_of s.pending t =
        ground
          (arith, queue_of-insert s.pending t (queue_of s.pending t) t, string_key.same_iff t t) in
      omega (
        arith,
        ap f same,
        sum_by-touched s t,
        sum_by-insert_queue f f_nil p t (queue_of s.pending t ++ m ∷ []),
      )

pub sum_by_count-pushed :
    (s : InnerState) (t : TenantId) (m : Message) (i : MessageId)
    → sum_by (count_id i) (pushed s t m) ≡ sum_by (count_id i) s.pending + one_if m.id i
unfolding count_id
sum_by_count-pushed s t m i = omega (
  arith,
  sum_by-pushed (count_id i) refl s t m,
  count_id-append i (queue_of s.pending t) (m ∷ []),
)
