-- ===== src/Pulse/Sorted.antt =====
-- crates/pulse/src/store.rs: the sort of the points of a series.
use kaleidoscope.Prelude.{
  ◌≤◌, Bool-cases, List, [], ◌∷◌, leb, leb→le, leb→gt, string_key, arith, inl, inr, All,
}
use kaleidoscope.Prelude.Order.{nat_order, list_order, pair_order}
use kaleidoscope.Pulse.Types.{MetricPoint, store_key}
use kaleidoscope.Pulse.Store.{place, sort}

module _ {F : Type 0} where
  -- Each point is at the time of the ones behind it or earlier.
  abbrev pub IsChronological : List (MetricPoint F) → Type 0
  IsChronological [] = Unit
  IsChronological (p ∷ ps) = All (λ q. p.time_unix_nano ≤ q.time_unix_nano) ps × IsChronological ps

  place-All :
      (P : MetricPoint F → Type 0) (p : MetricPoint F) (ps : List (MetricPoint F))
      → P p
      → All P ps
      → All P (place p ps)
  unfolding place
  place-All P p [] h a = (h, tt)
  place-All P p (q ∷ qs) h a = elim (Bool-cases (leb p.time_unix_nano q.time_unix_nano)) [
    | inl e ↦ rw e (h, a)
    | inr e ↦ rw e (a.0, place-All P p qs h a.1)
  ]

  pub sort-All :
      (P : MetricPoint F → Type 0) (ps : List (MetricPoint F)) → All P ps → All P (sort ps)
  unfolding sort
  sort-All P [] a = tt
  sort-All P (p ∷ ps) a = place-All P p (sort ps) a.0 (sort-All P ps a.1)

  later :
      (p q : MetricPoint F) (ps : List (MetricPoint F))
      → p.time_unix_nano ≤ q.time_unix_nano
      → All (λ r. q.time_unix_nano ≤ r.time_unix_nano) ps
      → All (λ r. p.time_unix_nano ≤ r.time_unix_nano) ps
  later p q [] le a = tt
  later p q (r ∷ ps) le a = (omega arith, later p q ps le a.1)

  place-IsChronological :
      (p : MetricPoint F) (ps : List (MetricPoint F))
      → IsChronological ps
      → IsChronological (place p ps)
  unfolding place
  place-IsChronological p [] h = (tt, tt)
  place-IsChronological p (q ∷ qs) h = elim (Bool-cases (leb p.time_unix_nano q.time_unix_nano)) [
    | inl e ↦
        let le = leb→le p.time_unix_nano q.time_unix_nano e in rw e ((le, later p q qs le h.0), h)
    | inr e ↦
        let lt = leb→gt p.time_unix_nano q.time_unix_nano e in
        rw e (
          place-All (λ r. q.time_unix_nano ≤ r.time_unix_nano) p qs (omega arith) h.0,
          place-IsChronological p qs h.1,
        )
  ]

  pub sort-IsChronological : (ps : List (MetricPoint F)) → IsChronological (sort ps)
  unfolding sort
  sort-IsChronological [] = tt
  sort-IsChronological (p ∷ ps) = place-IsChronological p (sort ps) (sort-IsChronological ps)
