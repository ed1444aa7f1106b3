-- ===== src/Sluice/Durable/Totals.antt =====
-- crates/sluice: maps with the same queues have the same total, in whatever order they are iterated.
use kaleidoscope.Prelude.{ℕ, ◌≡◌, refl, sym, List, [], ◌∷◌, arith, eq_iff, string_key, nat_key}
use kaleidoscope.Prelude.Map.{
  Map, get, remove, IsUnique, sum_by, get-remove, sum_by-remove, remove-IsUnique, get-none,
}
use kaleidoscope.Sluice.Types.{TenantId, Message, or_default}

module _ (f : List Message → ℕ) (f_nil : f [] ≡ 0) where
  abbrev at_key : Map TenantId (List Message) → TenantId → ℕ
  at_key p t = f (or_default (get p t))

  sum_by_empty :
      (p : Map TenantId (List Message))
      → IsUnique p
      → ((t : TenantId) → at_key p t ≡ 0)
      → sum_by f p ≡ 0
  unfolding sum_by get
  sum_by_empty [] u h = refl
  sum_by_empty ((k, queue) ∷ p) u h = ground (
    arith,
    h k,
    eq_iff k k,
    sum_by_empty p u.1 λ (t : TenantId). ground (arith, f_nil, h t, eq_iff k t, get-none p k u.0),
  )

  pub sum_by_same :
      (p p' : Map TenantId (List Message))
      → IsUnique p
      → IsUnique p'
      → ((t : TenantId) → at_key p t ≡ at_key p' t)
      → sum_by f p ≡ sum_by f p'
  unfolding sum_by get
  sum_by_same [] p' u u' h = sym (sum_by_empty p' u' (λ t. ground (arith, f_nil, h t)))
  sum_by_same ((k, queue) ∷ p) p' u u' h = ground (
    arith,
    f_nil,
    h k,
    eq_iff k k,
    sum_by-remove f p' k u',
    sum_by_same p (remove p' k) u.1 (remove-IsUnique p' k u') λ (t : TenantId).
        ground (arith, f_nil, h t, eq_iff k t, get-none p k u.0, get-remove p' k t),
  )
