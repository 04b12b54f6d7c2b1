-- ===== src/Chain/Order.antt =====
-- Consequences of the laws of the comparison.
use Prim.Native.Nat.{Ordering}
use skiplist.Base.{◌≢◌, inl, inr, Ordering-cases, List, ◌∷◌, All, All-map}
use skiplist.Store.{Ptr, Callbacks, Store}
use skiplist.Chain.{IsOrder, Before, NotAfter, Sorted}

module _ {E : Type 0} ⦃c : Callbacks E⦄ (order : IsOrder c) (s : Store E) where
  pub NotAfter-of_Before : (p q : Ptr) → Before s p q → NotAfter s p q
  NotAfter-of_Before p q h e = cc

  pub NotAfter-of_not_Before : (p q : Ptr) → ¬ Before s p q → NotAfter s q p
  NotAfter-of_not_Before p q h e = h (order.lt_of_gt (s.entry q) (s.entry p) e)

  -- A node that neither precedes the other nor is equal to it follows it.
  pub Before-of_after :
      (p q : Ptr)
      → ¬ Before s p q
      → c.compare_entries (s.entry p) (s.entry q) ≢ Ordering.eq
      → Before s q p
  Before-of_after p q h ne = elim (Ordering-cases (c.compare_entries (s.entry p) (s.entry q))) [
    | inl e ↦ absurd (h e)
    | inr (inl e) ↦ absurd (ne e)
    | inr (inr e) ↦ order.lt_of_gt (s.entry p) (s.entry q) e
  ]

  -- What follows a node that follows `n` follows `n`.
  pub Before-trans : (n p q : Ptr) → Before s n p → NotAfter s p q → Before s n q
  Before-trans n p q h k = elim (Ordering-cases (c.compare_entries (s.entry n) (s.entry q))) [
    | inl e ↦ e
    | inr (inl e) ↦ absurd (
        order.trans (s.entry p) (s.entry q) (s.entry n) k
          (λ g. cc (order.lt_of_gt (s.entry q) (s.entry n) g))
          (order.gt_of_lt (s.entry n) (s.entry p) h))
    | inr (inr e) ↦ absurd (
        order.trans (s.entry p) (s.entry q) (s.entry n) k
          (λ g. cc (order.lt_of_gt (s.entry q) (s.entry n) g))
          (order.gt_of_lt (s.entry n) (s.entry p) h))
  ]

  pub Before-All :
      (n y : Ptr) (ys : List Ptr) → Before s n y → Sorted s (y ∷ ys) → All (Before s n) (y ∷ ys)
  Before-All n y ys h sorted =
      (h, All-map (NotAfter s y) ys (λ q k. Before-trans n y q h k) sorted.0)
