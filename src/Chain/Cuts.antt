-- ===== src/Chain/Cuts.antt =====
-- Every query has its place in a sorted list.
use skiplist.Base.{◌≡◌, refl, ap, List, [], ◌∷◌, ◌++◌, All, All-map, inl, inr, Ordering-cases}
use skiplist.Store.{Ptr, Callbacks, Store}
use skiplist.Chain.{IsOrder, Before, NotAfter, Sorted}
use skiplist.Chain.Order.{NotAfter-of_not_Before}
use skiplist.Chain.Place.{Cut}

module _ {E : Type 0} ⦃c : Callbacks E⦄ (order : IsOrder c) (s : Store E) (n : Ptr) where
  -- What follows a node that does not precede the query does not precede it.
  stays_behind :
      (x : Ptr) (xs : List Ptr)
      → ¬ Before s x n
      → Sorted s (x ∷ xs)
      → All (λ y. ¬ Before s y n) (x ∷ xs)
  stays_behind x xs h sorted =
      let low : NotAfter s n x = NotAfter-of_not_Before order s x n h in
      (
        h,
        All-map (NotAfter s x) xs
            (λ y k b.
              order.trans (s.entry n) (s.entry x) (s.entry y) low k
                (order.gt_of_lt (s.entry y) (s.entry n) b))
            sorted.0,
      )

  pub Cut-of_Sorted :
      (zs : List Ptr)
      → Sorted s zs
      → (xs : List Ptr) × (ys : List Ptr) × (zs ≡ xs ++ ys) × Cut s xs ys n
  Cut-of_Sorted [] sorted = ([], [], refl, record { before = tt; rest = tt })
  Cut-of_Sorted (z ∷ zs) sorted =
      let stop : ¬ Before s z n
          → (xs : List Ptr) × (ys : List Ptr) × (z ∷ zs ≡ xs ++ ys) × Cut s xs ys n =
        λ h. ([], z ∷ zs, refl, record { before = tt; rest = stays_behind z zs h sorted }) in
      elim (Ordering-cases (c.compare_entries (s.entry z) (s.entry n))) [
        | inl e ↦
            let (xs, ys, split, cut) = Cut-of_Sorted zs sorted.1 in
            (
              z ∷ xs,
              ys,
              ap (λ l. z ∷ l) split,
              record { before = (e, cut.before); rest = cut.rest },
            )
        | inr (inl e) ↦ stop (λ b. cc)
        | inr (inr e) ↦ stop (λ b. cc)
      ]
