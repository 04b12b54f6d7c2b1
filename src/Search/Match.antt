-- ===== src/Search/Match.antt =====
-- Whether the first node behind a place is equal to the query, and what that says of the others.
use Prim.Native.Nat.{Ordering}
use skiplist.Base.{
  ◌≡◌, ◌≢◌, ◌⊎◌, refl, inl, inr, List, [], ◌∷◌, ◌++◌, false, Ordering-cases, All, All-map,
  All-append, Ordered-right, arith,
}
use skiplist.Store.{Ptr, Callbacks, Store}
use skiplist.Chain.{IsOrder, Before, NotAfter, Sorted}
use skiplist.Chain.Order.{Before-All, Before-of_after}
use skiplist.Chain.Place.{Cut}
use skiplist.Search.Locate.{is_match}

module _ {E : Type 0} ⦃c : Callbacks E⦄ (s : Store E) (n : Ptr) where
  abbrev pub NoEqual : List Ptr → Type 0
  NoEqual = All (λ z. c.compare_entries (s.entry z) (s.entry n) ≢ Ordering.eq)

  pub first-equal :
      (ys : List Ptr)
      → (is_match s ys n ≡ false)
        ⊎ ((y : Ptr) × (l : List Ptr) × (ys ≡ y ∷ l)
            × (c.compare_entries (s.entry y) (s.entry n) ≡ Ordering.eq))
  first-equal [] = inl refl
  first-equal (y ∷ l) = elim (Ordering-cases (c.compare_entries (s.entry y) (s.entry n))) [
    | inl e ↦ inl (rw (e, is_match))
    | inr (inl e) ↦ inr (y, l, refl, e)
    | inr (inr e) ↦ inl (rw (e, is_match))
  ]

  pub NoEqual-behind :
      IsOrder c
      → (ys : List Ptr) → is_match s ys n ≡ false
      → All (λ y. ¬ Before s y n) ys
      → Sorted s ys
      → NoEqual ys
  NoEqual-behind order [] e rest sorted = tt
  NoEqual-behind order (y ∷ l) e rest sorted =
      let ne : c.compare_entries (s.entry y) (s.entry n) ≢ Ordering.eq = ground arith in
      All-map (λ q. Before s n q) (y ∷ l) (λ q k d. cc (order.gt_of_lt (s.entry n) (s.entry q) k))
        (Before-All order s n y l (Before-of_after order s y n rest.0 ne) sorted)

  -- If the first node behind the place is not equal to the query, no node is.
  pub NoEqual-of_Cut :
      IsOrder c
      → (xs ys : List Ptr) → Cut s xs ys n
      → Sorted s (xs ++ ys)
      → is_match s ys n ≡ false
      → NoEqual (xs ++ ys)
  NoEqual-of_Cut order xs ys cut sorted none =
      All-append (λ y. c.compare_entries (s.entry y) (s.entry n) ≢ Ordering.eq) xs ys
        (All-map (λ x. Before s x n) xs (λ x b e. cc) cut.before)
        (NoEqual-behind order ys none cut.rest (Ordered-right (NotAfter s) xs ys sorted))
