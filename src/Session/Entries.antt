-- ===== src/Session/Entries.antt =====
-- The operations of the reference on the entries of a list, where the nodes stand.
use Prim.Native.Nat.{Ordering}
use skiplist.Base.{
  ◌≡◌, ◌≢◌, inl, inr, refl, ap, ap₂, List, [], ◌∷◌, ◌++◌, map, none, some, All, All-map, All-right,
  All-pair, Ordered-middle, Ordering-cases,
}
use skiplist.Store.{Ptr, Callbacks, Store}
use skiplist.Chain.{IsOrder, Sorted, NotAfter, Before}
use skiplist.Chain.Place.{Cut}
use skiplist.Search.Match.{NoEqual}
use skiplist.Session.{entries}
use skiplist.Session.Reference.{
  enter, leave, enter-place, enter_dup, enter_dup-place, leave-place, enter-none, leave-none,
}

module _ {A B : Type 0} where
  pub map-append : (f : A → B) (xs ys : List A) → map f (xs ++ ys) ≡ map f xs ++ map f ys
  map-append f [] ys = refl
  map-append f (x ∷ xs) ys = ap (λ l. f x ∷ l) (map-append f xs ys)

  pub map_congr : (f g : A → B) (xs : List A) → All (λ x. f x ≡ g x) xs → map f xs ≡ map g xs
  map_congr f g [] same = refl
  map_congr f g (x ∷ xs) same = ap₂ (λ y l. y ∷ l) same.0 (map_congr f g xs same.1)

  pub All-of_map :
      (P : B → Type 0) (f : A → B) (xs : List A) → All (λ x. P (f x)) xs → All P (map f xs)
  All-of_map P f [] h = tt
  All-of_map P f (x ∷ xs) h = (h.0, All-of_map P f xs h.1)

module _ {E : Type 0} ⦃c : Callbacks E⦄ (s : Store E) where
  after :
      (n y : Ptr)
      → (¬ Before s y n) × (c.compare_entries (s.entry y) (s.entry n) ≢ Ordering.eq)
      → c.compare_entries (s.entry y) (s.entry n) ≡ Ordering.gt
  after n y k = elim (Ordering-cases (c.compare_entries (s.entry y) (s.entry n))) [
    | inl d ↦ absurd (k.0 d)
    | inr (inl d) ↦ absurd (k.1 d)
    | inr (inr d) ↦ d
  ]

  pub enter-of_Cut :
      (xs ys : List Ptr) (n : Ptr)
      → Cut s xs ys n
      → NoEqual s n (xs ++ ys)
      → enter (s.entry n) (entries s (xs ++ ys)) ≡ some (entries s (xs ++ n ∷ ys))
  enter-of_Cut xs ys n cut unequal =
      rw (map-append s.entry xs ys, map-append s.entry xs (n ∷ ys))
        (enter-place (s.entry n) (map s.entry xs) (map s.entry ys)
          (All-of_map _ s.entry xs cut.before)
          (All-of_map _ s.entry ys
            (All-map _ ys (after n) (All-pair _ _ ys cut.rest (All-right _ xs ys unequal)))))

  pub enter_dup-of_Cut :
      (xs ys : List Ptr) (n : Ptr)
      → Cut s xs ys n
      → enter_dup (s.entry n) (entries s (xs ++ ys)) ≡ entries s (xs ++ n ∷ ys)
  enter_dup-of_Cut xs ys n cut =
      rw (map-append s.entry xs ys, map-append s.entry xs (n ∷ ys))
        (enter_dup-place (s.entry n) (map s.entry xs) (map s.entry ys)
          (All-of_map _ s.entry xs cut.before) (All-of_map _ s.entry ys cut.rest))

  pub leave-of_Cut :
      (xs ys : List Ptr) (m n : Ptr)
      → Cut s xs (m ∷ ys) n
      → c.compare_entries (s.entry m) (s.entry n) ≡ Ordering.eq
      → leave (s.entry n) (entries s (xs ++ m ∷ ys)) ≡ some (entries s (xs ++ ys))
  leave-of_Cut xs ys m n cut equal =
      rw (map-append s.entry xs (m ∷ ys), map-append s.entry xs ys)
        (leave-place (s.entry n) (map s.entry xs) (map s.entry ys) (s.entry m)
          (All-of_map _ s.entry xs cut.before) equal)

  pub enter-of_equal :
      IsOrder c
      → (xs ys : List Ptr) (m n : Ptr) → Sorted s (xs ++ m ∷ ys)
      → c.compare_entries (s.entry m) (s.entry n) ≡ Ordering.eq
      → enter (s.entry n) (entries s (xs ++ m ∷ ys)) ≡ none
  enter-of_equal order xs ys m n sorted equal = rw (map-append s.entry xs (m ∷ ys)) (
      enter-none (s.entry n) order (map s.entry xs) (map s.entry ys) (s.entry m)
        (All-of_map _ s.entry xs (Ordered-middle (NotAfter s) xs ys m sorted).0) equal)

  pub leave-of_NoEqual :
      (zs : List Ptr) (n : Ptr) → NoEqual s n zs → leave (s.entry n) (entries s zs) ≡ none
  leave-of_NoEqual zs n unequal =
      leave-none (s.entry n) (map s.entry zs) (All-of_map _ s.entry zs unequal)
