-- ===== src/Session/Reference.antt =====
-- The reference that the operations are compared with: a sorted list of entries.
use Prim.Native.Nat.{Ordering}
use skiplist.Base.{
  ◌≡◌, ◌≢◌, refl, List, [], ◌∷◌, ◌++◌, Option, none, some, All, inl, inr, Ordering-cases,
}
use skiplist.Store.{Callbacks}
use skiplist.Chain.{IsOrder}

abbrev pub behind : {E : Type 0} → E → Option (List E) → Option (List E)
behind x none = none
behind x (some es) = some (x ∷ es)

module _ {E : Type 0} ⦃c : Callbacks E⦄ where
  -- The list with `e` in its place; nothing when an equal entry is there.
  unfoldable pub enter : E → List E → Option (List E)
  enter e [] = some (e ∷ [])
  enter e (x ∷ es) = elim (c.compare_entries x e) [
    | Ordering.lt ↦ behind x (enter e es)
    | Ordering.eq ↦ none
    | Ordering.gt ↦ some (e ∷ x ∷ es)
  ]

  -- The list with `e` in front of the first entry that is not less.
  unfoldable pub enter_dup : E → List E → List E
  enter_dup e [] = e ∷ []
  enter_dup e (x ∷ es) = elim (c.compare_entries x e) [
    | Ordering.lt ↦ x ∷ enter_dup e es
    | _ ↦ e ∷ x ∷ es
  ]

  -- The list without the first entry equal to `e`; nothing when there is none.
  unfoldable pub leave : E → List E → Option (List E)
  leave e [] = none
  leave e (x ∷ es) = elim (c.compare_entries x e) [
    | Ordering.lt ↦ behind x (leave e es)
    | Ordering.eq ↦ some es
    | Ordering.gt ↦ none
  ]

  -- The first entry equal to `e`.
  unfoldable pub find : E → List E → Option E
  find e [] = none
  find e (x ∷ es) = elim (c.compare_entries x e) [
    | Ordering.lt ↦ find e es
    | Ordering.eq ↦ some x
    | Ordering.gt ↦ none
  ]

  abbrev Less : E → E → Type 0
  Less e x = c.compare_entries x e ≡ Ordering.lt

  abbrev Unequal : E → E → Type 0
  Unequal e x = c.compare_entries x e ≢ Ordering.eq

  module _ (e : E) where
    -- behind all that are less, and before one that is neither less nor equal
    pub enter-place :
        (xs ys : List E)
        → All (Less e) xs
        → All (λ y. c.compare_entries y e ≡ Ordering.gt) ys
        → enter e (xs ++ ys) ≡ some (xs ++ e ∷ ys)
    unfolding enter
    enter-place [] [] less more = refl
    enter-place [] (y ∷ ys) less more = rw more.0
    enter-place (x ∷ xs) ys less more = rw (less.0, enter-place xs ys less.1 more)

    pub leave-place :
        (xs ys : List E) (y : E)
        → All (Less e) xs
        → c.compare_entries y e ≡ Ordering.eq
        → leave e (xs ++ y ∷ ys) ≡ some (xs ++ ys)
    unfolding leave
    leave-place [] ys y less equal = rw equal
    leave-place (x ∷ xs) ys y less equal = rw (less.0, leave-place xs ys y less.1 equal)

    pub find-place :
        (xs ys : List E) (y : E)
        → All (Less e) xs
        → c.compare_entries y e ≡ Ordering.eq
        → find e (xs ++ y ∷ ys) ≡ some y
    unfolding find
    find-place [] ys y less equal = rw equal
    find-place (x ∷ xs) ys y less equal = rw (less.0, find-place xs ys y less.1 equal)

    pub leave-none : (es : List E) → All (Unequal e) es → leave e es ≡ none
    unfolding leave
    leave-none [] unequal = refl
    leave-none (x ∷ es) unequal = elim (Ordering-cases (c.compare_entries x e)) [
      | inl d ↦ rw (leave, d, leave-none es unequal.1)
      | inr (inl d) ↦ absurd (unequal.0 d)
      | inr (inr d) ↦ rw (leave, d)
    ]

    pub find-none : (es : List E) → All (Unequal e) es → find e es ≡ none
    unfolding find
    find-none [] unequal = refl
    find-none (x ∷ es) unequal = elim (Ordering-cases (c.compare_entries x e)) [
      | inl d ↦ rw (find, d) (find-none es unequal.1)
      | inr (inl d) ↦ absurd (unequal.0 d)
      | inr (inr d) ↦ rw (find, d)
    ]

    -- In a sorted list with an equal entry there is no place.
    pub enter-none :
        IsOrder c
        → (xs ys : List E) (y : E) → All (λ x. c.compare_entries x y ≢ Ordering.gt) xs
        → c.compare_entries y e ≡ Ordering.eq
        → enter e (xs ++ y ∷ ys) ≡ none
    unfolding enter
    enter-none order [] ys y sorted equal = rw equal
    enter-none order (x ∷ xs) ys y sorted equal = elim (Ordering-cases (c.compare_entries x e)) [
      | inl d ↦ rw (d, enter-none order xs ys y sorted.1 equal)
      | inr (inl d) ↦ rw d
      | inr (inr d) ↦ absurd (order.trans x y e sorted.0 (λ k. absurd (cc)) d)
    ]

    pub enter_dup-place :
        (xs ys : List E)
        → All (Less e) xs
        → All (λ y. ¬ Less e y) ys
        → enter_dup e (xs ++ ys) ≡ xs ++ e ∷ ys
    unfolding enter_dup
    enter_dup-place [] [] less more = refl
    enter_dup-place [] (y ∷ ys) less more = elim (Ordering-cases (c.compare_entries y e)) [
      | inl d ↦ absurd (more.0 d)
      | inr (inl d) ↦ rw (enter_dup, d)
      | inr (inr d) ↦ rw (enter_dup, d)
    ]
    enter_dup-place (x ∷ xs) ys less more = rw (less.0, enter_dup-place xs ys less.1 more)
