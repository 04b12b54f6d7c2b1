-- ===== src/Chain/Place.antt =====
-- The neighbours of a place in the list, at each level.
use skiplist.Base.{
  ℕ, ◌<◌, ◌≡◌, refl, List, [], ◌∷◌, ◌++◌, All, All-right, All-last_or, All-head_or, last_or,
  head_or, ◌⊎◌, inl, inr, false,
}
use skiplist.Store.{Ptr, Link, clean, is_marked, Callbacks, max_height, Store}
use skiplist.Chain.{IsInner, IsList, Before}
use skiplist.Chain.Levels.{Links, Links-first, Links-right, at_level, at_level-append, All-at_level}

module _ {E : Type 0} (s : Store E) where
  -- the neighbours at level `i` of a node that stands behind `xs`, and before `ys`
  abbrev pub pred_at : List Ptr → ℕ → Ptr
  pred_at xs i = last_or s.head (at_level s.height i xs)

  abbrev pub succ_at : List Ptr → ℕ → Ptr
  succ_at ys i = head_or s.tail (at_level s.height i ys)

  -- The query stands behind `xs` and not behind any of `ys`.
  module _ (xs ys : List Ptr) ⦃c : Callbacks E⦄ where
    pub record Cut (n : Ptr) : Type 0 where
      pub before : All (λ x. Before s x n) xs
      pub rest : All (λ y. ¬ Before s y n) ys

  pub pred_at-All {ℓ} :
      (P : Ptr → Type ℓ) (xs : List Ptr) (i : ℕ) → P s.head → All P xs → P (pred_at xs i)
  pred_at-All P xs i hd h =
      All-last_or P s.head (at_level s.height i xs) hd (All-at_level s.height i P xs h)

  pub succ_at-All {ℓ} :
      (P : Ptr → Type ℓ) (ys : List Ptr) (i : ℕ) → P s.tail → All P ys → P (succ_at ys i)
  succ_at-All P ys i hd h =
      All-head_or P s.tail (at_level s.height i ys) hd (All-at_level s.height i P ys h)

Links-unmarked :
    (next : Ptr → ℕ → Link) (tail : Ptr) (i : ℕ) (p : Ptr) (xs : List Ptr)
    → Links next tail i p xs
    → All (λ q. is_marked (next q i) ≡ false) (p ∷ xs)
Links-unmarked next tail i p [] h = (rw h refl, tt)
Links-unmarked next tail i p (x ∷ xs) h = (rw h.0 refl, Links-unmarked next tail i x xs h.1)

module _ {E : Type 0} ⦃c : Callbacks E⦄ (s : Store E) (xs ys : List Ptr) (is : IsList s (xs ++ ys))
    (i : ℕ) (low : i < max_height) where
  parted : Links s.next s.tail i s.head (at_level s.height i xs ++ at_level s.height i ys)
  parted = rw (at_level-append s.height i xs ys) at (is.links i low)

  -- No node lies between the two at this level.
  pub next-pred_at : s.next (pred_at s xs i) i ≡ clean (succ_at s ys i)
  next-pred_at =
      Links-first s.next s.tail i (pred_at s xs i) (at_level s.height i ys) (
        Links-right s.next s.tail i s.head (at_level s.height i xs) (at_level s.height i ys) parted)

  -- The successor is the tail or an inner node that is not deleted.
  pub succ_at-cases :
      (succ_at s ys i ≡ s.tail)
      ⊎ (IsInner s (succ_at s ys i) × (is_marked (s.next (succ_at s ys i) i) ≡ false))
  succ_at-cases =
      go (at_level s.height i ys)
        (All-right _ (at_level s.height i xs) (at_level s.height i ys)
          (Links-unmarked s.next s.tail i s.head _ parted).1)
        (All-at_level s.height i (IsInner s) ys (All-right (IsInner s) xs ys is.inner))
    where
      go :
          (l : List Ptr)
          → All (λ q. is_marked (s.next q i) ≡ false) l
          → All (IsInner s) l
          → (head_or s.tail l ≡ s.tail)
            ⊎ (IsInner s (head_or s.tail l) × (is_marked (s.next (head_or s.tail l) i) ≡ false))
      go [] m inner = inl refl
      go (q ∷ l) m inner = inr (inner.0, m.0)
