-- ===== src/Chain/Levels.antt =====
-- Chains of forward pointers at one level, and the nodes that reach a level.
use skiplist.Base.{
  ℕ, suc, ◌<◌, ◌≡◌, refl, inl, inr, true, List, [], ◌∷◌, ◌++◌, arith, leb, if◌then◌else◌,
  Bool-cases, All, Ordered, last_or, head_or, ap, ◌∙◌, length, ◌≤◌,
}
use skiplist.Store.{Ptr, Link, clean}

-- At level `i` the pointers lead from `p` through `xs` to `tail`.
abbrev pub Links : (Ptr → ℕ → Link) → Ptr → ℕ → Ptr → List Ptr → Type 0
Links next tail i p [] = next p i ≡ clean tail
Links next tail i p (x ∷ xs) = (next p i ≡ clean x) × Links next tail i x xs

-- Each backward pointer leads to the node before, from `p` on, and the tail's to the last.
abbrev pub BackLinks : (Ptr → Ptr) → Ptr → Ptr → List Ptr → Type 0
BackLinks prev tail p [] = prev tail ≡ p
BackLinks prev tail p (x ∷ xs) = (prev x ≡ p) × BackLinks prev tail x xs

-- the nodes with a height of `i` or more
abbrev pub at_level : (Ptr → ℕ) → ℕ → List Ptr → List Ptr
at_level height i [] = []
at_level height i (x ∷ xs) =
    let rest = at_level height i xs in if leb i (height x) then x ∷ rest else rest

module _ (height : Ptr → ℕ) (i : ℕ) where
  pub at_level-append :
      (xs ys : List Ptr)
      → at_level height i (xs ++ ys) ≡ at_level height i xs ++ at_level height i ys
  at_level-append [] ys = refl
  at_level-append (x ∷ xs) ys = elim (Bool-cases (leb i (height x))) [
    | inl tall ↦ rw tall (ap (λ l. x ∷ l) (at_level-append xs ys))
    | inr short ↦ rw short (at_level-append xs ys)
  ]

  pub All-at_level {ℓ} :
      (P : Ptr → Type ℓ) (xs : List Ptr) → All P xs → All P (at_level height i xs)
  All-at_level P [] h = tt
  All-at_level P (x ∷ xs) h = elim (Bool-cases (leb i (height x))) [
    | inl tall ↦ rw tall (h.0, All-at_level P xs h.1)
    | inr short ↦ rw short (All-at_level P xs h.1)
  ]

  pub Ordered-at_level {ℓ} :
      (R : Ptr → Ptr → Type ℓ) (xs : List Ptr) → Ordered R xs → Ordered R (at_level height i xs)
  Ordered-at_level R [] h = tt
  Ordered-at_level R (x ∷ xs) h = elim (Bool-cases (leb i (height x))) [
    | inl tall ↦ rw tall (All-at_level (R x) xs h.0, Ordered-at_level R xs h.1)
    | inr short ↦ rw short (Ordered-at_level R xs h.1)
  ]

  pub length-at_level : (xs : List Ptr) → length (at_level height i xs) ≤ length xs
  length-at_level [] = omega arith
  length-at_level (x ∷ xs) = ground (arith, length-at_level xs)

  -- above every node's height the level is empty
  pub at_level_above : (xs : List Ptr) → All (λ p. height p < i) xs → at_level height i xs ≡ []
  at_level_above [] h = refl
  at_level_above (x ∷ xs) h = ground (arith, at_level_above xs h.1)

pub at_level_zero : (height : Ptr → ℕ) (xs : List Ptr) → at_level height 0 xs ≡ xs
at_level_zero height [] = refl
at_level_zero height (x ∷ xs) = ground (arith, at_level_zero height xs)

-- Heights that agree on the nodes give the same levels.
pub at_level_congr :
    (h h' : Ptr → ℕ) (i : ℕ) (xs : List Ptr)
    → All (λ p. h' p ≡ h p) xs
    → at_level h' i xs ≡ at_level h i xs
at_level_congr h h' i [] e = refl
at_level_congr h h' i (x ∷ xs) e = rw (e.0, at_level_congr h h' i xs e.1)

module _ (next : Ptr → ℕ → Link) (tail : Ptr) (i : ℕ) where
  -- the first pointer
  pub Links-first :
      (p : Ptr) (xs : List Ptr) → Links next tail i p xs → next p i ≡ clean (head_or tail xs)
  Links-first p [] h = h
  Links-first p (x ∷ xs) h = h.0

  pub Links-right :
      (p : Ptr) (xs ys : List Ptr)
      → Links next tail i p (xs ++ ys)
      → Links next tail i (last_or p xs) ys
  Links-right p [] ys h = h
  Links-right p (x ∷ xs) ys h = Links-right x xs ys h.1

  -- the part up to a node of the chain
  pub Links-left :
      (p n : Ptr) (xs ys : List Ptr) → Links next tail i p (xs ++ n ∷ ys) → Links next n i p xs
  Links-left p n [] ys h = h.0
  Links-left p n (x ∷ xs) ys h = (h.0, Links-left x n xs ys h.1)

  -- A change of the pointers that spares the chain's own keeps the chain.
  pub Links-frame :
      (next' : Ptr → ℕ → Link) (p : Ptr) (xs : List Ptr)
      → Links next tail i p xs
      → All (λ q. next' q i ≡ next q i) (p ∷ xs)
      → Links next' tail i p xs
  Links-frame next' p [] h e = rw e.0 h
  Links-frame next' p (x ∷ xs) h e = (rw e.0 h.0, Links-frame next' x xs h.1 e.1)

module _ (height : Ptr → ℕ) (i : ℕ) where
  -- The nodes at level `i` fall in those up to the last one at the level above, and the others.
  abbrev Split : Ptr → List Ptr → Type 0
  Split p xs =
      (us : List Ptr) × (vs : List Ptr) × (at_level height i xs ≡ us ++ vs)
      × (last_or p us ≡ last_or p (at_level height (suc i) xs))

  abbrev FromFront : Ptr → Ptr → List Ptr → List Ptr → Type 0
  FromFront p x xs above =
      (us : List Ptr) × (vs : List Ptr) × (x ∷ at_level height i xs ≡ us ++ vs)
      × (last_or p us ≡ last_or p above)

  Split-short :
      (p x : Ptr) (xs above : List Ptr)
      → at_level height (suc i) xs ≡ above
      → Split x xs
      → FromFront p x xs above
  Split-short p x xs [] e s = ([], x ∷ at_level height i xs, refl, refl)
  Split-short p x xs (y ∷ ys) e (us, vs, parts, last) =
      (x ∷ us, vs, ap (λ l. x ∷ l) parts, last ∙ ap (λ l. last_or x l) e)

  pub Split-level : (p : Ptr) (xs : List Ptr) → Split p xs
  Split-level p [] = ([], [], refl, refl)
  Split-level p (x ∷ xs) = elim (Bool-cases (leb (suc i) (height x))) [
    | inl tall ↦
        let (us, vs, parts, last) = Split-level x xs in
        let here : leb i (height x) ≡ true = ground arith in
        rw (tall, here) (x ∷ us, vs, ap (λ l. x ∷ l) parts, last)
    | inr short ↦ elim (Bool-cases (leb i (height x))) [
      | inl here ↦ rw (short, here) (Split-short p x xs _ refl (Split-level x xs))
      | inr gone ↦ rw (short, gone) (Split-level p xs)
    ]
  ]
