-- ===== src/Insert/Shape.antt =====
-- The list that the memory holds once a new node is linked in at all its levels.
use Prim.Native.Nat.{Ordering}
use skiplist.Chain.Order.{NotAfter-of_Before, NotAfter-of_not_Before, Before-of_after}
use skiplist.Base.{
  All-pair, All-insert, Ordered-insert, length-append, Bool, false, ◌+◌, ◌%◌, ℕ, ◌≤◌, ◌<◌, ◌≡◌, ◌≢◌,
  sym, inl, inr, List, ◌∷◌, ◌++◌, arith, leb, Bool-cases, All, All-map, All-left, All-right, NotIn,
  Distinct,
}
use skiplist.Store.{Ptr, Link, clean, Callbacks, max_height, size_mod, Store}
use skiplist.Chain.{IsOrder, IsInner, IsList, Before, NotAfter, Sorted, StrictlySorted}
use skiplist.Chain.Levels.{
  Links, Links-frame, at_level, at_level-append, at_level_congr, at_level_zero, All-at_level,
  Ordered-at_level,
}
use skiplist.Chain.Splice.{SameBut, Links-insert, BackLinks-insert}
use skiplist.Chain.Place.{pred_at, succ_at, Cut}

module _ {E : Type 0} (s : Store E) (xs ys : List Ptr) (n : Ptr) where
  -- The forward pointers of `s` with `n` linked in at the levels up to `h`.
  abbrev pub Linked : (Ptr → ℕ → Link) → ℕ → Type 0
  Linked next' h = record {
    low :
        (i : ℕ)
        → i ≤ h
        → SameBut s.next next' s.tail i n (pred_at s xs i)
          × (next' (pred_at s xs i) i ≡ clean n)
          × (next' n i ≡ clean (succ_at s ys i));
    high : (i : ℕ) → h < i → (q : Ptr) → q ≢ n → next' q i ≡ s.next q i;
  }

  -- The heights, with the new node's, and the head's raised above it.
  abbrev pub Raised : (Ptr → ℕ) → ℕ → Type 0
  Raised height' h = record {
    new : height' n ≡ h;
    old : All (λ q. height' q ≡ s.height q) (xs ++ ys);
    above : h < height' s.head;
    grown : s.height s.head ≤ height' s.head;
    bound : height' s.head < max_height;
  }

  abbrev pub BackLinked : (Ptr → Ptr) → Type 0
  BackLinked prev' = record {
    new : prev' n ≡ pred_at s xs 0;
    after : prev' (succ_at s ys 0) ≡ n;
    same : (q : Ptr) → q ≢ n → q ≢ succ_at s ys 0 → prev' q ≡ s.prev q;
  }

module _ {E : Type 0} ⦃c : Callbacks E⦄ (order : IsOrder c) (s : Store E) (xs ys : List Ptr)
    (is : IsList s (xs ++ ys)) (n : Ptr) (new : IsInner s n) (fresh : NotIn n (xs ++ ys))
    (cut : Cut s xs ys n) (h : ℕ) where
  open is use {ends, inner}

  head_apart : NotIn s.head (xs ++ ys)
  head_apart = All-map (IsInner s) (xs ++ ys) (λ q i e. i.ne_head (sym e)) inner

  tail_apart : NotIn s.tail (xs ++ ys)
  tail_apart = All-map (IsInner s) (xs ++ ys) (λ q i e. i.ne_tail (sym e)) inner

  Links-inserted :
      (next' : Ptr → ℕ → Link) (height' : Ptr → ℕ)
      → Linked s xs ys n next' h
      → Raised s xs ys n height' h
      → (i : ℕ) → i < max_height
      → Links next' s.tail i s.head (at_level height' i (xs ++ n ∷ ys))
  Links-inserted next' height' l r i low =
      let both = at_level-append s.height i xs ys in
      let left =
        at_level_congr s.height height' i xs (All-left (λ q. height' q ≡ s.height q) xs ys r.old) in
      let right =
        at_level_congr s.height height' i ys
          (All-right (λ q. height' q ≡ s.height q) xs ys r.old) in
      let apart : Distinct (s.head ∷ at_level s.height i (xs ++ ys)) = (
        All-at_level s.height i (λ q. s.head ≢ q) (xs ++ ys) head_apart,
        Ordered-at_level s.height i ◌≢◌ (xs ++ ys) is.distinct,
      ) in
      let out : NotIn n (s.head ∷ at_level s.height i (xs ++ ys)) =
        (new.ne_head, All-at_level s.height i (λ q. n ≢ q) (xs ++ ys) fresh) in
      elim (Bool-cases (leb i h)) [
        | inl tall ↦
            let (same, e, f) = l.low i (ground arith) in
            rw (at_level-append height' i xs (n ∷ ys), r.new, tall, left, right)
              (Links-insert s.next next' s.tail i n s.head (at_level s.height i xs)
                (at_level s.height i ys) (rw both at apart) (rw both at out)
                (rw both at (is.links i low)) same e f)
        | inr short ↦
            let same = l.high i (ground arith) in
            rw (at_level-append height' i xs (n ∷ ys), r.new, short, left, right)
              (rw both at (
                Links-frame s.next s.tail i next' s.head (at_level s.height i (xs ++ ys))
                  (is.links i low)
                  (All-map (λ q. n ≢ q) (s.head ∷ at_level s.height i (xs ++ ys))
                    (λ q d. same q (λ e. d (sym e))) out)))
      ]

  -- No node of `ys` is equal to the new one.
  abbrev pub NoEqual : Type 0
  NoEqual = All (λ y. c.compare_entries (s.entry y) (s.entry n) ≢ Ordering.eq) ys

  strict-inserted : NoEqual → StrictlySorted s (xs ++ ys) → StrictlySorted s (xs ++ n ∷ ys)
  strict-inserted none sorted = Ordered-insert (Before s) xs ys n sorted cut.before (
      All-map (λ y. (¬ Before s y n) × (c.compare_entries (s.entry y) (s.entry n) ≢ Ordering.eq)) ys
        (λ y k. Before-of_after order s y n k.0 k.1)
        (All-pair (λ y. ¬ Before s y n) _ ys cut.rest none))

  Sorted-inserted : Sorted s (xs ++ n ∷ ys)
  Sorted-inserted =
      Ordered-insert (NotAfter s) xs ys n is.sorted
        (All-map (λ x. Before s x n) xs (λ x. NotAfter-of_Before order s x n) cut.before)
        (All-map (λ y. ¬ Before s y n) ys (λ y. NotAfter-of_not_Before order s y n) cut.rest)

  low-inserted :
      (height' : Ptr → ℕ)
      → Raised s xs ys n height' h
      → All (λ p. height' p < height' s.head) (xs ++ n ∷ ys)
  low-inserted height' r =
      All-insert (λ p. height' p < height' s.head) xs ys n
        (All-map (λ p. (height' p ≡ s.height p) × (s.height p < s.height s.head)) (xs ++ ys)
          (λ p k. omega (arith, k.0, k.1, r.grown))
          (All-pair (λ p. height' p ≡ s.height p) _ (xs ++ ys) r.old is.low))
        (omega (arith, r.new, r.above))

  -- The store with the new node linked in holds the list with it in its place.
  pub IsList-inserted :
      (next' : Ptr → ℕ → Link) (height' : Ptr → ℕ) (prev' : Ptr → Ptr) (dups : Bool)
      → Linked s xs ys n next' h
      → Raised s xs ys n height' h
      → BackLinked s xs ys n prev'
      → (dups ≡ false → (s.has_dups ≡ false) × NoEqual)
      → IsList
          (record s {
            next = next';
            height = height';
            prev = prev';
            length = (s.length + 1) % size_mod;
            has_dups = dups;
          })
          (xs ++ n ∷ ys)
  IsList-inserted next' height' prev' dups l r b unique = record {
    ends = record {
      head_live = ends.head_live;
      tail_live = ends.tail_live;
      head_ne_null = ends.head_ne_null;
      tail_ne_null = ends.tail_ne_null;
      head_ne_tail = ends.head_ne_tail;
      head_low = omega (arith, r.above);
      head_high = r.bound;
    };
    inner = All-insert (IsInner s) xs ys n inner new;
    distinct =
        Ordered-insert ◌≢◌ xs ys n is.distinct
          (All-map (λ q. n ≢ q) xs (λ q d e. d (sym e)) (All-left (λ q. n ≢ q) xs ys fresh))
          (All-right (λ q. n ≢ q) xs ys fresh);
    links = Links-inserted next' height' l r;
    back =
        BackLinks-insert s.prev prev' s.tail n s.head xs ys new.ne_tail fresh tail_apart is.distinct
          is.back (rw (at_level_zero s.height ys) at b.same)
          (rw (at_level_zero s.height xs) at b.new) (rw (at_level_zero s.height ys) at b.after);
    low = low-inserted height' r;
    sorted = Sorted-inserted;
    strict = λ e. strict-inserted (unique e).1 (is.strict (unique e).0);
    counted = omega (arith, is.counted, length-append xs ys, length-append xs (n ∷ ys));
  }
