-- ===== src/Unlink/Around.antt =====
-- A node of a list with what is around it: the chains of the levels that it has, and of the others.
use skiplist.Base.{
  ℕ, ◌≤◌, ◌<◌, ◌≡◌, ◌≢◌, sym, List, ◌∷◌, ◌++◌, arith, All, All-map, All-left, All-right, NotIn,
  Distinct, Ordered-middle, leb, true, false,
}
use skiplist.Store.{Ptr, clean, Callbacks, max_height, Store}
use skiplist.Chain.{IsOrder, IsInner, IsList, NotAfter}
use skiplist.Chain.Levels.{
  Links, Links-first, Links-right, at_level, at_level-append, All-at_level, Ordered-at_level,
}
use skiplist.Chain.Place.{succ_at}

module _ {E : Type 0} ⦃c : Callbacks E⦄ (order : IsOrder c) (s : Store E) (xs ys : List Ptr)
    (n : Ptr) (is : IsList s (xs ++ n ∷ ys)) where
  open is use {ends}

  abbrev h : ℕ
  h = s.height n

  pub inner_node : IsInner s n
  inner_node = (All-right (IsInner s) xs (n ∷ ys) is.inner).0

  pub inner_front : All (IsInner s) xs
  inner_front = All-left (IsInner s) xs (n ∷ ys) is.inner

  pub inner_back : All (IsInner s) ys
  inner_back = (All-right (IsInner s) xs (n ∷ ys) is.inner).1

  pub apart_front : NotIn n xs
  apart_front =
      All-map (λ x. x ≢ n) xs (λ x d e. d (sym e)) (Ordered-middle ◌≢◌ xs ys n is.distinct).0

  pub apart_back : NotIn n ys
  apart_back = (Ordered-middle ◌≢◌ xs ys n is.distinct).1

  pub not_after : All (λ x. NotAfter s x n) xs
  not_after = (Ordered-middle (NotAfter s) xs ys n is.sorted).0

  pub h_low : h < s.height s.head
  h_low = (All-right (λ p. s.height p < s.height s.head) xs (n ∷ ys) is.low).0

  -- The chain at a level that the node has, and at another one.
  pub tall-Links :
      (l : ℕ)
      → l ≤ h
      → Links s.next s.tail l s.head (at_level s.height l xs ++ n ∷ at_level s.height l ys)
  tall-Links l low =
      let tall : leb l (s.height n) ≡ true = ground arith in
      rw (at_level-append s.height l xs (n ∷ ys), tall) at
        (is.links l (let high = ends.head_high in let mine = h_low in omega arith))

  pub short-Links :
      (l : ℕ)
      → l < max_height
      → h < l
      → Links s.next s.tail l s.head (at_level s.height l xs ++ at_level s.height l ys)
  short-Links l low high =
      let short : leb l (s.height n) ≡ false = ground arith in
      rw (at_level-append s.height l xs (n ∷ ys), short) at (is.links l low)

  pub tall_apart :
      (l : ℕ) → l ≤ h → Distinct (s.head ∷ at_level s.height l xs ++ n ∷ at_level s.height l ys)
  tall_apart l low =
      let tall : leb l (s.height n) ≡ true = ground arith in
      let all : Distinct (s.head ∷ at_level s.height l (xs ++ n ∷ ys)) = (
        All-at_level s.height l (λ q. s.head ≢ q) (xs ++ n ∷ ys)
            (All-map (IsInner s) (xs ++ n ∷ ys) (λ q i e. i.ne_head (sym e)) is.inner),
        Ordered-at_level s.height l ◌≢◌ (xs ++ n ∷ ys) is.distinct,
      ) in
      rw (at_level-append s.height l xs (n ∷ ys), tall) at all

  -- The node's own pointer.
  pub own_next : (l : ℕ) → l ≤ h → s.next n l ≡ clean (succ_at s ys l)
  own_next l low =
      Links-first s.next s.tail l n (at_level s.height l ys)
        (Links-right s.next s.tail l s.head (at_level s.height l xs) (n ∷ at_level s.height l ys)
          (tall-Links l low)).1
