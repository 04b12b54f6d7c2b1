-- ===== src/Integrity/Nodes.antt =====
-- The checks of a node next to its neighbours find no error in a well-formed list.
use Prim.Native.Nat.{Ordering}
use skiplist.Base.{
  ℕ, zero, suc, ◌+◌, ◌<◌, ◌≡◌, ◌≢◌, refl, sym, subst, arith, Bool, true, false, ltb, leb, ◌==◌,
  ==_ne, ==_self, List, [], ◌∷◌, ◌++◌, length, append_assoc, All, All-map, All-pair, All-left,
  All-right, All-head_or, All-last_or, Ordered-middle, last_or,
}
use skiplist.Store.{Ptr, null, Callbacks, max_height, Store, ok, load_prev, load_height}
use skiplist.Store.Access.{load_next-ok}
use skiplist.Chain.{IsOrder, IsInner, IsList, NotAfter}
use skiplist.Chain.Levels.{Links, Links-first, Links-right, at_level, at_level-append, All-at_level}
use skiplist.Chain.Splice.{BackLinks-at}
use skiplist.Chain.Place.{succ_at}
use skiplist.Search.{compare_nodes}
use skiplist.Search.Compare.{compare_nodes-inner}
use skiplist.Integrity.{on, is_lt, is_gt, check_order, check_node, check_nodes}
use skiplist.Integrity.Levels.{Next, node_levels_lem}

module _ {E : Type 0} ⦃c : Callbacks E⦄ (order : IsOrder c) (s : Store E) where
  -- What `_skip_compare_nodes_` gives for two nodes of which the first is not behind the second.
  abbrev InOrder : Ptr → Ptr → Type 0
  InOrder p q =
      (o : Ordering) × (o' : Ordering) × (compare_nodes p q s ≡ ok o s)
      × (compare_nodes q p s ≡ ok o' s)
      × (is_gt o ≡ false)
      × (is_lt o' ≡ false)

  not_gt : (o : Ordering) → o ≢ Ordering.gt → is_gt o ≡ false
  not_gt Ordering.lt ne = refl
  not_gt Ordering.eq ne = refl
  not_gt Ordering.gt ne = absurd (ne refl)

  not_lt : (o : Ordering) → o ≢ Ordering.lt → is_lt o ≡ false
  not_lt Ordering.lt ne = absurd (ne refl)
  not_lt Ordering.eq ne = refl
  not_lt Ordering.gt ne = refl

  InOrder-of_inner : (p q : Ptr) → IsInner s p × IsInner s q × NotAfter s p q → InOrder p q
  InOrder-of_inner p q (ip, iq, before) = (
    c.compare_entries (s.entry p) (s.entry q),
    c.compare_entries (s.entry q) (s.entry p),
    compare_nodes-inner s order p q ip iq,
    compare_nodes-inner s order q p iq ip,
    not_gt _ before,
    not_lt _ (λ e. before (order.gt_of_lt (s.entry q) (s.entry p) e)),
  )

  InOrder-of_head : (q : Ptr) → s.head ≢ null → s.head ≢ s.tail → IsInner s q → InOrder s.head q
  unfolding compare_nodes
  InOrder-of_head q some apart iq = (
    Ordering.lt,
    Ordering.gt,
    rw (==_ne (λ e. iq.ne_head (sym e)), ==_ne some, ==_ne iq.ne_null, ==_self s.head) refl,
    rw
        (
          ==_ne iq.ne_head,
          ==_ne iq.ne_null,
          ==_ne some,
          ==_ne apart,
          ==_ne iq.ne_tail,
          ==_self s.head,
        )
        refl,
    refl,
    refl,
  )

  InOrder-of_tail : (p : Ptr) → s.tail ≢ null → s.head ≢ s.tail → IsInner s p → InOrder p s.tail
  unfolding compare_nodes
  InOrder-of_tail p some apart ip = (
    Ordering.lt,
    Ordering.gt,
    rw (==_ne ip.ne_tail, ==_ne ip.ne_null, ==_ne some, ==_ne ip.ne_head, ==_self s.tail) refl,
    rw
        (
          ==_ne (λ e. ip.ne_tail (sym e)),
          ==_ne some,
          ==_ne ip.ne_null,
          ==_ne (λ e. apart (sym e)),
          ==_ne ip.ne_tail,
          ==_self s.tail,
        )
        refl,
    refl,
    refl,
  )

  module _ (xs ys : List Ptr) (n : Ptr) (is : IsList s (xs ++ n ∷ ys)) (early skip : Bool) where
    inner : IsInner s n
    inner = (All-right (IsInner s) xs (n ∷ ys) is.inner).0

    inner_behind : All (IsInner s) ys
    inner_behind = (All-right (IsInner s) xs (n ∷ ys) is.inner).1

    sides : All (λ x. NotAfter s x n) xs × All (NotAfter s n) ys
    sides = Ordered-middle (NotAfter s) xs ys n is.sorted

    -- its pointers up to its height
    Next-node : (i : ℕ) → i < s.height n + 1 → i < max_height → Next s n ys i
    Next-node i tall low =
        let all = rw (at_level-append s.height i xs (n ∷ ys)) at (is.links i low) in
        let here =
          Links-right s.next s.tail i s.head (at_level s.height i xs) (at_level s.height i (n ∷ ys))
            all in
        let up : leb i (s.height n) ≡ true = ground arith in
        Links-first s.next s.tail i n (at_level s.height i ys) (rw up at here).1

    next-InOrder : InOrder n (succ_at s ys 0)
    next-InOrder =
        All-head_or (InOrder n) s.tail (at_level s.height 0 ys)
          (InOrder-of_tail n is.ends.tail_ne_null is.ends.head_ne_tail inner)
          (All-at_level s.height 0 (InOrder n) ys (
            All-map (λ y. IsInner s y × NotAfter s n y) ys
              (λ y k. InOrder-of_inner n y (inner, k.0, k.1))
              (All-pair (IsInner s) (NotAfter s n) ys inner_behind sides.1)))

    prev-InOrder : InOrder (last_or s.head xs) n
    prev-InOrder =
        All-last_or (λ p. InOrder p n) s.head xs
          (InOrder-of_head n is.ends.head_ne_null is.ends.head_ne_tail inner)
          (All-map (λ x. IsInner s x × NotAfter s x n) xs
            (λ x k. InOrder-of_inner x n (k.0, inner, k.1))
            (All-pair (IsInner s) (λ x. NotAfter s x n) xs
              (All-left (IsInner s) xs (n ∷ ys) is.inner) sides.0))

    prev-node : s.prev n ≡ last_or s.head xs
    prev-node = BackLinks-at s.prev s.tail s.head xs (n ∷ ys) is.back

    low : s.height n < s.height s.head
    low = (All-right (λ p. s.height p < s.height s.head) xs (n ∷ ys) is.low).0

    compare_nodes_self : compare_nodes n n s ≡ ok Ordering.eq s
    unfolding compare_nodes
    compare_nodes_self = rw (==_self n)

    check_order_lem : (n_err : ℕ) → check_order early n n_err s ≡ ok (on n_err) s
    unfolding check_order load_prev
    check_order_lem n_err =
        let high = is.ends.head_high in
        let (_, _, before, after, not_behind, not_ahead) = next-InOrder in
        let (_, _, ahead, behind, not_behind', not_ahead') = prev-InOrder in
        rw (
          load_next-ok s n inner.live 0 (omega arith),
          Next-node 0 (omega arith) (omega arith),
          inner.live,
          prev-node,
          compare_nodes_self,
          behind,
          not_ahead',
          before,
          not_behind,
          ahead,
          not_behind',
          after,
          not_ahead,
        )

    prev-ne-null : last_or s.head xs ≢ null
    prev-ne-null =
        All-last_or (λ p. p ≢ null) s.head xs is.ends.head_ne_null
          (All-map (IsInner s) xs (λ x k. k.ne_null) (All-left (IsInner s) xs (n ∷ ys) is.inner))

    check_node_lem :
        (n_err : ℕ) → check_node early skip (s.height s.head) n n_err s ≡ ok (on n_err) s
    unfolding check_node load_height load_prev
    check_node_lem n_err =
        let high = is.ends.head_high in
        let below = low in
        let not_above : ltb (s.height s.head) (s.height n) ≡ false = ground arith in
        let not_out : leb max_height (s.height n) ≡ false = ground arith in
        let levels =
          node_levels_lem s n inner.live ys is.ends.tail_ne_null inner_behind (s.height n + 1)
            (λ i tall. Next-node i tall (omega (arith, tall, low, high))) (omega (arith, low, high))
            early skip (s.height n + 1) 0 n_err (omega arith) in
        rw (inner.live, not_above, not_out, prev-node, inner.live, ==_ne prev-ne-null, levels)
          (check_order_lem n_err)

  module _ (early skip : Bool) where
    -- The nodes `ws` behind `p`, with `xs` before them.
    pub check_nodes_lem :
        (ws xs : List Ptr) (p : Ptr) (fuel nth n_err : ℕ)
        → IsList s (xs ++ ws)
        → s.live p ≡ true
        → Links s.next s.tail 0 p ws
        → nth + length ws ≡ s.length
        → length ws < fuel
        → check_nodes fuel early skip (s.height s.head) s.length nth p n_err s ≡ ok (on n_err) s
    unfolding check_nodes
    check_nodes_lem ws xs p zero nth n_err is live links count enough =
        absurd (omega (arith, enough))
    check_nodes_lem [] xs p (suc fuel) nth n_err is live links count enough =
        let same : s.length == nth ≡ true = ground arith in
        rw (load_next-ok s p live 0 (omega arith), links, ==_self s.tail, same)
    check_nodes_lem (w ∷ ws) xs p (suc fuel) nth n_err is live links count enough =
        let iw : IsInner s w = (All-right (IsInner s) xs (w ∷ ws) is.inner).0 in
        let short : ltb (s.length + 2) nth ≡ false = ground arith in
        rw
          (
            load_next-ok s p live 0 (omega arith),
            links.0,
            ==_ne iw.ne_tail,
            short,
            check_node_lem xs ws w is early skip n_err,
          )
          (check_nodes_lem ws (xs ++ w ∷ []) w fuel (nth + 1) n_err
            (subst (IsList s) (sym (append_assoc xs (w ∷ []) ws)) is) iw.live links.1
            (omega (arith, count)) (omega (arith, enough)))
