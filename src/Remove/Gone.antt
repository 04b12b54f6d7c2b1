-- ===== src/Remove/Gone.antt =====
-- A node of a list taken out by skip_remove_node_, from its marks on.
use skiplist.Base.{
  ℕ, suc, ◌+◌, ◌-◌, ◌%◌, ◌≤◌, ◌<◌, ◌≡◌, ◌≢◌, ◌⊎◌, refl, sym, ap, ◌∙◌, List, [], ◌∷◌, ◌++◌, arith,
  length, length-append, All, All-map, All-pair, All-append, All-remove, Ordered-remove, NotIn,
  head_or, ==_self, ==_ne, inl, inr,
}
use skiplist.Store.{Ptr, Link, clean, marked, Callbacks, max_height, size_mod, Store, ok, update}
use skiplist.Store.Access.{load_height-ok}
use skiplist.Chain.{IsOrder, IsInner, IsList, NotAfter, Before}
use skiplist.Chain.Levels.{at_level-append, at_level_zero}
use skiplist.Chain.Splice.{BackLinks-at, BackLinks-remove}
use skiplist.Chain.Place.{succ_at}
use skiplist.Unlink.Around.{inner_node, inner_back, apart_front, apart_back, h_low, own_next}
use skiplist.Unlink.Sweep.{Marked, swept, swept-at, pred_apart, Links-all, unlink_fully_lem}
use skiplist.Insert.{done}
use skiplist.Remove.{take_out, shrink_head, adjust_hit_counts}
use skiplist.Remove.Marks.{
  marks, marks-at, all_marks, all_marks-at, mark_levels_lem, mark_bottom_lem,
}
use skiplist.Remove.Back.{
  BackLinks-behind, unlink_back_lem, live_without, live_without_other, disposed, dispose_lem,
}
use skiplist.Remove.Shrink.{Heights, shrink_lem}
use skiplist.Remove.Hits.{adjust_lem}

module _ {E : Type 0} ⦃c : Callbacks E⦄ (order : IsOrder c) (s : Store E) (xs ys : List Ptr)
    (n : Ptr) (is : IsList s (xs ++ n ∷ ys)) where
  open is use {ends}

  abbrev i_n : IsInner s n
  i_n = inner_node order s xs ys n is

  both_inner : All (IsInner s) (xs ++ ys)
  both_inner = All-remove (IsInner s) xs ys n is.inner

  both_apart : NotIn n (xs ++ ys)
  both_apart =
      All-append (λ q. n ≢ q) xs ys (apart_front order s xs ys n is) (apart_back order s xs ys n is)

  -- The store without the node holds the list without it.
  IsList-removed :
      (next' : Ptr → ℕ → Link) (g : Ptr → ℕ)
      → Heights
          (record s { next = next' })
          (xs ++ ys)
          both_inner
          ends.head_live
          ends.tail_live
          ends.head_ne_tail
          g
          (g s.head)
      → IsList
          (record s {
            live = live_without s n i_n.live;
            next = next';
            height = g;
            prev = update s.prev (head_or s.tail ys) (s.prev n);
            length = (s.length + (size_mod - 1)) % size_mod;
          })
          (xs ++ ys)
  IsList-removed next' g hs = record {
    ends = record {
      head_live =
          live_without_other s n i_n.live s.head (λ e. i_n.ne_head (sym e)) ∙ ends.head_live;
      tail_live =
          live_without_other s n i_n.live s.tail (λ e. i_n.ne_tail (sym e)) ∙ ends.tail_live;
      head_ne_null = ends.head_ne_null;
      tail_ne_null = ends.tail_ne_null;
      head_ne_tail = ends.head_ne_tail;
      head_low = hs.above;
      head_high = hs.bound;
    };
    inner =
        All-map (λ q. IsInner s q × (n ≢ q)) (xs ++ ys)
          (λ q k. record {
            live = live_without_other s n i_n.live q (λ e. k.1 (sym e)) ∙ k.0.live;
            ne_null = k.0.ne_null;
            ne_head = k.0.ne_head;
            ne_tail = k.0.ne_tail;
          })
          (All-pair (IsInner s) (λ q. n ≢ q) (xs ++ ys) both_inner both_apart);
    distinct = Ordered-remove ◌≢◌ xs ys n is.distinct;
    links = hs.links;
    back =
        BackLinks-remove s.prev (update s.prev (head_or s.tail ys) (s.prev n)) s.tail n s.head xs ys
          i_n.ne_tail (All-map (IsInner s) (xs ++ n ∷ ys) (λ q i e. i.ne_tail (sym e)) is.inner)
          is.distinct is.back (λ q d e. rw (==_ne e))
          (rw (==_self (head_or s.tail ys))
            (BackLinks-at s.prev s.tail s.head xs (n ∷ ys) is.back));
    low = hs.low;
    sorted = Ordered-remove (NotAfter s) xs ys n is.sorted;
    strict = λ e. Ordered-remove (Before s) xs ys n (is.strict e);
    counted =
        let old = is.counted in omega (arith, old, length-append xs (n ∷ ys), length-append xs ys);
  }

  module _ (f : ℕ) (enough : length (xs ++ n ∷ ys) ≤ suc f) where
    abbrev top : ℕ
    top = s.height s.head

    -- the pointers with the marks, and with the node unlinked
    abbrev marked_next : Ptr → ℕ → Link
    marked_next = all_marks n (succ_at s ys) s.next (s.height n)

    abbrev unlinked_next : Ptr → ℕ → Link
    unlinked_next = swept order s xs ys n is (suc f) enough marked_next (top + 1)

    marked_next-Marked : (count : ℕ) → Marked order s xs ys n is marked_next count
    marked_next-Marked count = record {
      same = λ j k q d. ground (arith, all_marks-at n (succ_at s ys) s.next (s.height n) q j);
      own = λ j k low. ground (arith, all_marks-at n (succ_at s ys) s.next (s.height n) n j);
    }

    own_below : (j : ℕ) → j ≤ s.height n → s.next n j ≡ clean (succ_at s ys j)
    own_below = own_next order s xs ys n is

    below_max : s.height n < max_height
    below_max = let mine = h_low order s xs ys n is in let high = ends.head_high in omega arith

    -- The node's own pointer stays marked.
    still_marked : unlinked_next n 0 ≡ marked (head_or s.tail ys)
    still_marked =
        let at = swept-at order s xs ys n is (suc f) enough marked_next (top + 1) n 0 in
        let apart = pred_apart order s xs ys n is (suc f) enough 0 in
        let own = (marked_next-Marked 1).own 0 (omega arith) (omega arith) in
        ground (arith, at, apart, own)
        ∙ ap (λ l. marked (head_or s.tail l)) (at_level_zero s.height ys)

    -- the stores on the way: unlinked, counted, with the heights `g`, without the node
    abbrev counted_store : Store E
    counted_store = record s {
      next = unlinked_next;
      prev = update s.prev (head_or s.tail ys) (s.prev n);
      length = (s.length + (size_mod - 1)) % size_mod;
    }

    abbrev shrunk_store : (Ptr → ℕ) → Store E
    shrunk_store g = record counted_store { height = g }

    abbrev pub gone : (Ptr → ℕ) → (Ptr → ℕ → ℕ) → Store E
    gone g k = record (disposed (shrunk_store g) n i_n.live) { hits = k }

    successor : (head_or s.tail ys ≡ s.tail) ⊎ IsInner s (head_or s.tail ys)
    successor = go ys (inner_back order s xs ys n is)
      where
        go :
            (l : List Ptr)
            → All (IsInner s) l
            → (head_or s.tail l ≡ s.tail) ⊎ IsInner s (head_or s.tail l)
        go [] inner = inl refl
        go (y ∷ l) inner = inr inner.0

    take_out_run :
        (tries : ℕ) (g : Ptr → ℕ) (k : Ptr → ℕ → ℕ)
        → shrink_head top counted_store ≡ ok tt (shrunk_store g)
        → adjust_hit_counts (suc (suc f)) (gone g s.hits) ≡ ok tt (gone g k)
        → take_out (suc tries) (suc (suc f)) n s ≡ ok done (gone g k)
    unfolding take_out
    take_out_run tries g k shrink adjust =
        let s₁ = record s { next = marks n (succ_at s ys) s.next (s.height n) } in
        let s₃ = record s { next = unlinked_next } in
        let bare : s₁.next n 0 ≡ clean (succ_at s ys 0) =
          (let old = own_below 0 (omega arith) in
            ground (arith, marks-at n (succ_at s ys) s.next (s.height n) n 0)) in
        rw (
          load_height-ok s n i_n.live,
          mark_levels_lem n (succ_at s ys) f (s.height n) s i_n.live below_max own_below,
          mark_bottom_lem n (succ_at s ys) (suc f) s₁ i_n.live bare,
          unlink_fully_lem order s xs ys n is (suc f) enough tries marked_next
              (marked_next-Marked (top + 1)),
          unlink_back_lem s₃ n i_n.live (head_or s.tail ys) ends.tail_live still_marked successor
              (BackLinks-behind s.prev s.tail s.head n xs ys is.back),
          load_height-ok counted_store s.head ends.head_live,
          shrink,
          dispose_lem (shrunk_store g) n i_n.live,
          adjust,
        )

    heights :
        Heights counted_store
          (xs ++ ys)
          both_inner
          ends.head_live
          ends.tail_live
          ends.head_ne_tail
          s.height
          top
    heights = record {
      top = refl;
      above = ends.head_low;
      bound = ends.head_high;
      low = All-remove (λ p. s.height p < top) xs ys n is.low;
      links = λ l k. rw (at_level-append s.height l xs ys) (
          Links-all order s xs ys n is (suc f) enough marked_next (marked_next-Marked max_height) l
            k);
    }

    -- The node is taken out: the list without it is left, in a store that differs in the pointers,
    -- the heights, the hit counts, the length and the node's disposal.
    pub take_out_lem :
        (tries : ℕ)
        → (g : Ptr → ℕ) × (k : Ptr → ℕ → ℕ) × (take_out (suc tries) (suc (suc f)) n s
            ≡ ok done (gone g k))
          × IsList (gone g k) (xs ++ ys)
    take_out_lem tries =
        let (g, shrink, shrunk) =
          shrink_lem counted_store (xs ++ ys) both_inner ends.head_live ends.tail_live
            ends.head_ne_tail top s.height heights in
        let list = IsList-removed unlinked_next g shrunk.heights in
        let high = shrunk.heights.bound in
        let (k, adjust) =
          adjust_lem (gone g s.hits) (suc f) (xs ++ ys)
            (omega (arith, length-append xs (n ∷ ys), length-append xs ys)) list.ends.head_live high
            list.inner
            (All-map (λ p. g p < g s.head) (xs ++ ys) (λ p low. omega arith) shrunk.heights.low)
            (rw (at_level_zero g (xs ++ ys)) at (list.links 0 (omega arith))) in
        (g, k, take_out_run tries g k shrink adjust, list)
