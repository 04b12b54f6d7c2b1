-- ===== src/Access/Frame.antt =====
-- A list when the memory outside of its nodes changes.
use skiplist.Base.{◌≡◌, ◌∙◌, List, Bool, All, All-map, All-pair, Ordered-map_on}
use skiplist.Store.{Ptr, Callbacks, Store}
use skiplist.Chain.{IsInner, IsList, Before, NotAfter}

module _ {E : Type 0} ⦃c : Callbacks E⦄ (s : Store E) (zs : List Ptr) (is : IsList s zs)
    (live' : Ptr → Bool) (entry' : Ptr → E) where
  -- The allocation and the entries of the nodes and the sentinels are as before.
  pub frame-IsList :
      All (λ p. (live' p ≡ s.live p) × (entry' p ≡ s.entry p)) zs
      → live' s.head ≡ s.live s.head
      → live' s.tail ≡ s.live s.tail
      → IsList (record s { live = live'; entry = entry' }) zs
  frame-IsList same head tail =
      let t = record s { live = live'; entry = entry' } in
      record {
        ends = record {
          head_live = head ∙ is.ends.head_live;
          tail_live = tail ∙ is.ends.tail_live;
          head_ne_null = is.ends.head_ne_null;
          tail_ne_null = is.ends.tail_ne_null;
          head_ne_tail = is.ends.head_ne_tail;
          head_low = is.ends.head_low;
          head_high = is.ends.head_high;
        };
        inner =
            All-map (λ p. IsInner s p × ((live' p ≡ s.live p) × (entry' p ≡ s.entry p))) zs
              (λ p k. record {
                live = k.1.0 ∙ k.0.live;
                ne_null = k.0.ne_null;
                ne_head = k.0.ne_head;
                ne_tail = k.0.ne_tail;
              })
              (All-pair (IsInner s) (λ p. (live' p ≡ s.live p) × (entry' p ≡ s.entry p)) zs is.inner
                same);
        distinct = is.distinct;
        links = is.links;
        back = is.back;
        low = is.low;
        sorted =
            Ordered-map_on (λ p. (live' p ≡ s.live p) × (entry' p ≡ s.entry p)) (NotAfter s)
              (NotAfter t) (λ p q a b k. rw (a.1, b.1) k) zs same is.sorted;
        strict = λ e.
            Ordered-map_on (λ p. (live' p ≡ s.live p) × (entry' p ≡ s.entry p)) (Before s)
              (Before t) (λ p q a b k. rw (a.1, b.1) k) zs same (is.strict e);
        counted = is.counted;
      }
