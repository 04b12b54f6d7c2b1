-- ===== src/Access/Fresh.antt =====
-- A list when a node outside of it changes.
use skiplist.Base.{
  ℕ, ◌<◌, ◌≡◌, ◌≢◌, sym, ap, ◌∙◌, List, Bool, All-map, All-pair, Ordered-map_on, NotIn, ==_ne,
}
use skiplist.Store.{Ptr, Link, Callbacks, Store, update}
use skiplist.Chain.{IsInner, IsList, Before, NotAfter}
use skiplist.Chain.Splice.{BackLinks-frame}
use skiplist.Chain.Levels.{Links-frame, at_level, at_level_congr, All-at_level}

module _ {E : Type 0} ⦃c : Callbacks E⦄ (s : Store E) (zs : List Ptr) (is : IsList s zs) (n : Ptr)
    (ne_head : n ≢ s.head) (ne_tail : n ≢ s.tail) (fresh : NotIn n zs) (live : Bool) (entry : E)
    (height : ℕ) (prev : Ptr) (next : ℕ → Link) where
  -- The node `n` has these fields.
  abbrev pub rewritten : Store E
  rewritten = record s {
    live = update s.live n live;
    entry = update s.entry n entry;
    height = update s.height n height;
    prev = update s.prev n prev;
    next = update s.next n next;
  }

  same : {A : Type 0} (f : Ptr → A) (v : A) (p : Ptr) → n ≢ p → update f n v p ≡ f p
  same f v p d = rw (==_ne (λ e. d (sym e)))

  head_same : {A : Type 0} (f : Ptr → A) (v : A) → update f n v s.head ≡ f s.head
  head_same f v = same f v s.head ne_head

  pub rewritten-IsList : IsList rewritten zs
  rewritten-IsList = record {
    ends = record {
      head_live = head_same s.live live ∙ is.ends.head_live;
      tail_live = same s.live live s.tail ne_tail ∙ is.ends.tail_live;
      head_ne_null = is.ends.head_ne_null;
      tail_ne_null = is.ends.tail_ne_null;
      head_ne_tail = is.ends.head_ne_tail;
      head_low = rw (head_same s.height height) is.ends.head_low;
      head_high = rw (head_same s.height height) is.ends.head_high;
    };
    inner =
        All-map (λ p. IsInner s p × (n ≢ p)) zs
          (λ p k. record {
            live = same s.live live p k.1 ∙ k.0.live;
            ne_null = k.0.ne_null;
            ne_head = k.0.ne_head;
            ne_tail = k.0.ne_tail;
          })
          (All-pair (IsInner s) (λ p. n ≢ p) zs is.inner fresh);
    distinct = is.distinct;
    links = λ i low.
        rw
          (at_level_congr s.height (update s.height n height) i zs
            (All-map (λ p. n ≢ p) zs (λ p d. same s.height height p d) fresh))
          (Links-frame s.next s.tail i (update s.next n next) s.head (at_level s.height i zs)
            (is.links i low)
            (
              ap (λ f. f i) (head_same s.next next),
              All-at_level s.height i (λ q. update s.next n next q i ≡ s.next q i) zs
                  (All-map (λ p. n ≢ p) zs (λ p d. ap (λ f. f i) (same s.next next p d)) fresh),
            ));
    back =
        BackLinks-frame s.prev (update s.prev n prev) s.tail n s.head zs is.back
          (same s.prev prev s.tail ne_tail)
          (All-map (λ p. n ≢ p) zs (λ p d. same s.prev prev p d) fresh);
    low =
        All-map (λ p. (s.height p < s.height s.head) × (n ≢ p)) zs
          (λ p k. rw (same s.height height p k.1, head_same s.height height) k.0)
          (All-pair (λ p. s.height p < s.height s.head) (λ p. n ≢ p) zs is.low fresh);
    sorted =
        Ordered-map_on (λ p. n ≢ p) (NotAfter s) (NotAfter rewritten)
          (λ p q a b k. rw (same s.entry entry p a, same s.entry entry q b) k) zs fresh is.sorted;
    strict = λ e.
        Ordered-map_on (λ p. n ≢ p) (Before s) (Before rewritten)
          (λ p q a b k. rw (same s.entry entry p a, same s.entry entry q b) k) zs fresh
          (is.strict e);
    counted = is.counted;
  }
