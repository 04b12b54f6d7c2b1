-- ===== src/Store/Access.antt =====
-- The accesses succeed on allocated nodes and levels in range.
use skiplist.Base.{ℕ, ◌+◌, ◌%◌, ◌<◌, ◌≡◌, refl, true, false, ==_self, lt→ltb}
use skiplist.Store.{
  Ptr, Link, clean, marked, is_marked, max_height, size_mod, Store, ok, update, update₂, link_eq,
  load_next, store_next, cas_next, load_height, store_height, load_prev, store_prev, cas_prev,
  store_hits, add_hit, load_hits,
}

pub clean-of_unmarked : (l : Link) → is_marked l ≡ false → (q : Ptr) × (l ≡ clean q)
clean-of_unmarked (clean q) m = (q, refl)
clean-of_unmarked (marked q) m = cc

module _ {E : Type 0} (s : Store E) (p : Ptr) (live : s.live p ≡ true) where
  pub load_height-ok : load_height p s ≡ ok (s.height p) s
  unfolding load_height
  load_height-ok = rw live

  pub store_height-ok :
      (h : ℕ) → store_height p h s ≡ ok tt (record s { height = update s.height p h })
  unfolding store_height
  store_height-ok h = rw live

  pub load_prev-ok : load_prev p s ≡ ok (s.prev p) s
  unfolding load_prev
  load_prev-ok = rw live

  pub store_prev-ok : (q : Ptr) → store_prev p q s ≡ ok tt (record s { prev = update s.prev p q })
  unfolding store_prev
  store_prev-ok q = rw live

  pub cas_prev-won :
      (q r : Ptr)
      → s.prev p ≡ q
      → cas_prev p q r s ≡ ok true (record s { prev = update s.prev p r })
  unfolding cas_prev
  cas_prev-won q r e = rw (live, e, ==_self q, live)

  module _ (i : ℕ) (low : i < max_height) where
    pub load_next-ok : load_next p i s ≡ ok (s.next p i) s
    unfolding load_next
    load_next-ok = rw (live, lt→ltb i max_height low)

    pub store_next-ok :
        (l : Link) → store_next p i l s ≡ ok tt (record s { next = update₂ s.next p i l })
    unfolding store_next
    store_next-ok l = rw (live, lt→ltb i max_height low)

    pub cas_next-won :
        (old new : Link)
        → link_eq old (s.next p i) ≡ true
        → cas_next p i old new s ≡ ok true (record s { next = update₂ s.next p i new })
    unfolding cas_next
    cas_next-won old new e = rw (live, lt→ltb i max_height low, e, live, lt→ltb i max_height low)

    pub add_hit-ok :
        add_hit p i s ≡ ok tt (record s { hits = update₂ s.hits p i ((s.hits p i + 1) % size_mod) })
    unfolding add_hit
    add_hit-ok = rw (live, lt→ltb i max_height low)

    pub store_hits-ok :
        (n : ℕ) → store_hits p i n s ≡ ok tt (record s { hits = update₂ s.hits p i n })
    unfolding store_hits
    store_hits-ok n = rw (live, lt→ltb i max_height low)

    pub load_hits-ok : load_hits p i s ≡ ok (s.hits p i) s
    unfolding load_hits
    load_hits-ok = rw (live, lt→ltb i max_height low)
