-- ===== src/Search/Seek.antt =====
-- The walk along one level, and the descent through the levels, on the memory of a list.
use skiplist.Base.{
  ℕ, zero, suc, ◌<◌, ◌≡◌, ◌≢◌, Ordering-cases, inl, inr, List, [], ◌∷◌, ◌++◌, arith, length, All,
  last_or, head_or, All-head_or, All-map, ==_self, ==_ne,
}
use skiplist.Store.{Ptr, null, Callbacks, max_height, Store, ok}
use skiplist.Store.Access.{load_next-ok}
use skiplist.Chain.{IsOrder, IsInner, Before, Sentinels}
use skiplist.Chain.Levels.{Links, Links-first}
use skiplist.Search.{seek, arrived}
use skiplist.Search.Compare.{compare_nodes-inner, compare_nodes-tail}

module _ {E : Type 0} ⦃c : Callbacks E⦄ (order : IsOrder c) (s : Store E) (ends : Sentinels s)
    (n : Ptr) (query : IsInner s n) (i : ℕ) (low : i < max_height) where
  -- The walk passes the nodes before the query, and stops at the first of the others.
  pub seek-Links :
      (f : ℕ) (p : Ptr) (vs bs : List Ptr)
      → length vs < f
      → All (IsInner s) (vs ++ bs)
      → All (λ v. Before s v n) vs
      → All (λ b. ¬ Before s b n) bs
      → Links s.next s.tail i p (vs ++ bs)
      → seek f n i p (head_or s.tail (vs ++ bs)) s
        ≡ ok (arrived (last_or p vs, head_or s.tail bs)) s
  unfolding seek
  seek-Links zero p vs bs fuel inner before rest links = absurd (omega arith)
  seek-Links (suc f) p [] [] fuel inner before rest links =
      rw (==_self s.tail, compare_nodes-tail s n ends query)
  seek-Links (suc f) p [] (b ∷ bs) fuel inner before rest links =
      rw
        (
          ==_ne (inner.0.ne_tail),
          load_next-ok s b inner.0.live i low,
          Links-first s.next s.tail i b bs links.1,
          compare_nodes-inner s order b n inner.0 query,
        )
        (elim (Ordering-cases (c.compare_entries (s.entry b) (s.entry n))) [
          | inl e ↦ absurd (rest.0 e)
          | inr (inl e) ↦ rw e
          | inr (inr e) ↦ rw e
        ])
  seek-Links (suc f) p (v ∷ vs) bs fuel inner before rest links =
      let after : head_or s.tail (vs ++ bs) ≢ null =
        All-head_or (λ q. q ≢ null) s.tail (vs ++ bs) ends.tail_ne_null
          (All-map (IsInner s) (vs ++ bs) (λ q h. h.ne_null) inner.1) in
      rw
        (
          ==_ne (inner.0.ne_tail),
          load_next-ok s v inner.0.live i low,
          Links-first s.next s.tail i v (vs ++ bs) links.1,
          compare_nodes-inner s order v n inner.0 query,
          before.0,
          ==_ne after,
        )
        (seek-Links f v vs bs (omega arith) inner.1 before.1 rest links.1)
