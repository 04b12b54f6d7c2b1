-- ===== src/Unlink/Level.antt =====
-- The walks of `_skip_unlink_fully_` along one level.
use skiplist.Base.{
  ℕ, zero, suc, ◌<◌, ◌≡◌, ◌||◌, List, [], ◌∷◌, arith, ap, length, All, NotIn, last_or, head_or,
  true, false, ==_self, ◌==◌, inl, inr, Ordering-cases,
}
use skiplist.Store.{
  Ptr, null, clean, marked, unmark, link_eq, Callbacks, max_height, Store, ok, update₂,
}
use skiplist.Store.Access.{load_next-ok, cas_next-won}
use skiplist.Chain.{IsOrder, IsInner, NotAfter, Sentinels}
use skiplist.Chain.Levels.{Links, Links-first}
use skiplist.Search.Compare.{compare_nodes-inner}
use skiplist.Unlink.{sweep_level, reaches}

module _ {E : Type 0} ⦃c : Callbacks E⦄ (order : IsOrder c) (s : Store E) (ends : Sentinels s)
    (n : Ptr) (inner_n : IsInner s n) (l : ℕ) (low : l < max_height) where
  inside : (p : Ptr) → IsInner s p → ((p == s.tail) || (p == null)) ≡ false
  inside p i = ground (arith, i.ne_tail, i.ne_null)

  at_end : ((s.tail == s.tail) || (s.tail == null)) ≡ true
  at_end = ground (arith, ==_self s.tail)

  -- The sweep comes to the node and links its predecessor to what the node's own pointer says.
  pub sweep_to :
      (q : Ptr)
      → s.next n l ≡ marked q
      → (f : ℕ) (p : Ptr) (vs : List Ptr) → length vs < f
      → s.live p ≡ true
      → All (IsInner s) vs
      → NotIn n vs
      → All (λ v. NotAfter s v n) vs
      → Links s.next n l p vs
      → sweep_level f n l p (head_or n vs) s
        ≡ ok false (record s { next = update₂ s.next (last_or p vs) l (clean q) })
  unfolding sweep_level
  sweep_to q own zero p vs fuel live inner apart before links = absurd (omega arith)
  sweep_to q own (suc f) p [] fuel live inner apart before links =
      let same : link_eq (clean n) (s.next p l) ≡ true = rw links (==_self n) in
      rw (
        inside n inner_n,
        ==_self n,
        load_next-ok s n inner_n.live l low,
        own,
        cas_next-won s p live l low (clean n) (clean q) same,
      )
  sweep_to q own (suc f) p (v ∷ vs) fuel live inner apart before links =
      let rest =
        sweep_to q own f v vs (omega arith) inner.0.live inner.1 apart.1 before.1 links.1 in
      let ne : (v == n) ≡ false = ground (arith, apart.0) in
      rw
        (
          inside v inner.0,
          ne,
          load_next-ok s v inner.0.live l low,
          Links-first s.next n l v vs links.1,
          compare_nodes-inner s order v n inner.0 inner_n,
        )
        (elim (Ordering-cases (c.compare_entries (s.entry v) (s.entry n))) [
          | inl e ↦ rw e rest
          | inr (inl e) ↦ rw e rest
          | inr (inr e) ↦ absurd (before.0 e)
        ])

  -- The sweep of a level without the node changes nothing.
  pub sweep_past :
      (f : ℕ) (p : Ptr) (ws : List Ptr)
      → length ws < f
      → All (IsInner s) ws
      → NotIn n ws
      → Links s.next s.tail l p ws
      → sweep_level f n l p (head_or s.tail ws) s ≡ ok false s
  unfolding sweep_level
  sweep_past zero p ws fuel inner apart links = absurd (omega arith)
  sweep_past (suc f) p [] fuel inner apart links = rw at_end
  sweep_past (suc f) p (w ∷ ws) fuel inner apart links =
      let rest = sweep_past f w ws (omega arith) inner.1 apart.1 links.1 in
      let ne : (w == n) ≡ false = ground (arith, apart.0) in
      rw
        (
          inside w inner.0,
          ne,
          load_next-ok s w inner.0.live l low,
          Links-first s.next s.tail l w ws links.1,
          compare_nodes-inner s order w n inner.0 inner_n,
        )
        (elim (Ordering-cases (c.compare_entries (s.entry w) (s.entry n))) [
          | inl e ↦ rw e rest
          | inr (inl e) ↦ rw e rest
          | inr (inr e) ↦ rw e
        ])

  -- So does the verification.
  pub reaches_past :
      (f : ℕ) (p : Ptr) (ws : List Ptr)
      → length ws < f
      → All (IsInner s) ws
      → NotIn n ws
      → Links s.next s.tail l p ws
      → reaches f n l (head_or s.tail ws) s ≡ ok false s
  unfolding reaches
  reaches_past zero p ws fuel inner apart links = absurd (omega arith)
  reaches_past (suc f) p [] fuel inner apart links = rw at_end
  reaches_past (suc f) p (w ∷ ws) fuel inner apart links =
      let rest = reaches_past f w ws (omega arith) inner.1 apart.1 links.1 in
      let ne : (w == n) ≡ false = ground (arith, apart.0) in
      let first = ap unmark (Links-first s.next s.tail l w ws links.1) in
      rw (inside w inner.0, ne, compare_nodes-inner s order w n inner.0 inner_n)
        (elim (Ordering-cases (c.compare_entries (s.entry w) (s.entry n))) [
          | inl e ↦ rw (e, load_next-ok s w inner.0.live l low, first) rest
          | inr (inl e) ↦ rw (e, load_next-ok s w inner.0.live l low, first) rest
          | inr (inr e) ↦ rw e
        ])
