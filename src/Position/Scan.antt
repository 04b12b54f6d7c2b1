-- ===== src/Position/Scan.antt =====
-- The scan of the cursors along level 0.
use Prim.Native.Nat.{Ordering}
use skiplist.Base.{
  ap, ℕ, zero, suc, ◌<◌, ◌≡◌, ◌||◌, List, [], ◌∷◌, ◌++◌, arith, length, All, head_or, true, false,
  Bool, ==_self, ◌==◌,
}
use skiplist.Store.{Ptr, null, Callbacks, Store, ok, unmark}
use skiplist.Store.Access.{load_next-ok}
use skiplist.Chain.{IsOrder, IsInner, Sentinels}
use skiplist.Chain.Levels.{Links, Links-first}
use skiplist.Search.Compare.{compare_nodes-inner}
use skiplist.Position.{scan}

module _ {E : Type 0} ⦃c : Callbacks E⦄ (order : IsOrder c) (s : Store E) (ends : Sentinels s)
    (n : Ptr) (query : IsInner s n) (stop : Ordering → Bool) where
  -- the nodes at which the scan stops, and those it passes
  abbrev pub Stops : Bool → Ptr → Type 0
  Stops b p = stop (c.compare_entries (s.entry p) (s.entry n)) ≡ b

  -- The scan passes the nodes that do not stop it, and ends at the first of the others or the tail.
  pub scan_lem :
      (f : ℕ) (p : Ptr) (es zs : List Ptr)
      → length es < f
      → s.live p ≡ true
      → All (IsInner s) (es ++ zs)
      → All (Stops false) es
      → All (Stops true) zs
      → Links s.next s.tail 0 p (es ++ zs)
      → scan stop f n p s ≡ ok (head_or s.tail zs) s
  unfolding scan
  scan_lem zero p es zs fuel live inner pass end links = absurd (omega arith)
  scan_lem (suc f) p [] [] fuel live inner pass end links =
      let last : ((s.tail == null) || (s.tail == s.tail)) ≡ true = ground (arith, ==_self s.tail) in
      rw (load_next-ok s p live 0 (omega arith), links, last)
  scan_lem (suc f) p [] (z ∷ zs) fuel live inner pass end links =
      let more : ((z == null) || (z == s.tail)) ≡ false =
        ground (arith, inner.0.ne_null, inner.0.ne_tail) in
      let first = ap unmark links.0 in
      rw (
        load_next-ok s p live 0 (omega arith),
        links.0,
        more,
        load_next-ok s z inner.0.live 0 (omega arith),
        Links-first s.next s.tail 0 z zs links.1,
        first,
        compare_nodes-inner s order z n inner.0 query,
        end.0,
        first,
      )
  scan_lem (suc f) p (e ∷ es) zs fuel live inner pass end links =
      let more : ((e == null) || (e == s.tail)) ≡ false =
        ground (arith, inner.0.ne_null, inner.0.ne_tail) in
      let first = ap unmark links.0 in
      rw
        (
          load_next-ok s p live 0 (omega arith),
          links.0,
          more,
          load_next-ok s e inner.0.live 0 (omega arith),
          Links-first s.next s.tail 0 e (es ++ zs) links.1,
          first,
          compare_nodes-inner s order e n inner.0 query,
          pass.0,
          first,
        )
        (scan_lem f e es zs (omega arith) inner.0.live inner.1 pass.1 end links.1)
