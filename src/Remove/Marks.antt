-- ===== src/Remove/Marks.antt =====
-- The marks of skip_remove_node_: on the forward pointers of the node, and on no others.
use skiplist.Base.{
  ℕ, zero, suc, ◌≤◌, ◌<◌, ◌≡◌, refl, arith, leb, ◌==◌, ◌&&◌, if◌then◌else◌, true, ==_self,
}
use skiplist.Store.{Ptr, Link, clean, marked, link_eq, max_height, Store, Callbacks, ok, update₂}
use skiplist.Store.Access.{load_next-ok, cas_next-won}
use skiplist.Remove.{mark_level, mark_levels, mark_bottom}

-- The node `n` has `own j` behind it at level `j`.
module _ (n : Ptr) (own : ℕ → Ptr) where
  -- one pointer marked, those at the levels from `h` down to 1, and those down to 0
  abbrev pub mark_one : (Ptr → ℕ → Link) → ℕ → Ptr → ℕ → Link
  mark_one next l = update₂ next n l (marked (own l))

  abbrev pub marks : (Ptr → ℕ → Link) → ℕ → Ptr → ℕ → Link
  marks next zero = next
  marks next (suc l) = marks (mark_one next (suc l)) l

  abbrev pub all_marks : (Ptr → ℕ → Link) → ℕ → Ptr → ℕ → Link
  all_marks next h = mark_one (marks next h) 0

  pub marks-at :
      (next : Ptr → ℕ → Link) (h : ℕ) (p : Ptr) (j : ℕ)
      → marks next h p j ≡ (if (p == n) && (leb 1 j && leb j h) then marked (own j) else next p j)
  marks-at next zero p j = ground arith
  marks-at next (suc l) p j = ground (arith, marks-at (mark_one next (suc l)) l p j)

  pub all_marks-at :
      (next : Ptr → ℕ → Link) (h : ℕ) (p : Ptr) (j : ℕ)
      → all_marks next h p j ≡ (if (p == n) && leb j h then marked (own j) else next p j)
  all_marks-at next h p j = ground (arith, marks-at next h p j)

  module _ {E : Type 0} ⦃c : Callbacks E⦄ (f : ℕ) where
    mark_level_lem :
        (s : Store E)
        → s.live n ≡ true
        → (l : ℕ) → l < max_height
        → s.next n l ≡ clean (own l)
        → mark_level (suc (suc f)) n l s ≡ ok tt (record s { next = mark_one s.next l })
    unfolding mark_level
    mark_level_lem s live l low e =
        let s' = record s { next = mark_one s.next l } in
        let same : link_eq (clean (own l)) (s.next n l) ≡ true = rw e (==_self (own l)) in
        let set : s'.next n l ≡ marked (own l) = ground arith in
        rw (
          load_next-ok s n live l low,
          e,
          cas_next-won s n live l low (clean (own l)) (marked (own l)) same,
          load_next-ok s' n live l low,
          set,
        )

    pub mark_levels_lem :
        (h : ℕ) (s : Store E)
        → s.live n ≡ true
        → h < max_height
        → ((j : ℕ) → j ≤ h → s.next n j ≡ clean (own j))
        → mark_levels (suc (suc f)) n h s ≡ ok tt (record s { next = marks s.next h })
    unfolding mark_levels
    mark_levels_lem zero s live low e = refl
    mark_levels_lem (suc l) s live low e =
        let s' = record s { next = mark_one s.next (suc l) } in
        rw (mark_level_lem s live (suc l) low (e (suc l) (omega arith))) (
          mark_levels_lem l s' live (omega arith)
            (λ j k. let old = e j (omega arith) in ground arith))

    pub mark_bottom_lem :
        (s : Store E)
        → s.live n ≡ true
        → s.next n 0 ≡ clean (own 0)
        → mark_bottom (suc f) n s ≡ ok true (record s { next = mark_one s.next 0 })
    unfolding mark_bottom
    mark_bottom_lem s live e =
        let same : link_eq (clean (own 0)) (s.next n 0) ≡ true = rw e (==_self (own 0)) in
        rw (
          load_next-ok s n live 0 (omega arith),
          e,
          cas_next-won s n live 0 (omega arith) (clean (own 0)) (marked (own 0)) same,
        )
