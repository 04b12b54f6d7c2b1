-- ===== src/Integrity/Sound.antt =====
-- The whole check of a well-formed list.
use native.Mathlib.Nat.{mod-eq_of_lt}
use skiplist.Base.{
  lt→ltb, Bool-cases, All-map, All-last_or, ℕ, ◌+◌, ◌/◌, ◌%◌, ◌<◌, ◌≡◌, ◌≢◌, inl, inr, refl, ◌∙◌,
  arith, false, not, ◌&&◌, ltb, leb, ◌==◌, ==_ne, ==_self, List, [], ◌∷◌, length, All, last_or,
}
use skiplist.Store.{Ptr, Callbacks, max_height, size_mod, Store, ok, load_prev, load_height}
use skiplist.Chain.{IsOrder, IsInner, IsList}
use skiplist.Chain.Edges.{BackLinks-tail}
use skiplist.Chain.Levels.{Links, at_level_zero}
use skiplist.Integrity.{integrity_check}
use skiplist.Integrity.Levels.{head_levels_lem, check_chains_lem}
use skiplist.Integrity.Nodes.{check_nodes_lem}

module _ {E : Type 0} ⦃c : Callbacks E⦄ (order : IsOrder c) (s : Store E) (zs : List Ptr)
    (is : IsList s zs) (level : s.height s.tail ≡ s.height s.head)
    (small : length zs < size_mod) where
  number : s.length ≡ length zs
  number = is.counted ∙ mod-eq_of_lt small

  last-tail : s.prev s.tail ≡ last_or s.head zs
  last-tail = BackLinks-tail s.prev s.tail s.head zs is.back

  -- With a node in the list the tail does not lead back to the head.
  not-head : (ltb 0 s.length && (s.prev s.tail == s.head)) ≡ false
  not-head = rw (number, last-tail) (go zs is.inner)
    where
      go :
          (ws : List Ptr)
          → All (IsInner s) ws
          → (ltb 0 (length ws) && (last_or s.head ws == s.head)) ≡ false
      go [] inner = refl
      go (w ∷ ws) inner =
          let apart : last_or w ws ≢ s.head =
            All-last_or (λ p. p ≢ s.head) w ws inner.0.ne_head
              (All-map (IsInner s) ws (λ p k. k.ne_head) inner.1) in
          rw (lt→ltb 0 (length (w ∷ ws)) (omega arith), ==_ne apart)

  chain : Links s.next s.tail 0 s.head zs
  chain = rw (at_level_zero s.height zs) at (is.links 0 (omega arith))

  -- _skip_integrity_check_ finds no error in a well-formed list of fewer than 2 ^ 64 nodes, whose tail has
  -- the height of the head, with a comparison that is an order, whatever the flags ask for.
  pub integrity_check_lem : (flags : ℕ) → integrity_check flags s ≡ ok 0 s
  unfolding integrity_check load_height load_prev
  integrity_check_lem flags =
      let early = not (flags / 2 % 2 == 0) in
      let skip = not (flags % 2 == 0) in
      let top = s.height s.head in
      let high = is.ends.head_high in
      let not_out : leb max_height top ≡ false = ground arith in
      let heads = head_levels_lem s zs is early skip (top + 1) 0 0 (omega (arith, high)) in
      let nodes =
        check_nodes_lem order s early skip zs [] s.head (s.length + 4) 0 0 is is.ends.head_live
          chain (omega (arith, number)) (omega (arith, number)) in
      elim (Bool-cases skip) [
        | inl d ↦ rw (
          ==_ne is.ends.head_ne_null,
          ==_ne is.ends.tail_ne_null,
          is.ends.head_live,
          is.ends.tail_live,
          level,
          not_out,
          ==_self top,
          heads,
          is.ends.tail_live,
          not-head,
          d,
          (rw d at nodes),
        )
        | inr d ↦
            let chains =
              check_chains_lem s zs is early skip (s.length + 2) (top + 1) 0 0
                (omega (arith, number)) (omega (arith, high)) in
            rw (
              ==_ne is.ends.head_ne_null,
              ==_ne is.ends.tail_ne_null,
              is.ends.head_live,
              is.ends.tail_live,
              level,
              not_out,
              ==_self top,
              heads,
              is.ends.tail_live,
              not-head,
              d,
              chains,
              (rw d at nodes),
            )
      ]
