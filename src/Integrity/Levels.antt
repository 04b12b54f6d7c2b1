-- ===== src/Integrity/Levels.antt =====
-- The checks of the levels find no error in a well-formed list.
use skiplist.Base.{
  ℕ, zero, suc, ◌+◌, ◌≤◌, ◌<◌, ◌≡◌, ◌≢◌, inl, inr, refl, arith, Bool, true, false, not, ◌&&◌, leb,
  ◌==◌, Bool-cases, ==_ne, ==_self, ==_iff, List, [], ◌∷◌, length, All, All-head_or, All-map,
}
use skiplist.Store.{Ptr, null, clean, Callbacks, max_height, Store, ok}
use skiplist.Store.Access.{load_next-ok}
use skiplist.Chain.{IsInner, IsList}
use skiplist.Chain.Levels.{Links, Links-first, at_level, All-at_level}
use skiplist.Chain.Place.{succ_at}
use skiplist.Integrity.{
  on, head_above, head_levels, reach_tail, check_chains, node_above, node_levels,
}

unskipped : (b : Bool) → (b && false) ≡ false
unskipped true = refl
unskipped false = refl

module _ {E : Type 0} ⦃c : Callbacks E⦄ (s : Store E) where
  abbrev pub Next : Ptr → List Ptr → ℕ → Type 0
  Next p ys i = s.next p i ≡ clean (succ_at s ys i)

  pub succ_at-ne-null :
      (zs : List Ptr) → s.tail ≢ null → All (IsInner s) zs → (i : ℕ) → succ_at s zs i ≢ null
  succ_at-ne-null zs tail inner i =
      All-head_or (λ p. p ≢ null) s.tail (at_level s.height i zs) tail
        (All-at_level s.height i (λ p. p ≢ null) zs
          (All-map (IsInner s) zs (λ p k. k.ne_null) inner))

  -- Once a level has no node left, no higher one has.
  at_level-none :
      (zs : List Ptr) (i j : ℕ)
      → i ≤ j
      → All (IsInner s) zs
      → succ_at s zs i ≡ s.tail
      → succ_at s zs j ≡ s.tail
  at_level-none [] i j le inner e = refl
  at_level-none (z ∷ zs) i j le inner e = elim (Bool-cases (leb i (s.height z))) [
    | inl tall ↦ absurd (inner.0.ne_tail (rw tall at e))
    | inr short ↦
        let higher : leb j (s.height z) ≡ false = ground arith in
        rw higher (at_level-none zs i j le inner.1 (rw short at e))
  ]

  module _ (p : Ptr) (live : s.live p ≡ true) (ys : List Ptr) (tail : s.tail ≢ null)
      (inner : All (IsInner s) ys) (top : ℕ) (next : (i : ℕ) → i < top → Next p ys i)
      (bound : top ≤ max_height) (early skip : Bool) where
    node_above_lem :
        (count lvl i n_err : ℕ)
        → lvl + count ≤ top
        → i ≤ lvl
        → succ_at s ys i ≡ s.tail
        → node_above early skip p lvl count n_err s ≡ ok (on n_err) s
    unfolding node_above
    node_above_lem zero lvl i n_err room le e = refl
    node_above_lem (suc count) lvl i n_err room le e =
        rw
          (
            load_next-ok s p live lvl (omega arith),
            next lvl (omega arith),
            at_level-none ys i lvl le inner e,
            ==_ne tail,
            ==_self s.tail,
            unskipped (not skip),
          )
          (node_above_lem count (lvl + 1) i n_err (omega arith) (omega arith) e)

    pub node_levels_lem :
        (count lvl n_err : ℕ)
        → lvl + count ≤ top
        → node_levels early skip p lvl count n_err s ≡ ok (on n_err) s
    unfolding node_levels
    node_levels_lem zero lvl n_err room = refl
    node_levels_lem (suc count) lvl n_err room = elim (Bool-cases (succ_at s ys lvl == s.tail)) [
      | inl last ↦
          rw
            (
              load_next-ok s p live lvl (omega arith),
              next lvl (omega arith),
              ==_ne (succ_at-ne-null ys tail inner lvl),
              unskipped (not skip),
              last,
            )
            (node_above_lem count (lvl + 1) lvl n_err (omega arith) (omega arith)
              ((==_iff _ _).0 last))
      | inr more ↦
          rw
            (
              load_next-ok s p live lvl (omega arith),
              next lvl (omega arith),
              ==_ne (succ_at-ne-null ys tail inner lvl),
              unskipped (not skip),
              more,
            )
            (node_levels_lem count (lvl + 1) n_err (omega arith))
    ]

  module _ (zs : List Ptr) (is : IsList s zs) (early skip : Bool) where
    Next-head : (i : ℕ) → i < max_height → Next s.head zs i
    Next-head i low = Links-first s.next s.tail i s.head (at_level s.height i zs) (is.links i low)

    not-null : (i : ℕ) → (succ_at s zs i == null) ≡ false
    not-null i = ==_ne (succ_at-ne-null zs is.ends.tail_ne_null is.inner i)

    head_above_lem :
        (count lvl n_err : ℕ)
        → lvl + count ≤ max_height
        → head_above early lvl count n_err s ≡ ok (on n_err) s
    unfolding head_above
    head_above_lem zero lvl n_err room = refl
    head_above_lem (suc count) lvl n_err room =
        rw
          (
            load_next-ok s s.head is.ends.head_live lvl (omega arith),
            Next-head lvl (omega arith),
            not-null lvl,
          )
          (head_above_lem count (lvl + 1) n_err (omega arith))

    pub head_levels_lem :
        (count lvl n_err : ℕ)
        → lvl + count ≤ max_height
        → head_levels early skip lvl count n_err s ≡ ok (on n_err) s
    unfolding head_levels
    head_levels_lem zero lvl n_err room = refl
    head_levels_lem (suc count) lvl n_err room = elim (Bool-cases (succ_at s zs lvl == s.tail)) [
      | inl last ↦
          rw
            (
              load_next-ok s s.head is.ends.head_live lvl (omega arith),
              Next-head lvl (omega arith),
              not-null lvl,
              unskipped (not skip),
              last,
            )
            (head_above_lem count (lvl + 1) n_err (omega arith))
      | inr more ↦
          rw
            (
              load_next-ok s s.head is.ends.head_live lvl (omega arith),
              Next-head lvl (omega arith),
              not-null lvl,
              unskipped (not skip),
              more,
            )
            (head_levels_lem count (lvl + 1) n_err (omega arith))
    ]

    -- The walk along a level comes to the tail.
    reach_tail_lem :
        (lvl steps : ℕ) (p : Ptr) (ws : List Ptr)
        → lvl < max_height
        → s.live p ≡ true
        → p ≢ null
        → p ≢ s.tail
        → All (IsInner s) ws
        → Links s.next s.tail lvl p ws
        → length ws < steps
        → reach_tail lvl (suc steps) p s ≡ ok s.tail s
    unfolding reach_tail
    reach_tail_lem lvl zero p ws low live ne ne' inner links more = absurd (omega (arith, more))
    reach_tail_lem lvl (suc steps) p [] low live ne ne' inner links more = rw (
      ==_ne ne,
      ==_ne ne',
      load_next-ok s p live lvl low,
      links,
      ==_ne is.ends.tail_ne_null,
      ==_self s.tail,
    )
    reach_tail_lem lvl (suc steps) p (w ∷ ws) low live ne ne' inner links more =
        rw (==_ne ne, ==_ne ne', load_next-ok s p live lvl low, links.0)
          (reach_tail_lem lvl steps w ws low inner.0.live inner.0.ne_null inner.0.ne_tail inner.1
            links.1 (omega (arith, more)))

    at_level-shorter : (i : ℕ) (ws : List Ptr) → length (at_level s.height i ws) ≤ length ws
    at_level-shorter i [] = omega arith
    at_level-shorter i (w ∷ ws) = elim (Bool-cases (leb i (s.height w))) [
      | inl tall ↦ rw tall (omega (arith, at_level-shorter i ws))
      | inr short ↦ rw short (omega (arith, at_level-shorter i ws))
    ]

    pub check_chains_lem :
        (max_steps count lvl n_err : ℕ)
        → length zs < max_steps
        → lvl + count ≤ max_height
        → check_chains early max_steps lvl count n_err s ≡ ok (on n_err) s
    unfolding check_chains
    check_chains_lem max_steps zero lvl n_err long room = refl
    check_chains_lem max_steps (suc count) lvl n_err long room =
        let walk =
          reach_tail_lem lvl max_steps s.head (at_level s.height lvl zs) (omega arith)
            is.ends.head_live is.ends.head_ne_null is.ends.head_ne_tail
            (All-at_level s.height lvl (IsInner s) zs is.inner) (is.links lvl (omega arith))
            (omega (arith, long, at_level-shorter lvl zs)) in
        let steps : max_steps + 1 ≡ suc max_steps = omega arith in
        rw (steps, walk, ==_self s.tail)
          (check_chains_lem max_steps count (lvl + 1) n_err long (omega arith))
