-- ===== src/Insert/Publish.antt =====
-- From the swap at level 0 on: the upper levels, the backward pointers, and the bookkeeping.
use skiplist.Base.{
  ℕ, suc, ◌+◌, ◌≤◌, ◌<◌, ◌≡◌, ◌≢◌, inl, inr, true, ◌&&◌, arith, leb, ◌==◌, if◌then◌else◌,
}
use skiplist.Store.{Ptr, Link, clean, Callbacks, max_height, Store, ok, update, update₂}
use skiplist.Search.{SkipPath}
use skiplist.Insert.{publish, done}
use skiplist.Insert.Phases.{
  prefilled, linked, prefilled-at, linked-at, IsSettled, help_unlink_lem, help_unlink_all_lem,
  link_levels_lem, link_back_lem, accounted, account_lem,
}

module _ {E : Type 0} ⦃c : Callbacks E⦄ (n : Ptr) (path : SkipPath) (h : ℕ) (s : Store E) where
  -- The store just behind the swap: `n` is linked at level 0, and prefilled above.
  abbrev pub IsSwapped : Type 0
  IsSwapped = record {
    live : s.live n ≡ true;
    low : h < max_height;
    own : (j : ℕ) → j ≤ h → s.next n j ≡ clean (path.succ j);
    cur : (j : ℕ) → 1 ≤ j → j ≤ h → s.next (path.pred j) j ≡ clean (path.succ j);
    alive : (j : ℕ) → j ≤ h → s.live (path.pred j) ≡ true;
    apart : (j : ℕ) → j ≤ h → path.pred j ≢ n;
    settled : (j : ℕ) → j ≤ h → IsSettled n s j (path.succ j);
    succ_live : s.live (path.succ 0) ≡ true;
    succ_apart : path.succ 0 ≢ n;
    back : s.prev (path.succ 0) ≡ path.pred 0;
  }

  abbrev pub published : Store E
  published =
      accounted n
        (record s {
          next = linked n path s.next 1 h;
          prev = update (update s.prev n (path.pred 0)) (path.succ 0) n;
        })
        h

  linked-IsSettled :
      IsSwapped
      → (j : ℕ) → j ≤ h
      → IsSettled n (record s { next = linked n path s.next 1 h }) j (path.succ j)
  linked-IsSettled sw j low = elim (sw.settled j low) [
    | inl e ↦ inl e
    | inr (live, ne, nt, m) ↦
        inr (live, ne, nt, ground (arith, linked-at n path s.next 1 h (path.succ j) j))
  ]

  linked-own : IsSwapped → (j : ℕ) → j ≤ h → linked n path s.next 1 h n j ≡ clean (path.succ j)
  linked-own sw j low =
      ground (arith, linked-at n path s.next 1 h n j, sw.own j low, sw.apart j low)

  pub publish_lem :
      (tries fuel : ℕ) → IsSwapped → publish (suc tries) (suc fuel) n h path s ≡ ok done published
  unfolding publish
  publish_lem tries fuel sw =
      let s₁ = record s { next = linked n path s.next 1 h } in
      let s₂ = record s₁ { prev = update (update s.prev n (path.pred 0)) (path.succ 0) n } in
      rw (
        help_unlink_lem n fuel 0 s (path.succ 0) sw.live (omega arith) (sw.own 0 (omega arith))
            (sw.settled 0 (omega arith)),
        link_levels_lem n tries (suc fuel) 1 h path s sw.live (omega arith)
            (λ j a b. sw.own j (omega arith)) (λ j a b. sw.cur j a (omega arith))
            (λ j a b. sw.alive j (omega arith)),
        link_back_lem n s₁ (path.pred 0) (path.succ 0) sw.live sw.succ_live sw.succ_apart
            (linked-own sw 0 (omega arith)) sw.back,
        help_unlink_all_lem n fuel 1 h s₂ path.succ sw.live (omega arith)
            (λ j a b. linked-own sw j (omega arith)) (λ j a b. linked-IsSettled sw j (omega arith)),
        account_lem n s₂ h sw.live sw.low,
      )

-- The forward pointers in the end: those of before, but for the new node's and its neighbours'.
pub spliced-at :
    (n : Ptr) (path : SkipPath) (next : Ptr → ℕ → Link) (h : ℕ) (q : Ptr) (j : ℕ)
    → linked n path (update₂ (prefilled n path next 0 (h + 1)) (path.pred 0) 0 (clean n)) 1 h q j
      ≡ (if (q == path.pred j) && leb j h
          then clean n
          else if (q == n) && leb j h
          then clean (path.succ j)
          else next q j)
spliced-at n path next h q j = ground (
  arith,
  linked-at n path (update₂ (prefilled n path next 0 (h + 1)) (path.pred 0) 0 (clean n)) 1 h q j,
  prefilled-at n path next 0 (h + 1) q j,
)
