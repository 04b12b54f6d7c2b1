-- ===== src/Insert/Phases.antt =====
-- What each phase of `_skip_insert_` makes of the memory.
use skiplist.Base.{
  ℕ, zero, suc, ◌+◌, ◌%◌, ◌≤◌, ◌<◌, ◌≡◌, ◌≢◌, ◌⊎◌, refl, sym, ap, inl, inr, Bool, true, false, ◌&&◌,
  arith, leb, ltb, ◌==◌, ==_self, ==_ne, ==_iff, ◌||◌, Bool-cases, if◌then◌else◌,
}
use skiplist.Store.{
  Ptr, null, Link, clean, is_marked, link_eq, Callbacks, max_height, size_mod, Store, ok, update,
  update₂,
}
use skiplist.Store.Access.{
  clean-of_unmarked, load_next-ok, store_next-ok, cas_next-won, store_prev-ok, cas_prev-won,
  store_hits-ok,
}
use skiplist.Search.{SkipPath}
use skiplist.Insert.{
  fill_above, prefill, help_unlink, help_unlink_all, link_level, link_levels, link_back, account,
}

-- The forward pointers after phase 4, and after phase 6, on `count` levels from `i` on.
abbrev pub prefilled : Ptr → SkipPath → (Ptr → ℕ → Link) → ℕ → ℕ → Ptr → ℕ → Link
prefilled n path next i zero = next
prefilled n path next i (suc count) =
    prefilled n path (update₂ next n i (clean (path.succ i))) (i + 1) count

abbrev pub linked : Ptr → SkipPath → (Ptr → ℕ → Link) → ℕ → ℕ → Ptr → ℕ → Link
linked n path next i zero = next
linked n path next i (suc count) =
    linked n path (update₂ next (path.pred i) i (clean n)) (i + 1) count

abbrev pub within : ℕ → ℕ → ℕ → Bool
within i count j = leb i j && ltb j (i + count)

module _ (n : Ptr) (path : SkipPath) where
  pub prefilled-at :
      (next : Ptr → ℕ → Link) (i count : ℕ) (q : Ptr) (j : ℕ)
      → prefilled n path next i count q j
        ≡ (if (q == n) && within i count j then clean (path.succ j) else next q j)
  prefilled-at next i zero q j = ground arith
  prefilled-at next i (suc count) q j =
      ground (arith, prefilled-at (update₂ next n i (clean (path.succ i))) (i + 1) count q j)

  pub linked-at :
      (next : Ptr → ℕ → Link) (i count : ℕ) (q : Ptr) (j : ℕ)
      → linked n path next i count q j
        ≡ (if (q == path.pred j) && within i count j then clean n else next q j)
  linked-at next i zero q j = ground arith
  linked-at next i (suc count) q j =
      ground (arith, linked-at (update₂ next (path.pred i) i (clean n)) (i + 1) count q j)

pub fill_above-at :
    (head tail : Ptr) (i count : ℕ) (path : SkipPath) (j : ℕ)
    → ((fill_above head tail i count path).pred j
        ≡ (if within i count j then head else path.pred j))
      × ((fill_above head tail i count path).succ j
          ≡ (if within i count j then tail else path.succ j))
fill_above-at head tail i zero path j = (ground arith, ground arith)
fill_above-at head tail i (suc count) path j =
    let path' = record path { pred = update path.pred i head; succ = update path.succ i tail } in
    let rest = fill_above-at head tail (i + 1) count path' j in
    (ground (arith, rest.0), ground (arith, rest.1))

module _ {E : Type 0} ⦃c : Callbacks E⦄ (n : Ptr) where
  pub prefill_lem :
      (path : SkipPath) (i count : ℕ) (s : Store E)
      → s.live n ≡ true
      → i + count ≤ max_height
      → prefill n path i count s ≡ ok tt (record s { next = prefilled n path s.next i count })
  unfolding prefill
  prefill_lem path i zero s live low = refl
  prefill_lem path i (suc count) s live low =
      rw (store_next-ok s n live i (omega arith) (clean (path.succ i))) (
        prefill_lem path (i + 1) count
          (record s { next = update₂ s.next n i (clean (path.succ i)) }) live (omega arith))

  -- A successor that the help of phases 5b and 6b leaves alone: the tail, or a live node.
  abbrev pub IsSettled : Store E → ℕ → Ptr → Type 0
  IsSettled s i p =
      (p ≡ s.tail)
      ⊎ ((s.live p ≡ true) × (p ≢ null) × (p ≢ s.tail) × (is_marked (s.next p i) ≡ false))

  pub help_unlink_lem :
      (fuel i : ℕ) (s : Store E) (p : Ptr)
      → s.live n ≡ true
      → i < max_height
      → s.next n i ≡ clean p
      → IsSettled s i p
      → help_unlink (suc fuel) n i s ≡ ok tt s
  unfolding help_unlink
  help_unlink_lem fuel i s p live low e (inl end) =
      let stop : ((p == null) || (p == s.tail)) ≡ true = ground arith in
      rw (load_next-ok s n live i low, e, stop)
  help_unlink_lem fuel i s p live low e (inr (live', ne, nt, m)) =
      let (q, next_clean) = clean-of_unmarked (s.next p i) m in
      rw (
        load_next-ok s n live i low,
        e,
        ==_ne ne,
        ==_ne nt,
        load_next-ok s p live' i low,
        next_clean,
      )

  pub help_unlink_all_lem :
      (fuel i count : ℕ) (s : Store E) (succ : ℕ → Ptr)
      → s.live n ≡ true
      → i + count ≤ max_height
      → ((j : ℕ) → i ≤ j → j < i + count → s.next n j ≡ clean (succ j))
      → ((j : ℕ) → i ≤ j → j < i + count → IsSettled s j (succ j))
      → help_unlink_all (suc fuel) n i count s ≡ ok tt s
  unfolding help_unlink_all
  help_unlink_all_lem fuel i zero s succ live low own settled = refl
  help_unlink_all_lem fuel i (suc count) s succ live low own settled =
      rw
        (help_unlink_lem fuel i s (succ i) live (omega arith) (own i (omega arith) (omega arith))
          (settled i (omega arith) (omega arith)))
        (help_unlink_all_lem fuel (i + 1) count s succ live (omega arith)
          (λ j a b. own j (omega arith) (omega arith))
          (λ j a b. settled j (omega arith) (omega arith)))

  pub link_levels_lem :
      (tries fuel i count : ℕ) (path : SkipPath) (s : Store E)
      → s.live n ≡ true
      → i + count ≤ max_height
      → ((j : ℕ) → i ≤ j → j < i + count → s.next n j ≡ clean (path.succ j))
      → ((j : ℕ) → i ≤ j → j < i + count → s.next (path.pred j) j ≡ clean (path.succ j))
      → ((j : ℕ) → i ≤ j → j < i + count → s.live (path.pred j) ≡ true)
      → link_levels (suc tries) fuel n i count path s
        ≡ ok path (record s { next = linked n path s.next i count })
  unfolding link_levels link_level
  link_levels_lem tries fuel i zero path s live low own cur alive = refl
  link_levels_lem tries fuel i (suc count) path s live low own cur alive =
      let here = cur i (omega arith) (omega arith) in
      let s' = record s { next = update₂ s.next (path.pred i) i (clean n) } in
      let e : link_eq (clean (path.succ i)) (s.next (path.pred i) i) ≡ true =
        rw here (==_self (path.succ i)) in
      rw
        (
          load_next-ok s n live i (omega arith),
          own i (omega arith) (omega arith),
          ==_self (path.succ i),
          cas_next-won s (path.pred i) (alive i (omega arith) (omega arith)) i (omega arith)
              (clean (path.succ i)) (clean n) e,
        )
        (link_levels_lem tries fuel (i + 1) count path s' live (omega arith)
          (λ j a b. ground (arith, own j)) (λ j a b. ground (arith, cur j))
          (λ j a b. alive j (omega arith) (omega arith)))

  pub link_back_lem :
      (s : Store E) (pred succ : Ptr)
      → s.live n ≡ true
      → s.live succ ≡ true
      → succ ≢ n
      → s.next n 0 ≡ clean succ
      → s.prev succ ≡ pred
      → link_back n pred s ≡ ok tt (record s { prev = update (update s.prev n pred) succ n })
  unfolding link_back
  link_back_lem s pred succ live live' ne e back =
      let s' = record s { prev = update s.prev n pred } in
      let won = cas_prev-won s' succ live' pred n (rw (==_ne ne) back) in
      rw (store_prev-ok s n live pred, load_next-ok s' n live 0 (omega arith), e)
        (elim (Bool-cases (succ == s.tail)) [
          | inl end ↦
              let eq = (==_iff succ s.tail).0 end in
              let won' =
                cas_prev-won s' s.tail (rw (← eq) live') pred n (rw (← eq, ==_ne ne) back) in
              rw (end, won')
                (ap (λ q. ok tt (record s { prev = update (update s.prev n pred) q n })) (sym eq))
          | inr inner ↦ rw (inner, won)
        ])

  -- The store with the bookkeeping of a new node of height `h`.
  abbrev pub accounted : Store E → ℕ → Store E
  accounted s h = record s {
    era = if ltb 0 s.pres_era then update s.era n s.cur_era else s.era;
    cur_era = if ltb 0 s.pres_era then (s.cur_era + 1) % size_mod else s.cur_era;
    hits = update₂ s.hits n h 1;
    length = (s.length + 1) % size_mod;
  }

  pub account_lem :
      (s : Store E) (h : ℕ)
      → s.live n ≡ true
      → h < max_height
      → account n h s ≡ ok tt (accounted s h)
  unfolding account
  account_lem s h live low =
      let s' = record s {
        era = if ltb 0 s.pres_era then update s.era n s.cur_era else s.era;
        cur_era = if ltb 0 s.pres_era then (s.cur_era + 1) % size_mod else s.cur_era;
      } in
      rw (store_hits-ok s' n live h low 1)
