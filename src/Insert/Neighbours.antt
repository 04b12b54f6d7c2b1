-- ===== src/Insert/Neighbours.antt =====
-- The neighbours of the new node at each level, as `_skip_insert_` has them when it swaps.
use skiplist.Base.{
  ℕ, ◌+◌, ◌-◌, ◌≤◌, ◌<◌, ◌≡◌, ◌≢◌, ◌⊎◌, sym, ◌∙◌, inl, inr, Bool, true, false, ◌&&◌, List, ◌++◌,
  arith, leb, ltb, ◌==◌, Bool-cases, if◌then◌else◌, All, All-map, All-left, All-right, NotIn,
}
use skiplist.Store.{
  Ptr, null, Link, clean, is_marked, Callbacks, max_height, Store, ok, pure, ◌>>=◌, update, update₂,
  load_height,
}
use skiplist.Store.Access.{load_height-ok, store_height-ok}
use skiplist.Chain.{IsOrder, IsInner, IsList}
use skiplist.Chain.Levels.{at_level_above}
use skiplist.Search.{SkipPath, clear_path}
use skiplist.Chain.Place.{
  pred_at, succ_at, Cut, pred_at-All, succ_at-All, next-pred_at, succ_at-cases,
}
use skiplist.Search.Descend.{fill_path-at}
use skiplist.Search.Locate.{is_match, located_path}
use skiplist.Insert.{grow_head, fill_above}
use skiplist.Insert.Phases.{prefilled, prefilled-at, fill_above-at}

module _ {E : Type 0} where
  -- The heights once the head and the tail are raised above a node of height `h`.
  abbrev pub raised : Store E → (Ptr → ℕ) → ℕ → ℕ → Ptr → ℕ
  raised s height len h =
      if ltb (len - 1) h then update (update height s.head (h + 1)) s.tail (h + 1) else height

  module _ ⦃c : Callbacks E⦄ where
    pub grow_lem :
        (s : Store E) (len h : ℕ)
        → s.live s.head ≡ true
        → s.live s.tail ≡ true
        → s.height s.head ≡ len
        → 1 ≤ len
        → (if ltb (len - 1) h
              then (do current ← load_height s.head; grow_head (h + 1) current)
              else pure tt)
            s
          ≡ ok tt (record s { height = raised s s.height len h })
    unfolding grow_head
    grow_lem s len h live live' e one = elim (Bool-cases (ltb (len - 1) h)) [
      | inl more ↦
          let below : ltb (s.height s.head) (h + 1) ≡ true = ground arith in
          let s' = record s { height = update s.height s.head (h + 1) } in
          rw (
            more,
            load_height-ok s s.head live,
            below,
            store_height-ok s s.head live (h + 1),
            store_height-ok s' s.tail live' (h + 1),
          )
      | inr enough ↦ rw enough
    ]

module _ {E : Type 0} ⦃c : Callbacks E⦄ (order : IsOrder c) (s : Store E) (xs ys : List Ptr)
    (is : IsList s (xs ++ ys)) (n : Ptr) (new : IsInner s n) (fresh : NotIn n (xs ++ ys))
    (cut : Cut s xs ys n) where
  open is use {ends}

  abbrev top : ℕ
  top = s.height s.head

  abbrev found : Bool
  found = is_match s ys n

  -- the path as it is at the swap, for a node of height `h`
  abbrev pub full_path : ℕ → SkipPath
  full_path h = fill_above s.head s.tail top (h + 1 - top) (located_path s xs ys n clear_path)

  below_top : (j : ℕ) → top ≤ j → All (λ p. s.height p < j) (xs ++ ys)
  below_top j h = All-map (λ p. s.height p < s.height s.head) (xs ++ ys) (λ p k. omega arith) is.low

  pub full_path-at :
      (h j : ℕ)
      → j ≤ h
      → ((full_path h).pred j ≡ pred_at s xs j) × ((full_path h).succ j ≡ succ_at s ys j)
  full_path-at h j low =
      let filled =
        fill_above-at s.head s.tail top (h + 1 - top) (located_path s xs ys n clear_path) j in
      elim (Bool-cases (ltb j top)) [
        | inl seen ↦
            let at = fill_path-at s xs ys top clear_path j (ground arith) in
            (ground (arith, filled.0, at.0), ground (arith, filled.1, at.1))
        | inr above ↦
            let short = below_top j (ground arith) in
            let ex = at_level_above s.height j xs (All-left (λ p. s.height p < j) xs ys short) in
            let ey = at_level_above s.height j ys (All-right (λ p. s.height p < j) xs ys short) in
            rw (ex, ey) (ground (arith, filled.0), ground (arith, filled.1))
      ]

  module _ (h : ℕ) (low : h < max_height) where
    abbrev path : SkipPath
    path = full_path h

    -- the forward pointers just behind the swap
    abbrev swapped_next : Ptr → ℕ → Link
    swapped_next = update₂ (prefilled n path s.next 0 (h + 1)) (path.pred 0) 0 (clean n)

    pub swapped-at :
        (q : Ptr) (j : ℕ)
        → swapped_next q j ≡ (
            if (q == path.pred 0) && (j == 0)
            then clean n
            else if (q == n) && leb j h
            then clean (path.succ j)
            else s.next q j)
    swapped-at q j = ground (arith, prefilled-at n path s.next 0 (h + 1) q j)

    pub pred_apart : (j : ℕ) → j ≤ h → path.pred j ≢ n
    pred_apart j k = rw ((full_path-at h j k).0) (
        pred_at-All s (λ q. q ≢ n) xs j (λ e. new.ne_head (sym e))
          (All-map (λ q. n ≢ q) xs (λ q d e. d (sym e)) (All-left (λ q. n ≢ q) xs ys fresh)))

    pub pred_live : (j : ℕ) → j ≤ h → s.live (path.pred j) ≡ true
    pred_live j k = rw ((full_path-at h j k).0) (
        pred_at-All s (λ q. s.live q ≡ true) xs j ends.head_live
          (All-map (IsInner s) xs (λ q i. i.live) (All-left (IsInner s) xs ys is.inner)))

    pub pred_next : (j : ℕ) → j ≤ h → s.next (path.pred j) j ≡ clean (path.succ j)
    pred_next j k =
        rw ((full_path-at h j k).0, (full_path-at h j k).1)
          (next-pred_at s xs ys is j (omega arith))

    pub succ_apart : path.succ 0 ≢ n
    succ_apart = rw ((full_path-at h 0 (omega arith)).1) (
        succ_at-All s (λ q. q ≢ n) ys 0 (λ e. new.ne_tail (sym e))
          (All-map (λ q. n ≢ q) ys (λ q d e. d (sym e)) (All-right (λ q. n ≢ q) xs ys fresh)))

    pub succ_live : s.live (path.succ 0) ≡ true
    succ_live = rw ((full_path-at h 0 (omega arith)).1) (
        succ_at-All s (λ q. s.live q ≡ true) ys 0 ends.tail_live
          (All-map (IsInner s) ys (λ q i. i.live) (All-right (IsInner s) xs ys is.inner)))

    pub swapped_settled :
        (j : ℕ)
        → j ≤ h
        → (path.succ j ≡ s.tail)
          ⊎ ((s.live (path.succ j) ≡ true)
              × (path.succ j ≢ null)
              × (path.succ j ≢ s.tail)
              × (is_marked (swapped_next (path.succ j) j) ≡ false))
    swapped_settled j k =
        let e = (full_path-at h j k).1 in
        elim (succ_at-cases s xs ys is j (omega arith)) [
          | inl end ↦ inl (e ∙ end)
          | inr (i, m) ↦ inr (
            rw e i.live,
            rw e i.ne_null,
            rw e i.ne_tail,
            ground (arith, swapped-at (path.succ j) j),
          )
        ]
