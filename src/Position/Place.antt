-- ===== src/Position/Place.antt =====
-- Each operation of skip_position_ ends at its cursor.
use skiplist.Base.{
  ℕ, suc, ◌≤◌, ◌<◌, ◌≡◌, ◌≢◌, refl, ap, ◌∙◌, List, [], ◌∷◌, ◌++◌, arith, length, length-append, All,
  All-append, All-map, All-left, All-right, All-last_or, last_or, head_or, true, ==_ne, ◌==◌,
  if◌then◌else◌,
}
use skiplist.Store.{Ptr, null, Callbacks, Store, ok}
use skiplist.Chain.{IsOrder, IsInner, IsList, Before}
use skiplist.Chain.Edges.{head_or-null, last_or-null, Links-behind}
use skiplist.Chain.Levels.{at_level_zero}
use skiplist.Chain.Place.{Cut}
use skiplist.Search.{clear_path, locate}
use skiplist.Search.Descend.{fill_path-at}
use skiplist.Search.Locate.{is_match, located, located_path, locate_lem}
use skiplist.Lookup.Find.{matched, touched, lookup_with_splay_lem}
use skiplist.Position.{
  Op, not_before, after, position_eq, position_gte, position_gt, position_lte, position_lt,
  position,
}
use skiplist.Position.Parts.{Equal, After, Parts, cursor}
use skiplist.Position.Scan.{Stops, scan_lem}

module _ {E : Type 0} ⦃c : Callbacks E⦄ (order : IsOrder c) (s : Store E) (xs es zs : List Ptr)
    (is : IsList s (xs ++ (es ++ zs))) (n : Ptr) (query : IsInner s n) (parts : Parts s n xs es zs)
    (tries fuel : ℕ) (enough : length (xs ++ (es ++ zs)) ≤ fuel) where
  open is use {ends}

  cut : Cut s xs (es ++ zs) n
  cut = record {
    before = parts.before;
    rest =
        All-append (λ y. ¬ Before s y n) es zs (All-map (Equal s n) es (λ y e b. cc) parts.equal)
          (All-map (After s n) zs (λ y e b. cc) parts.behind);
  }

  short : length xs < suc fuel
  short = omega (arith, enough, length-append xs (es ++ zs))

  -- the predecessor of the query at level 0
  abbrev pred : Ptr
  pred = last_or s.head xs

  path_pred : (located_path s xs (es ++ zs) n clear_path).pred 0 ≡ pred
  path_pred =
      (fill_path-at s xs (es ++ zs) (s.height s.head) clear_path 0 (omega (arith, ends.head_low))).0
      ∙ ap (last_or s.head) (at_level_zero s.height xs)

  located_lem :
      locate (suc tries) (suc fuel) n clear_path s
      ≡ ok (s.height s.head, located_path s xs (es ++ zs) n clear_path) (located s (es ++ zs) n)
  located_lem = locate_lem order s xs (es ++ zs) is n query cut (suc fuel) short tries clear_path

  -- the store behind a search
  abbrev after_search : Store E
  after_search = located s (es ++ zs) n

  pred-All : (P : Ptr → Type 0) → P s.head → All P xs → P pred
  pred-All P h all = All-last_or P s.head xs h all

  inner_left : All (IsInner s) xs
  inner_left = All-left (IsInner s) xs (es ++ zs) is.inner

  inner_right : All (IsInner s) (es ++ zs)
  inner_right = All-right (IsInner s) xs (es ++ zs) is.inner

  pred_live : s.live pred ≡ true
  pred_live =
      pred-All (λ p. s.live p ≡ true) ends.head_live
        (All-map (IsInner s) xs (λ q i. i.live) inner_left)

  pred_ne_tail : pred ≢ s.tail
  pred_ne_tail =
      pred-All (λ p. p ≢ s.tail) ends.head_ne_tail
        (All-map (IsInner s) xs (λ q i. i.ne_tail) inner_left)

  head_or-append : (l r : List Ptr) → head_or null (l ++ r) ≡ head_or (head_or null r) l
  head_or-append [] r = refl
  head_or-append (x ∷ l) r = refl

  matched_parts :
      (l r : List Ptr)
      → All (Equal s n) l
      → All (After s n) r
      → matched s (l ++ r) n ≡ head_or null l
  matched_parts [] [] e a = refl
  matched_parts [] (x ∷ r) e a = rw (a.0, is_match)
  matched_parts (x ∷ l) r e a = rw (e.0, is_match)

  lt_lem : position_lt (suc tries) (suc fuel) n s ≡ ok (last_or null xs) after_search
  unfolding position_lt
  lt_lem = rw (located_lem, path_pred, last_or-null s xs inner_left)

  gte_lem : position_gte (suc tries) (suc fuel) n s ≡ ok (head_or (head_or null zs) es) after_search
  unfolding position_gte
  gte_lem =
      let run =
        scan_lem order after_search ends n query not_before (suc fuel) pred [] (es ++ zs)
          (omega arith) pred_live inner_right tt
          (All-append (Stops order after_search ends n query not_before true) es zs
            (All-map (Equal s n) es (λ y e. rw e) parts.equal)
            (All-map (After s n) zs (λ y e. rw e) parts.behind))
          (Links-behind s xs (es ++ zs) is) in
      rw (located_lem, path_pred, run, head_or-null s (es ++ zs) inner_right)
        (ap (λ p. ok p after_search) (head_or-append es zs))

  gt_lem : position_gt (suc tries) (suc fuel) n s ≡ ok (head_or null zs) after_search
  unfolding position_gt
  gt_lem =
      let run =
        scan_lem order after_search ends n query after (suc fuel) pred es zs
          (omega (arith, enough, length-append xs (es ++ zs), length-append es zs)) pred_live
          inner_right (All-map (Equal s n) es (λ y e. rw e) parts.equal)
          (All-map (After s n) zs (λ y e. rw e) parts.behind) (Links-behind s xs (es ++ zs) is) in
      rw (
        located_lem,
        path_pred,
        ==_ne pred_ne_tail,
        run,
        head_or-null s zs (All-right (IsInner s) es zs inner_right),
      )

  lte_lem : position_lte (suc tries) (suc fuel) n s ≡ ok (head_or (last_or null xs) es) after_search
  unfolding position_lte
  lte_lem =
      rw (located_lem, path_pred, last_or-null s xs inner_left)
        (ap (λ p. ok p after_search) (go es zs parts.equal parts.behind inner_right))
    where
      go :
          (l r : List Ptr)
          → All (Equal s n) l
          → All (After s n) r
          → All (IsInner s) (l ++ r)
          → (if matched s (l ++ r) n == null then last_or null xs else matched s (l ++ r) n)
            ≡ head_or (last_or null xs) l
      go [] [] e a inner = refl
      go [] (x ∷ r) e a inner = rw (a.0, is_match)
      go (x ∷ l) r e a inner = rw (e.0, is_match, ==_ne inner.0.ne_null)

  eq_lem :
      position_eq (suc tries) (suc fuel) n s
      ≡ ok (head_or null es) (touched order s xs (es ++ zs) is n query cut (suc fuel) short)
  unfolding position_eq
  eq_lem =
      let (path, run) =
        lookup_with_splay_lem order s xs (es ++ zs) is n query cut (suc fuel) short tries
          clear_path in
      rw (run, matched_parts es zs parts.equal parts.behind)

  -- On a well-formed list with the nodes `xs` before the query, `es` equal to it and `zs` behind it,
  -- each operation of skip_position_ ends at its first try: SKIP_LT at the last node before the query,
  -- SKIP_LTE at the first equal node and without one at the last node before, SKIP_EQ at the first equal
  -- node, SKIP_GTE at the first equal node and without one at the first node behind, SKIP_GT at the first
  -- node behind, each at NULL when there is no such node. It changes at most hit counts and the counter of
  -- accesses.
  pub position_lem :
      (op : Op)
      → (s' : Store E) × (position (suc tries) (suc fuel) op n s ≡ ok (cursor op xs es zs) s')
        × (s' ≡ record s { hits = s'.hits; splay_counter = s'.splay_counter })
  unfolding position
  position_lem Op.lt = (after_search, lt_lem, refl)
  position_lem Op.lte = (after_search, lte_lem, refl)
  position_lem Op.gte = (after_search, gte_lem, refl)
  position_lem Op.gt = (after_search, gt_lem, refl)
  position_lem Op.eq = (touched order s xs (es ++ zs) is n query cut (suc fuel) short, eq_lem, refl)
