-- ===== src/Search/Descend.antt =====
-- The descent through the levels finds, at each, the place of the query.
use skiplist.Base.{
  ℕ, zero, suc, ◌≤◌, ◌<◌, ◌≡◌, refl, sym, ap, ◌∙◌, List, ◌++◌, arith, length, length-append,
  last_or, head_or, last_or-append, All, All-left, All-right, All-last_or, All-map, true, false,
  inl, inr, ◌==◌, ==_iff, Bool-cases,
}
use mathlib.Core.List.{append_assoc}
use skiplist.Store.{Ptr, clean, Callbacks, max_height, Store, ok}
use skiplist.Store.Access.{load_next-ok}
use skiplist.Chain.{IsOrder, IsInner, Before, IsList}
use skiplist.Chain.Levels.{
  Links, Links-first, Links-right, at_level, at_level-append, All-at_level, length-at_level,
  Split-level,
}
use skiplist.Chain.Place.{pred_at, succ_at, Cut}
use skiplist.Search.{SkipPath, record_level, arrived, seek, descend}
use skiplist.Search.Seek.{seek-Links}

module _ {E : Type 0} (s : Store E) (xs ys : List Ptr) where
  -- the path of these at the levels below `k`
  abbrev pub fill_path : ℕ → SkipPath → SkipPath
  fill_path zero path = path
  fill_path (suc i) path = fill_path i (record_level path i (pred_at s xs i) (succ_at s ys i))

  abbrev pub bottom : ℕ → Ptr → Ptr
  bottom zero curr = curr
  bottom (suc i) curr = succ_at s ys 0

  pub bottom-succ_at : (i : ℕ) → bottom i (succ_at s ys i) ≡ succ_at s ys 0
  bottom-succ_at zero = refl
  bottom-succ_at (suc i) = refl

  pub fill_path_above :
      (k : ℕ) (path : SkipPath) (i : ℕ)
      → k ≤ i
      → ((fill_path k path).pred i ≡ path.pred i) × ((fill_path k path).succ i ≡ path.succ i)
  fill_path_above zero path i h = (refl, refl)
  fill_path_above (suc k) path i h =
      let rest =
        fill_path_above k (record_level path k (pred_at s xs k) (succ_at s ys k)) i (omega arith) in
      let ne : (i == k) ≡ false = ground arith in rw (rest.0, rest.1, ne) (refl, refl)

  -- The path has the neighbours of the place at each level.
  pub fill_path-at :
      (k : ℕ) (path : SkipPath) (i : ℕ)
      → i < k
      → ((fill_path k path).pred i ≡ pred_at s xs i) × ((fill_path k path).succ i ≡ succ_at s ys i)
  fill_path-at zero path i h = absurd (omega arith)
  fill_path-at (suc k) path i h =
      let path' = record_level path k (pred_at s xs k) (succ_at s ys k) in
      elim (Bool-cases (i == k)) [
        | inl e ↦
            let (p, q) = fill_path_above k path' i (ground arith) in
            let i_eq = (==_iff i k).0 e in rw (p, q, e, i_eq) (refl, refl)
        | inr ne ↦ fill_path-at k path' i (ground arith)
      ]

module _ {E : Type 0} ⦃c : Callbacks E⦄ (order : IsOrder c) (s : Store E) (xs ys : List Ptr)
    (is : IsList s (xs ++ ys)) (n : Ptr) (query : IsInner s n) (cut : Cut s xs ys n) (fuel : ℕ)
    (enough : length xs < fuel) where
  pub pred_at-live : (i : ℕ) → s.live (pred_at s xs i) ≡ true
  pred_at-live i =
      All-last_or (λ p. s.live p ≡ true) s.head _ is.ends.head_live
        (All-at_level s.height i (λ p. s.live p ≡ true) xs
          (All-map (IsInner s) xs (λ p h. h.live) (All-left (IsInner s) xs ys is.inner)))

  -- The stretch of level `i` that a walk passes, from the place at the level above to the place at
  -- this one.
  abbrev pub Stretch : ℕ → List Ptr → Type 0
  Stretch i vs = record {
    links : Links s.next s.tail i (pred_at s xs (suc i)) (vs ++ at_level s.height i ys);
    inner : All (IsInner s) (vs ++ at_level s.height i ys);
    before : All (λ v. Before s v n) vs;
    rest : All (λ b. ¬ Before s b n) (at_level s.height i ys);
    end : last_or (pred_at s xs (suc i)) vs ≡ pred_at s xs i;
    short : length vs < fuel;
  }

  pub stretch : (i : ℕ) → i < max_height → (vs : List Ptr) × Stretch i vs
  stretch i low =
      let (us, vs, parts, last) = Split-level s.height i s.head xs in
      let bs = at_level s.height i ys in
      let whole : at_level s.height i (xs ++ ys) ≡ us ++ (vs ++ bs) =
        at_level-append s.height i xs ys ∙ ap (λ l. l ++ bs) parts ∙ append_assoc us vs bs in
      (
        vs,
        record {
          links =
              rw (sym last)
                (Links-right s.next s.tail i s.head us (vs ++ bs) (rw whole at (is.links i low)));
          inner =
              All-right (IsInner s) us (vs ++ bs)
                (rw whole at (All-at_level s.height i (IsInner s) (xs ++ ys) is.inner));
          before =
              All-right (λ v. Before s v n) us vs
                (rw parts at (All-at_level s.height i (λ v. Before s v n) xs cut.before));
          rest = All-at_level s.height i (λ b. ¬ Before s b n) ys cut.rest;
          end =
              ap (λ d. last_or d vs) (sym last)
              ∙ sym (last_or-append s.head us vs)
              ∙ ap (λ l. last_or s.head l) (sym parts);
          short =
              omega (arith, length-at_level s.height i xs, ap length parts, length-append us vs);
        },
      )

  -- One level: from the place at the level above to the place at this one.
  seek-at :
      (i : ℕ)
      → i < max_height
      → (p : Ptr) → p ≡ pred_at s xs (suc i)
      → (q : Ptr) × (s.next p i ≡ clean q)
        × (seek fuel n i p q s ≡ ok (arrived (pred_at s xs i, succ_at s ys i)) s)
  seek-at i low p e =
      let (vs, st) = stretch i low in
      let bs = at_level s.height i ys in
      let links : Links s.next s.tail i p (vs ++ bs) = rw e st.links in
      let end : last_or p vs ≡ pred_at s xs i = rw e st.end in
      (
        head_or s.tail (vs ++ bs),
        Links-first s.next s.tail i p (vs ++ bs) links,
        rw (← end) (
            seek-Links order s is.ends n query i low fuel p vs bs st.short st.inner st.before
              st.rest links),
      )

  pub descend_lem :
      (k : ℕ) (p curr : Ptr) (path : SkipPath)
      → k ≤ max_height
      → p ≡ pred_at s xs k
      → descend fuel n k p curr path s
        ≡ ok (arrived (bottom s xs ys k curr, fill_path s xs ys k path)) s
  unfolding descend
  descend_lem zero p curr path low e = refl
  descend_lem (suc i) p curr path low e =
      let (q, first, found) = seek-at i (omega arith) p e in
      let live : s.live p ≡ true = rw e (pred_at-live (suc i)) in
      rw (load_next-ok s p live i (omega arith), first, found)
        (descend_lem i _ _ _ (omega arith) refl
          ∙ ap (λ b. ok (arrived (b, fill_path s xs ys (suc i) path)) s) (bottom-succ_at s xs ys i))
