-- ===== src/Insert/Entered.antt =====
-- The store behind the swap of `_skip_insert_`, and behind the whole insertion.
use skiplist.Base.{
  ℕ, ◌+◌, ◌≤◌, ◌<◌, ◌≡◌, ◌≢◌, inl, inr, Bool, true, false, not, List, [], ◌∷◌, ◌++◌, arith, ◌==◌,
  ==_ne, Bool-cases, if◌then◌else◌, All, All-map, All-pair, All-right, Ordered-right, NotIn,
  head_or,
}
use skiplist.Store.{Ptr, null, clean, Callbacks, max_height, Store, update, update₂}
use skiplist.Chain.{IsOrder, IsInner, IsList, NotAfter}
use skiplist.Chain.Levels.{at_level_zero}
use skiplist.Chain.Splice.{BackLinks-at}
use skiplist.Search.{clear_path}
use skiplist.Chain.Place.{pred_at, Cut}
use skiplist.Search.Match.{NoEqual-behind}
use skiplist.Search.Locate.{is_match, located, located_path}
use skiplist.Insert.{toss_max}
use skiplist.Insert.Phases.{prefilled}
use skiplist.Insert.Publish.{IsSwapped, published, spliced-at}
use skiplist.Insert.Shape.{Linked, Raised, BackLinked, NoEqual, IsList-inserted}
use skiplist.Insert.Neighbours.{
  raised, full_path, full_path-at, swapped-at, pred_apart, pred_live, pred_next, succ_apart,
  succ_live, swapped_settled,
}

module _ {E : Type 0} ⦃c : Callbacks E⦄ (order : IsOrder c) (s : Store E) (xs ys : List Ptr)
    (is : IsList s (xs ++ ys)) (n : Ptr) (new : IsInner s n) (fresh : NotIn n (xs ++ ys))
    (cut : Cut s xs ys n) where
  open is use {ends}

  abbrev top : ℕ
  top = s.height s.head

  abbrev found : Bool
  found = is_match s ys n

  pub none-equal : is_match s ys n ≡ false → NoEqual order s xs ys is n new fresh cut 0
  none-equal e = NoEqual-behind s n order ys e cut.rest (Ordered-right (NotAfter s) xs ys is.sorted)

  -- the store just behind the swap at level 0
  abbrev pub swapped : ℕ → ℕ → Store E
  swapped h state = record s {
    hits = (located s ys n).hits;
    has_dups = if (located_path s xs ys n clear_path).found == null then s.has_dups else true;
    prng = state;
    height = raised s (update s.height n h) top h;
    next =
        update₂ (prefilled n (full_path order s xs ys is n new fresh cut h) s.next 0 (h + 1))
          ((full_path order s xs ys is n new fresh cut h).pred 0) 0 (clean n);
  }

  -- the store with the new node of height `h`, and the generator at `state`
  abbrev pub entered : ℕ → ℕ → Store E
  entered h state = published n (full_path order s xs ys is n new fresh cut h) h (swapped h state)

  match-ne_null : found ≡ true → head_or null ys ≢ null
  match-ne_null e = go ys e (All-right (IsInner s) xs ys is.inner)
    where
      go : (l : List Ptr) → is_match s l n ≡ true → All (IsInner s) l → head_or null l ≢ null
      go [] e inner = cc
      go (y ∷ l) e inner = inner.0.ne_null

  pub found_null : ((located_path s xs ys n clear_path).found == null) ≡ not found
  found_null = elim (Bool-cases found) [ inl e ↦ rw (e, ==_ne (match-ne_null e)) | inr e ↦ rw e ]

  module _ (h state : ℕ) (low : h ≤ toss_max top) where
    pub toss-low : h + 1 < max_height
    toss-low = ground (arith, ends.head_high)

    entered-Linked : Linked s xs ys n (entered h state).next h
    entered-Linked = record {
      low = λ i k.
          let e = full_path-at order s xs ys is n new fresh cut h i k in
          let p = pred_at s xs i in
          let ne = pred_apart order s xs ys is n new fresh cut h (omega (arith, toss-low)) i k in
          (
            λ q dn dp. ground (
              arith,
              spliced-at n (full_path order s xs ys is n new fresh cut h) s.next h q i,
              e.0,
            ),
            ground (
              arith,
              spliced-at n (full_path order s xs ys is n new fresh cut h) s.next h p i,
              e.0,
            ),
            ground (
              arith,
              spliced-at n (full_path order s xs ys is n new fresh cut h) s.next h n i,
              e.1,
              ne,
            ),
          );
      high = λ i k q dn.
          ground (arith, spliced-at n (full_path order s xs ys is n new fresh cut h) s.next h q i);
    }

    entered-Raised : Raised s xs ys n (entered h state).height h
    entered-Raised = record {
      new = ground (arith, new.ne_head, new.ne_tail);
      old =
          All-map (λ q. IsInner s q × (n ≢ q)) (xs ++ ys)
            (λ q k. ground (arith, k.0.ne_head, k.0.ne_tail, k.1))
            (All-pair (IsInner s) (λ q. n ≢ q) (xs ++ ys) is.inner fresh);
      above = ground (arith, new.ne_head, ends.head_ne_tail, ends.head_low);
      grown = ground (arith, new.ne_head, ends.head_ne_tail, ends.head_low);
      bound = ground (arith, new.ne_head, ends.head_ne_tail, ends.head_high, toss-low);
    }

    entered-BackLinked : BackLinked s xs ys n (entered h state).prev
    entered-BackLinked =
        let e = full_path-at order s xs ys is n new fresh cut h 0 (omega arith) in
        let ne = succ_apart order s xs ys is n new fresh cut h (omega (arith, toss-low)) in
        record {
          new = ground (arith, e.0, ne);
          after = ground (arith, e.1);
          same = λ q dn ds. ground (arith, e.1);
        }

    pub entered-IsList : IsList (entered h state) (xs ++ n ∷ ys)
    entered-IsList =
        IsList-inserted order s xs ys is n new fresh cut h (entered h state).next
          (entered h state).height (entered h state).prev (entered h state).has_dups entered-Linked
          entered-Raised entered-BackLinked
          (λ e. (ground (arith, found_null), none-equal (ground (arith, found_null))))

  pub swapped-IsSwapped :
      (h state : ℕ)
      → h < max_height
      → IsSwapped n (full_path order s xs ys is n new fresh cut h) h (swapped h state)
  swapped-IsSwapped h state low = record {
    live = new.live;
    low = low;
    own = λ j k. ground (
      arith,
      swapped-at order s xs ys is n new fresh cut h low n j,
      pred_apart order s xs ys is n new fresh cut h low 0 (omega arith),
    );
    cur = λ j a k. ground (
      arith,
      swapped-at order s xs ys is n new fresh cut h low
          ((full_path order s xs ys is n new fresh cut h).pred j) j,
      pred_apart order s xs ys is n new fresh cut h low j k,
      pred_next order s xs ys is n new fresh cut h low j k,
    );
    alive = pred_live order s xs ys is n new fresh cut h low;
    apart = pred_apart order s xs ys is n new fresh cut h low;
    settled = swapped_settled order s xs ys is n new fresh cut h low;
    succ_live = succ_live order s xs ys is n new fresh cut h low;
    succ_apart = succ_apart order s xs ys is n new fresh cut h low;
    back =
        rw
          (
            (full_path-at order s xs ys is n new fresh cut h 0 (omega arith)).0,
            (full_path-at order s xs ys is n new fresh cut h 0 (omega arith)).1,
            at_level_zero s.height xs,
            at_level_zero s.height ys,
          )
          (BackLinks-at s.prev s.tail s.head xs ys is.back);
  }
