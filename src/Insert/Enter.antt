-- ===== src/Insert/Enter.antt =====
-- The whole of `_skip_insert_` on the memory of a list.
use skiplist.Base.{
  ℕ, suc, ◌+◌, ◌≤◌, ◌<◌, ◌≡◌, Bool, true, false, not, ◌&&◌, List, ◌++◌, arith, ◌==◌, ==_ne,
  if◌then◌else◌, length, ◌||◌, NotIn,
}
use skiplist.Store.{
  Ptr, null, clean, link_eq, Callbacks, max_height, Store, Cmd, Run, ok, pure, update,
}
use skiplist.Store.Access.{store_height-ok, cas_next-won}
use skiplist.Chain.{IsOrder, IsInner, IsList}
use skiplist.Search.{SkipPath, clear_path}
use skiplist.Chain.Place.{Cut}
use skiplist.Search.Locate.{is_match, located, located_path, locate_lem}
use skiplist.Random.{toss}
use skiplist.Random.Toss.{IsSeed, toss-Tossed}
use skiplist.Insert.{Status, done, enoent, eexist, enter, swap_in, toss_max, insert_node}
use skiplist.Insert.Phases.{prefilled, prefilled-at, prefill_lem}
use skiplist.Insert.Publish.{publish_lem}
use skiplist.Insert.Neighbours.{raised, grow_lem, full_path, pred_apart, pred_live, pred_next}
use skiplist.Insert.Entered.{swapped, toss-low, found_null, swapped-IsSwapped, entered}

module _ {E : Type 0} ⦃c : Callbacks E⦄ (order : IsOrder c) (s : Store E) (xs ys : List Ptr)
    (is : IsList s (xs ++ ys)) (n : Ptr) (new : IsInner s n) (fresh : NotIn n (xs ++ ys))
    (cut : Cut s xs ys n) where
  open is use {ends}

  abbrev top : ℕ
  top = s.height s.head

  abbrev found : Bool
  found = is_match s ys n

  -- the store behind the search, with the generator at `state`
  abbrev searched : ℕ → Store E
  searched state = record s {
    hits = (located s ys n).hits;
    has_dups = if (located_path s xs ys n clear_path).found == null then s.has_dups else true;
    prng = state;
  }

  swap_in_lem :
      (h state : ℕ)
      → h ≤ toss_max top
      → swap_in n top (located_path s xs ys n clear_path) h (searched state)
        ≡ ok
            (true, full_path order s xs ys is n new fresh cut h)
            (swapped order s xs ys is n new fresh cut h state)
  unfolding swap_in
  swap_in_lem h state low =
      let path = full_path order s xs ys is n new fresh cut h in
      let s₂ = searched state in
      let s₃ = record s₂ { height = update s.height n h } in
      let s₄ = record s₂ { height = raised s (update s.height n h) top h } in
      let s₅ = record s₄ { next = prefilled n path s.next 0 (h + 1) } in
      let below : h < max_height =
        omega (arith, toss-low order s xs ys is n new fresh cut h state low) in
      let expected : link_eq (clean (path.succ 0))
            (prefilled n path s.next 0 (h + 1) (path.pred 0) 0)
          ≡ true =
        ground (
          arith,
          prefilled-at n path s.next 0 (h + 1) (path.pred 0) 0,
          pred_apart order s xs ys is n new fresh cut h below 0 (omega arith),
          pred_next order s xs ys is n new fresh cut h below 0 (omega arith),
        ) in
      rw (
        store_height-ok s₂ n new.live h,
        grow_lem s₃ top h ends.head_live ends.tail_live (ground (arith, new.ne_head)) ends.head_low,
        prefill_lem n path 0 (h + 1) s₄ new.live (omega arith),
        cas_next-won s₅ (path.pred 0)
            (pred_live order s xs ys is n new fresh cut h below 0 (omega arith)) 0 (omega arith)
            (clean (path.succ 0)) (clean n) expected,
      )

  -- What is behind the refusals, once the height is known.
  enter-tossed :
      (tries fuel : ℕ) (again : Cmd E Status) (h state : ℕ)
      → toss (suc fuel) (toss_max top) (searched s.prng) ≡ ok h (searched state)
      → h ≤ toss_max top
      → enter
          (suc tries)
          (suc fuel)
          n
          top
          (located_path s xs ys n clear_path)
          again
          (located s ys n)
        ≡ ok done (entered order s xs ys is n new fresh cut h state)
  unfolding enter
  enter-tossed tries fuel again h state tossed low =
      let below : h < max_height =
        omega (arith, toss-low order s xs ys is n new fresh cut h state low) in
      rw (
        tossed,
        swap_in_lem h state low,
        publish_lem n (full_path order s xs ys is n new fresh cut h) h
            (swapped order s xs ys is n new fresh cut h state) tries fuel
            (swapped-IsSwapped order s xs ys is n new fresh cut h state below),
      )

  -- Neither refusal applies.
  accepted :
      (len : ℕ) (path : SkipPath) (dups : Bool) (m : Cmd E Status) (t : Store E) (r : Run E Status)
      → (len == 0) ≡ false
      → (not (path.found == null) && not dups) ≡ false
      → m t ≡ r
      → (if len == 0
            then pure enoent
            else if not (path.found == null) && not dups
            then pure eexist
            else m)
          t
        ≡ r
  accepted len path dups m t r some_level allowed e = rw (some_level, allowed) e

  refuse :
      (len : ℕ) (path : SkipPath) (m : Cmd E Status) (t : Store E)
      → (len == 0) ≡ false
      → (not (path.found == null) && true) ≡ true
      → (if len == 0
            then pure enoent
            else if not (path.found == null) && true
            then pure eexist
            else m)
          t
        ≡ ok eexist t
  refuse len path m t some_level equal = rw (some_level, equal)

  -- The whole insertion, when there is no equal node or duplicates are allowed.
  pub insert_node_lem :
      (tries fuel : ℕ) (dups : Bool)
      → length xs ≤ fuel
      → IsSeed s.prng
      → (not found || dups) ≡ true
      → (h : ℕ) × (state : ℕ) × (h ≤ toss_max top)
        × IsSeed state
        × (insert_node (suc tries) (suc fuel) n dups s
            ≡ ok done (entered order s xs ys is n new fresh cut h state))
  unfolding insert_node
  insert_node_lem tries fuel dups enough seed allowed =
      let (h, state, tossed, low, seed') = toss-Tossed fuel (toss_max top) (searched s.prng) seed in
      let some_level : (top == 0) ≡ false = ground (arith, ends.head_low) in
      let not_refused : (not ((located_path s xs ys n clear_path).found == null) && not dups)
          ≡ false =
        ground (arith, found_null order s xs ys is n new fresh cut) in
      (
        h,
        state,
        low,
        seed',
        rw
            (
              ==_ne new.ne_null,
              locate_lem order s xs ys is n new cut (suc fuel) (omega arith) tries clear_path,
            )
            (accepted top (located_path s xs ys n clear_path) dups
              (enter (suc tries) (suc fuel) n top (located_path s xs ys n clear_path)
                (insert_node tries (suc fuel) n dups))
              (located s ys n) (ok done (entered order s xs ys is n new fresh cut h state))
              some_level not_refused
              (enter-tossed tries fuel (insert_node tries (suc fuel) n dups) h state tossed low)),
      )

  -- With an equal node and no duplicates allowed, the search alone has happened.
  pub refused_lem :
      (tries fuel : ℕ)
      → length xs ≤ fuel
      → found ≡ true
      → insert_node (suc tries) (suc fuel) n false s ≡ ok eexist (located s ys n)
  unfolding insert_node
  refused_lem tries fuel enough equal =
      let some_level : (top == 0) ≡ false = ground (arith, ends.head_low) in
      let refused : (not ((located_path s xs ys n clear_path).found == null) && true) ≡ true =
        ground (arith, found_null order s xs ys is n new fresh cut) in
      rw
        (
          ==_ne new.ne_null,
          locate_lem order s xs ys is n new cut (suc fuel) (omega arith) tries clear_path,
        )
        (refuse top (located_path s xs ys n clear_path) _ (located s ys n) some_level refused)
