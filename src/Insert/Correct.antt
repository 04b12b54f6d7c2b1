-- ===== src/Insert/Correct.antt =====
-- What `skip_insert_` and `skip_insert_dup_` do on every list.
use Prim.Native.Nat.{Ordering}
use skiplist.Base.{
  ℕ, suc, ◌≤◌, ◌≡◌, ◌≢◌, ◌⊎◌, refl, inl, inr, Bool, true, false, not, ◌||◌, List, ◌∷◌, ◌++◌, arith,
  Bool-cases, length, length-append, All, ap, ◌∙◌, NotIn,
}
use skiplist.Store.{Ptr, Callbacks, Store, ok}
use skiplist.Chain.{IsOrder, IsInner, IsList}
use skiplist.Chain.Cuts.{Cut-of_Sorted}
use skiplist.Chain.Place.{Cut}
use skiplist.Search.Match.{NoEqual-of_Cut, first-equal}
use skiplist.Search.Locate.{is_match, located}
use skiplist.Random.Toss.{IsSeed}
use skiplist.Insert.{done, eexist, insert, insert_dup, insert_node}
use skiplist.Insert.Entered.{entered, entered-IsList}
use skiplist.Insert.Enter.{insert_node_lem, refused_lem}

module _ {E : Type 0} ⦃c : Callbacks E⦄ where
  -- What an insertion that succeeds makes of the store `s` with the list `zs`: the node is in the
  -- list, behind all that precede it and before all others; the entries of all nodes are the same.
  abbrev pub Inserted : Store E → List Ptr → Ptr → Store E → Type 0
  Inserted s zs n s' =
      (xs : List Ptr) × (ys : List Ptr) × (zs ≡ xs ++ ys)
      × Cut s xs ys n
      × IsList s' (xs ++ n ∷ ys)
      × (s'.entry ≡ s.entry)
      × (s'.live ≡ s.live)
      × (s'.head ≡ s.head)
      × (s'.tail ≡ s.tail)
      × IsSeed s'.prng
      × (s'.supply ≡ s.supply)
      × (s'.pres_era ≡ s.pres_era)

  -- A refused insertion has only counted hits, on a node that is equal to the new one.
  abbrev pub Refused : Store E → List Ptr → Ptr → Store E → Type 0
  Refused s zs n s' =
      (xs : List Ptr) × (y : Ptr) × (ys : List Ptr) × (zs ≡ xs ++ y ∷ ys)
      × (c.compare_entries (s.entry y) (s.entry n) ≡ Ordering.eq)
      × (s' ≡ record s { hits = s'.hits })

  module _ (order : IsOrder c) (s : Store E) (zs : List Ptr) (is : IsList s zs) (n : Ptr)
      (new : IsInner s n) (fresh : NotIn n zs) (seed : IsSeed s.prng) (tries fuel : ℕ)
      (enough : length zs ≤ fuel) where
    module _ (xs ys : List Ptr) (split : zs ≡ xs ++ ys) (cut : Cut s xs ys n) where
      is' : IsList s (xs ++ ys)
      is' = rw split at is

      fresh' : NotIn n (xs ++ ys)
      fresh' = rw split at fresh

      short : length xs ≤ fuel
      short = let all = rw split at enough in omega (arith, all, length-append xs ys)

      inserted :
          (dups : Bool)
          → (not (is_match s ys n) || dups) ≡ true
          → (s' : Store E) × (insert_node (suc tries) (suc fuel) n dups s ≡ ok done s')
            × Inserted s zs n s'
      inserted dups allowed =
          let (h, state, low, seed', run) =
            insert_node_lem order s xs ys is' n new fresh' cut tries fuel dups short seed allowed in
          (
            entered order s xs ys is' n new fresh' cut h state,
            run,
            (
              xs,
              ys,
              split,
              cut,
              entered-IsList order s xs ys is' n new fresh' cut h state low,
              refl,
              refl,
              refl,
              refl,
              seed',
              refl,
              refl,
            ),
          )

      refused :
          is_match s ys n ≡ true
          → (insert_node (suc tries) (suc fuel) n false s ≡ ok eexist (located s ys n))
            × Refused s zs n (located s ys n)
      refused found = elim (first-equal s n ys) [
        | inl none ↦ absurd (cc)
        | inr (y, l, e, equal) ↦ (
          refused_lem order s xs ys is' n new fresh' cut tries fuel short found,
          (xs, y, l, split ∙ ap (λ l'. xs ++ l') e, equal, refl),
        )
      ]

      no-equal :
          is_match s ys n ≡ false
          → All (λ y. c.compare_entries (s.entry y) (s.entry n) ≢ Ordering.eq) zs
      no-equal none = rw split (NoEqual-of_Cut s n order xs ys cut (rw split at is.sorted) none)

    -- `skip_insert_dup_` of a new node into the list `zs`, with a comparison that is an order, a state of
    -- the generator that is not zero, and fuel for the length of the list: it returns 0, and the node is
    -- at its place in a well-formed list.
    pub insert_dup_lem :
        (s' : Store E) × (insert_dup (suc tries) (suc fuel) n s ≡ ok done s') × Inserted s zs n s'
    unfolding insert_dup
    insert_dup_lem =
        let (xs, ys, split, cut) = Cut-of_Sorted order s n zs is.sorted in
        inserted xs ys split cut true (ground arith)

    -- `skip_insert_` under the same conditions: if no node is equal to the new one it returns 0, and the
    -- node is at its place in a well-formed list; else it returns EEXIST, and only hit counts change.
    pub insert_lem :
        (s' : Store E) × (((insert (suc tries) (suc fuel) n s ≡ ok done s')
            × Inserted s zs n s'
            × All (λ y. c.compare_entries (s.entry y) (s.entry n) ≢ Ordering.eq) zs)
          ⊎ ((insert (suc tries) (suc fuel) n s ≡ ok eexist s') × Refused s zs n s'))
    unfolding insert
    insert_lem =
        let (xs, ys, split, cut) = Cut-of_Sorted order s n zs is.sorted in
        elim (Bool-cases (is_match s ys n)) [
          | inl found ↦
              let (run, is_refused) = refused xs ys split cut found in
              (located s ys n, inr (run, is_refused))
          | inr none ↦
              let (s', run, is_inserted) = inserted xs ys split cut false (ground arith) in
              (s', inl (run, is_inserted, no-equal xs ys split cut none))
        ]
