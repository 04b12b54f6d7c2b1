-- ===== src/Session/Place.antt =====
-- A node that has just been allocated, and given an entry, goes into the list.
use Prim.Native.Nat.{Ordering}
use skiplist.Base.{
  ℕ, suc, ◌≤◌, ◌≡◌, ◌≢◌, refl, sym, ap, ap₂, subst, ◌∙◌, inl, inr, ◌⊎◌, List, ◌∷◌, ◌++◌, length,
  map, none, some, All, All-map, All-pair, All-insert, NotIn, ==_ne, ==_self,
}
use skiplist.Store.{Ptr, Callbacks, Store, ok}
use skiplist.Chain.{IsOrder, IsList, Sorted}
use skiplist.Random.Toss.{IsSeed}
use skiplist.Search.Match.{NoEqual}
use skiplist.Insert.{done, eexist, insert, insert_dup}
use skiplist.Insert.Correct.{Inserted, insert_lem, insert_dup_lem}
use skiplist.Node.{free_node}
use skiplist.Life.Node.{
  with_node, with_node-IsList, with_node-IsInner, taken_back, taken_back-IsList,
}
use skiplist.Session.{entries, IsApart, IsReady}
use skiplist.Session.Reference.{enter, enter_dup}
use skiplist.Session.Entries.{map_congr, enter-of_Cut, enter_dup-of_Cut, enter-of_equal}

module _ {E : Type 0} ⦃c : Callbacks E⦄ where
  -- The sentinels are the same, and the memory is that of `s` less the node `n`.
  abbrev pub Spent : Store E → List Ptr → Store E → Type 0
  Spent s rest s' = (s'.head ≡ s.head) × (s'.tail ≡ s.tail) × (s'.supply ≡ rest)

  -- The node is in the list, and its entry has its place in the entries.
  abbrev pub Entered : Store E → List Ptr → List Ptr → E → Store E → Type 0
  Entered s zs rest e s' =
      (xs : List Ptr) × (n : Ptr) × (ys : List Ptr) × (zs ≡ xs ++ ys)
      × (s.supply ≡ n ∷ rest)
      × IsReady s' (xs ++ n ∷ ys)
      × (enter e (entries s zs) ≡ some (entries s' (xs ++ n ∷ ys)))
      × Spent s rest s'

  -- The same, for an entry that may be there already.
  abbrev pub EnteredDup : Store E → List Ptr → List Ptr → E → Store E → Type 0
  EnteredDup s zs rest e s' =
      (xs : List Ptr) × (n : Ptr) × (ys : List Ptr) × (zs ≡ xs ++ ys)
      × (s.supply ≡ n ∷ rest)
      × IsReady s' (xs ++ n ∷ ys)
      × (enter_dup e (entries s zs) ≡ entries s' (xs ++ n ∷ ys))
      × Spent s rest s'

  -- The list is as it was, with an entry that is equal to the new one.
  abbrev pub Kept : Store E → List Ptr → List Ptr → E → Store E → Type 0
  Kept s zs rest e s' =
      IsReady s' zs
      × (enter e (entries s zs) ≡ none)
      × (entries s' zs ≡ entries s zs)
      × Spent s rest s'

module _ {E : Type 0} ⦃c : Callbacks E⦄ (order : IsOrder c) (s : Store E) (zs : List Ptr)
    (ready : IsReady s zs) (n : Ptr) (rest : List Ptr) (given : s.supply ≡ n ∷ rest) (e : E) where
  apart : All (IsApart s zs) (n ∷ rest)
  apart = rw given at ready.apart

  others : All (λ m. n ≢ m) rest
  others = (rw given at ready.distinct).0

  abbrev new : Store E
  new = with_node s n rest e

  new_is_list : IsList new zs
  new_is_list = with_node-IsList s zs ready.list n rest apart.0.1 apart.0.2 apart.0.3 e

  pub same_entries : entries new zs ≡ entries s zs
  same_entries =
      map_congr new.entry s.entry zs
        (All-map (λ z. n ≢ z) zs (λ z d. let k = ==_ne (λ i. d (sym i)) in rw k) apart.0.3)

  new_entry : new.entry n ≡ e
  new_entry = rw (==_self n)

  -- The allocator's other addresses are fresh for the list with the node.
  IsApart-still :
      (xs ys : List Ptr) (s' : Store E)
      → zs ≡ xs ++ ys
      → s'.head ≡ s.head
      → s'.tail ≡ s.tail
      → All (IsApart s' (xs ++ n ∷ ys)) rest
  IsApart-still xs ys s' split head tail =
      All-map (λ m. IsApart s zs m × (n ≢ m)) rest
        (λ m k. (
          k.0.0,
          λ d. k.0.1 (d ∙ head),
          λ d. k.0.2 (d ∙ tail),
          All-insert (λ y. m ≢ y) xs ys n (subst (NotIn m) split k.0.3) (λ d. k.1 (sym d)),
        ))
        (All-pair (IsApart s zs) (λ m. n ≢ m) rest apart.1 others)

  entered-IsReady :
      (xs ys : List Ptr) (s' : Store E)
      → zs ≡ xs ++ ys
      → IsList s' (xs ++ n ∷ ys)
      → s'.head ≡ s.head
      → s'.tail ≡ s.tail
      → IsSeed s'.prng
      → s'.supply ≡ rest
      → s'.pres_era ≡ s.pres_era
      → IsReady s' (xs ++ n ∷ ys)
  entered-IsReady xs ys s' split list head tail seed supply pres = record {
    list = list;
    seed = seed;
    none_kept = pres ∙ ready.none_kept;
    apart = rw supply (IsApart-still xs ys s' split head tail);
    distinct = rw supply (rw given at ready.distinct).1;
  }

  entered : (s' : Store E) → Inserted new zs n s' → NoEqual new n zs → Entered s zs rest e s'
  entered s' (xs, ys, split, cut, list, same, live, head, tail, seed, supply, pres) unequal = (
    xs,
    n,
    ys,
    split,
    given,
    entered-IsReady xs ys s' split list head tail seed supply pres,
    ap₂ enter (sym new_entry) (sym same_entries ∙ ap (entries new) split)
        ∙ enter-of_Cut new xs ys n cut (subst (NoEqual new n) split unequal)
        ∙ ap (λ f. some (map f (xs ++ n ∷ ys))) (sym same),
    (head, tail, supply),
  )

  -- The new node is freed, and the list is as before.
  pub taken_back-IsReady : (hits : Ptr → ℕ → ℕ) → IsReady (taken_back s n rest e hits) zs
  taken_back-IsReady hits = record {
    list = taken_back-IsList s zs ready.list n rest apart.0.1 apart.0.2 apart.0.3 e hits;
    seed = ready.seed;
    none_kept = ready.none_kept;
    apart = apart.1;
    distinct = (rw given at ready.distinct).1;
  }

  kept :
      (xs : List Ptr) (y : Ptr) (ys : List Ptr) (hits : Ptr → ℕ → ℕ)
      → zs ≡ xs ++ y ∷ ys
      → c.compare_entries (new.entry y) (new.entry n) ≡ Ordering.eq
      → Kept s zs rest e (taken_back s n rest e hits)
  kept xs y ys hits split equal = (
    taken_back-IsReady hits,
    ap₂ enter (sym new_entry) (sym same_entries ∙ ap (entries new) split)
        ∙ enter-of_equal new order xs ys y n (subst (Sorted new) split new_is_list.sorted) equal,
    same_entries,
    (refl, refl, refl),
  )

  -- `skip_insert_` of the new node, with a comparison that is an order and fuel for the length of the list,
  -- ends as the reference does: the node is in the list where its entry belongs, or, when the list has an
  -- equal entry, it returns EEXIST, and the list is as it was once the node is freed.
  pub place_lem :
      (tries fuel : ℕ)
      → length zs ≤ fuel
      → ((s' : Store E) × (insert (suc tries) (suc fuel) n new ≡ ok done s')
          × Entered s zs rest e s')
        ⊎ ((s' : Store E) × (t : Store E) × (insert (suc tries) (suc fuel) n new ≡ ok eexist s')
            × (free_node n s' ≡ ok tt t)
            × Kept s zs rest e t)
  unfolding free_node
  place_lem tries fuel enough =
      let new_is_inner = with_node-IsInner s n rest apart.0.0 apart.0.1 apart.0.2 e in
      let (s', outcome) =
        insert_lem order new zs new_is_list n new_is_inner apart.0.3 ready.seed tries fuel enough in
      elim outcome [
        | inl (run, is_inserted, unequal) ↦ inl (s', run, entered s' is_inserted unequal)
        | inr (run, (xs, y, ys, split, equal, same)) ↦ inr (
          record new { hits = s'.hits },
          taken_back s n rest e s'.hits,
          run ∙ ap (ok eexist) same,
          rw (==_self n),
          kept xs y ys s'.hits split equal,
        )
      ]

  -- `skip_insert_dup_` of the new node, under the same conditions, puts the entry where the reference does.
  pub place_dup_lem :
      (tries fuel : ℕ)
      → length zs ≤ fuel
      → (s' : Store E) × (insert_dup (suc tries) (suc fuel) n new ≡ ok done s')
        × EnteredDup s zs rest e s'
  place_dup_lem tries fuel enough =
      let new_is_inner = with_node-IsInner s n rest apart.0.0 apart.0.1 apart.0.2 e in
      let (s', run, (xs, ys, split, cut, list, same, live, head, tail, seed, supply, pres)) =
        insert_dup_lem order new zs new_is_list n new_is_inner apart.0.3 ready.seed tries fuel
          enough in
      (
        s',
        run,
        (
          xs,
          n,
          ys,
          split,
          given,
          entered-IsReady xs ys s' split list head tail seed supply pres,
          ap₂ enter_dup (sym new_entry) (sym same_entries ∙ ap (entries new) split)
              ∙ enter_dup-of_Cut new xs ys n cut
              ∙ ap (λ f. map f (xs ++ n ∷ ys)) (sym same),
          (head, tail, supply),
        ),
      )
