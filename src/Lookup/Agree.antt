-- ===== src/Lookup/Agree.antt =====
-- `_skip_lookup_` agrees with `_skip_locate_`.
use skiplist.Base.{ℕ, suc, ◌≤◌, ◌<◌, ◌≡◌, refl, List, ◌++◌, arith, length, length-append}
use skiplist.Store.{Ptr, Callbacks, Store, ok}
use skiplist.Chain.{IsOrder, IsInner, IsList}
use skiplist.Chain.Cuts.{Cut-of_Sorted}
use skiplist.Search.{SkipPath, clear_path, locate}
use skiplist.Search.Locate.{located, located_path, locate_lem}
use skiplist.Lookup.{lookup}
use skiplist.Lookup.Find.{lookup_lem}

module _ {E : Type 0} ⦃c : Callbacks E⦄ (order : IsOrder c) (s : Store E) (zs : List Ptr)
    (is : IsList s zs) (n : Ptr) (query : IsInner s n) (tries fuel : ℕ)
    (enough : length zs ≤ fuel) where
  -- On a well-formed list, with a comparison that is an order, for every query that is an inner node, and
  -- with fuel for the length of the list, both searches end at their first try and find the same node or
  -- none; `_skip_lookup_` changes nothing and `_skip_locate_` only hit counts.
  pub lookup-locate :
      (path : SkipPath)
      → (len : ℕ) × (p : SkipPath) × (s' : Store E) × (path' : SkipPath) × (locate
            (suc tries)
            (suc fuel)
            n
            clear_path
            s
          ≡ ok (len, p) s')
        × (lookup (suc tries) (suc fuel) n path s ≡ ok (p.found, path') s)
        × (path'.found ≡ p.found)
        × (s' ≡ record s { hits = s'.hits })
  lookup-locate path =
      let (xs, ys, split, cut) = Cut-of_Sorted order s n zs is.sorted in
      let here : IsList s (xs ++ ys) = rw split at is in
      let low : length xs < suc fuel =
        (let all = rw split at enough in omega (arith, all, length-append xs ys)) in
      let (path', run, same) =
        lookup_lem order s xs ys here n query cut (suc fuel) low tries path in
      (
        s.height s.head,
        located_path s xs ys n clear_path,
        located s ys n,
        path',
        locate_lem order s xs ys here n query cut (suc fuel) low tries clear_path,
        run,
        same,
        refl,
      )
