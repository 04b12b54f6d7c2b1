-- ===== src/Remove/Correct.antt =====
-- What skip_remove_node_ does on every list.
use Prim.Native.Nat.{Ordering}
use skiplist.Base.{
  ℕ, suc, ◌≤◌, ◌<◌, ◌≡◌, ◌≢◌, ◌⊎◌, refl, ap, ◌∙◌, inl, inr, false, List, ◌∷◌, ◌++◌, arith, length,
  length-append, All-right, ltb, ==_ne, ◌==◌, if◌then◌else◌,
}
use skiplist.Store.{Ptr, null, Callbacks, Store, Run, ok, pure, update}
use skiplist.Chain.{IsOrder, IsInner, IsList}
use skiplist.Chain.Cuts.{Cut-of_Sorted}
use skiplist.Chain.Place.{Cut}
use skiplist.Search.{clear_path}
use skiplist.Search.Match.{NoEqual, NoEqual-of_Cut, first-equal}
use skiplist.Search.Locate.{is_match, located, located_path, locate_lem}
use skiplist.Insert.{Status, done, enoent}
use skiplist.Remove.{take_out, remove_found, remove_node}
use skiplist.Remove.Gone.{gone, take_out_lem}

module _ {E : Type 0} ⦃c : Callbacks E⦄ where
  -- What a removal that succeeds makes of the store `s` with the list `zs`: the first node that is
  -- equal to the query is out of the list, and retired if there is a reclamation, else freed.
  abbrev pub Removed : Store E → List Ptr → Ptr → Store E → Type 0
  Removed s zs q s' =
      (xs : List Ptr) × (n : Ptr) × (ys : List Ptr) × (zs ≡ xs ++ n ∷ ys)
      × Cut s xs (n ∷ ys) q
      × (c.compare_entries (s.entry n) (s.entry q) ≡ Ordering.eq)
      × IsList s' (xs ++ ys)
      × (s'.entry ≡ s.entry)
      × (s'.live ≡ (if s.ebr then s.live else update s.live n false))
      × (s'.retired ≡ (if s.ebr then n ∷ s.retired else s.retired))
      × (s'.head ≡ s.head)
      × (s'.tail ≡ s.tail)
      × (s'.prng ≡ s.prng)
      × (s'.supply ≡ s.supply)
      × (s'.pres_era ≡ s.pres_era)

  module _ (order : IsOrder c) (s : Store E) (zs : List Ptr) (is : IsList s zs) (q : Ptr)
      (query : IsInner s q) (none_kept : s.pres_era ≡ 0) (tries fuel : ℕ)
      (enough : length zs ≤ suc fuel) where
    found_run :
        (t : Store E) (n : Ptr)
        → ltb 0 t.pres_era ≡ false
        → remove_found (suc tries) (suc (suc fuel)) n t ≡ take_out (suc tries) (suc (suc fuel)) n t
    unfolding remove_found
    found_run t n e = rw (e, e)

    enter_found :
        (p m n : Ptr) (t : Store E) (r : Run E Status)
        → m ≡ n
        → n ≢ null
        → remove_found (suc tries) (suc (suc fuel)) n t ≡ r
        → (if m == null then pure enoent else remove_found (suc tries) (suc (suc fuel)) m) t ≡ r
    enter_found p m n t r e ne run = rw (e, ==_ne ne) run

    found_here :
        (xs : List Ptr) (n : Ptr) (ys : List Ptr)
        → c.compare_entries (s.entry n) (s.entry q) ≡ Ordering.eq
        → (located_path s xs (n ∷ ys) q clear_path).found ≡ n
    found_here xs n ys equal = rw (is_match, equal)

    no_snapshot : ltb 0 s.pres_era ≡ false
    no_snapshot = ground arith

    module _ (xs ys : List Ptr) (split : zs ≡ xs ++ ys) (cut : Cut s xs ys q) where
      is' : IsList s (xs ++ ys)
      is' = rw split at is

      short : length xs < suc (suc fuel)
      short = let all = rw split at enough in omega (arith, all, length-append xs ys)

      absent : is_match s ys q ≡ false → remove_node (suc tries) (suc (suc fuel)) q s ≡ ok enoent s
      unfolding remove_node
      absent none = rw (
        ==_ne query.ne_null,
        locate_lem order s xs ys is' q query cut (suc (suc fuel)) short tries clear_path,
        none,
      )

    found :
        (xs : List Ptr) (n : Ptr) (ys : List Ptr)
        → zs ≡ xs ++ n ∷ ys
        → Cut s xs (n ∷ ys) q
        → c.compare_entries (s.entry n) (s.entry q) ≡ Ordering.eq
        → (s' : Store E) × (remove_node (suc tries) (suc (suc fuel)) q s ≡ ok done s')
          × Removed s zs q s'
    unfolding remove_node
    found xs n ys split cut equal =
        let here = is' xs (n ∷ ys) split cut in
        let t = located s (n ∷ ys) q in
        let all : length (xs ++ n ∷ ys) ≤ suc fuel = rw split at enough in
        let (g, k, run, list) = take_out_lem order t xs ys n here fuel all tries in
        let inner : IsInner s n = (All-right (IsInner s) xs (n ∷ ys) here.inner).0 in
        (
          gone order t xs ys n here fuel all g k,
          rw
              (
                ==_ne query.ne_null,
                locate_lem order s xs (n ∷ ys) here q query cut (suc (suc fuel))
                    (short xs (n ∷ ys) split cut) tries clear_path,
              )
              (enter_found n (located_path s xs (n ∷ ys) q clear_path).found n t _
                (found_here xs n ys equal) inner.ne_null (found_run t n no_snapshot ∙ run)),
          (xs, n, ys, split, cut, equal, list, refl, refl, refl, refl, refl, refl, refl, refl),
        )

    -- `skip_remove_node_` on the list `zs`, for a query that is an inner node, with a comparison that is
    -- an order, no snapshot, and fuel for the length of the list: if no node is equal to the query it
    -- returns ENOENT and changes nothing; else it returns 0, the first equal node is out of the list,
    -- which stays well-formed, and the node is retired if there is a reclamation, else freed.
    pub remove_lem :
        ((remove_node (suc tries) (suc (suc fuel)) q s ≡ ok enoent s) × NoEqual s q zs)
        ⊎ ((s' : Store E) × (remove_node (suc tries) (suc (suc fuel)) q s ≡ ok done s')
            × Removed s zs q s')
    remove_lem =
        let (xs, ys, split, cut) = Cut-of_Sorted order s q zs is.sorted in
        elim (first-equal s q ys) [
          | inl none ↦ inl (
            absent xs ys split cut none,
            rw split (NoEqual-of_Cut s q order xs ys cut (is' xs ys split cut).sorted none),
          )
          | inr (n, l, e, equal) ↦
              inr (found xs n l (split ∙ ap (λ l'. xs ++ l') e) (rw e at cut) equal)
        ]
