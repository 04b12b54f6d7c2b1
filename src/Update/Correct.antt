-- ===== src/Update/Correct.antt =====
-- What skip_update_ does on every list.
use Prim.Native.Nat.{Ordering}
use skiplist.Base.{
  ℕ, suc, ◌≤◌, ◌<◌, ◌≡◌, ◌≢◌, ◌⊎◌, refl, sym, ap, ◌∙◌, inl, inr, true, false, List, ◌∷◌, ◌++◌,
  arith, length, length-append, All-right, Ordered-map, ltb, ==_ne, ◌==◌, if◌then◌else◌, Bool-cases,
}
use skiplist.Store.{Ptr, null, Callbacks, Store, Run, ok, pure, update, load_entry}
use skiplist.Chain.{IsOrder, IsInner, IsList, Before, NotAfter}
use skiplist.Chain.Cuts.{Cut-of_Sorted}
use skiplist.Chain.Place.{Cut}
use skiplist.Search.{clear_path}
use skiplist.Search.Match.{NoEqual, NoEqual-of_Cut, first-equal}
use skiplist.Search.Locate.{is_match}
use skiplist.Lookup.Find.{matched, touched, lookup_with_splay_lem}
use skiplist.Insert.{Status, done, enoent}
use skiplist.Update.{change_entry, stamp_era, update_found, update_node}

module _ {E : Type 0} ⦃c : Callbacks E⦄ where
  -- The user's block leaves the part of the entry that the order reads.
  abbrev pub KeepsOrder : E → E → Type 0
  KeepsOrder e e' =
      ((d : E) → c.compare_entries e' d ≡ c.compare_entries e d)
      × ((d : E) → c.compare_entries d e' ≡ c.compare_entries d e)

  module _ (s : Store E) (n : Ptr) (e' : E) (keeps : KeepsOrder (s.entry n) e') where
    abbrev pub changed : Store E
    changed = record s { entry = update s.entry n e' }

    same_order :
        (p q : Ptr)
        → c.compare_entries (changed.entry p) (changed.entry q)
          ≡ c.compare_entries (s.entry p) (s.entry q)
    same_order p q = elim (Bool-cases (p == n)) [
      | inl a ↦
          let p_n : p ≡ n = ground arith in
          elim (Bool-cases (q == n)) [
            | inl b ↦
                let q_n : q ≡ n = ground arith in
                rw (a, b, p_n, q_n) (keeps.0 e' ∙ keeps.1 (s.entry n))
            | inr b ↦ rw (a, b, p_n) (keeps.0 (s.entry q))
          ]
      | inr a ↦ elim (Bool-cases (q == n)) [
        | inl b ↦ let q_n : q ≡ n = ground arith in rw (a, b, q_n) (keeps.1 (s.entry p))
        | inr b ↦ rw (a, b)
      ]
    ]

    changed-IsList : (zs : List Ptr) → IsList s zs → IsList changed zs
    changed-IsList zs is = record {
      ends = is.ends;
      inner = is.inner;
      distinct = is.distinct;
      links = is.links;
      back = is.back;
      low = is.low;
      sorted =
          Ordered-map (NotAfter s) (NotAfter changed) (λ p q k e. k (sym (same_order p q) ∙ e)) zs
            is.sorted;
      strict = λ e.
          Ordered-map (Before s) (Before changed) (λ p q k. same_order p q ∙ k) zs (is.strict e);
      counted = is.counted;
    }

  -- What an update that succeeds makes of the store `s` with the list `zs`: the entry of the first node
  -- that is equal to the query is changed, and the list has the same nodes.
  abbrev pub Updated : Store E → List Ptr → Ptr → ℕ → Store E → Type 0
  Updated s zs q value s' =
      (xs : List Ptr) × (n : Ptr) × (ys : List Ptr) × (zs ≡ xs ++ n ∷ ys)
      × Cut s xs (n ∷ ys) q
      × (c.compare_entries (s.entry n) (s.entry q) ≡ Ordering.eq)
      × IsList s' zs
      × (s'.entry ≡ update s.entry n (c.update_entry (s.entry n) value))
      × (s'.live ≡ s.live)

  module _ (order : IsOrder c) (s : Store E) (zs : List Ptr) (is : IsList s zs) (q : Ptr)
      (query : IsInner s q) (none_kept : s.pres_era ≡ 0) (value : ℕ)
      (keeps : (e : E) → KeepsOrder e (c.update_entry e value)) (tries fuel : ℕ)
      (enough : length zs ≤ fuel) where
    found_run :
        (t : Store E) (n : Ptr)
        → ltb 0 t.pres_era ≡ false
        → t.live n ≡ true
        → update_found n value t
          ≡ ok done (record t { entry = update t.entry n (c.update_entry (t.entry n) value) })
    unfolding update_found stamp_era change_entry load_entry
    found_run t n e live = rw (e, e, live)

    enter_found :
        (m n : Ptr) (t : Store E) (r : Run E Status)
        → m ≡ n
        → n ≢ null
        → update_found n value t ≡ r
        → (if m == null then pure enoent else update_found m value) t ≡ r
    enter_found m n t r e ne run = rw (e, ==_ne ne) run

    no_snapshot : ltb 0 s.pres_era ≡ false
    no_snapshot = ground arith

    short : (xs ys : List Ptr) → zs ≡ xs ++ ys → length xs < suc fuel
    short xs ys split = let all = rw split at enough in omega (arith, all, length-append xs ys)

    absent :
        (xs ys : List Ptr)
        → zs ≡ xs ++ ys
        → Cut s xs ys q
        → is_match s ys q ≡ false
        → update_node (suc tries) (suc fuel) q value s ≡ ok enoent s
    unfolding update_node
    absent xs ys split cut none =
        let (path, run) =
          lookup_with_splay_lem order s xs ys (rw split at is) q query cut (suc fuel)
            (short xs ys split) tries clear_path in
        rw (run, none)

    found :
        (xs : List Ptr) (n : Ptr) (ys : List Ptr)
        → zs ≡ xs ++ n ∷ ys
        → Cut s xs (n ∷ ys) q
        → c.compare_entries (s.entry n) (s.entry q) ≡ Ordering.eq
        → (s' : Store E) × (update_node (suc tries) (suc fuel) q value s ≡ ok done s')
          × Updated s zs q value s'
    unfolding update_node
    found xs n ys split cut equal =
        let here : IsList s (xs ++ n ∷ ys) = rw split at is in
        let inner : IsInner s n = (All-right (IsInner s) xs (n ∷ ys) here.inner).0 in
        let low = short xs (n ∷ ys) split in
        let (path, run) =
          lookup_with_splay_lem order s xs (n ∷ ys) here q query cut (suc fuel) low tries
            clear_path in
        let t = touched order s xs (n ∷ ys) here q query cut (suc fuel) low in
        let it : matched s (n ∷ ys) q ≡ n = rw (is_match, equal) in
        (
          changed t n (c.update_entry (s.entry n) value) (keeps (s.entry n)),
          rw run (
              enter_found (matched s (n ∷ ys) q) n t _ it inner.ne_null
                (found_run t n no_snapshot inner.live)),
          (
            xs,
            n,
            ys,
            split,
            cut,
            equal,
            changed-IsList t n (c.update_entry (s.entry n) value) (keeps (s.entry n)) zs is,
            refl,
            refl,
          ),
        )

    -- `skip_update_` on the list `zs`, for a query that is an inner node, with a comparison that is an
    -- order, a block that keeps the order of the entries, no snapshot, and fuel for the length of the
    -- list: if no node is equal to the query it returns ENOENT and changes nothing; else it returns 0, the
    -- first equal node has the new entry, and the list is well-formed with the same nodes.
    pub update_lem :
        ((update_node (suc tries) (suc fuel) q value s ≡ ok enoent s) × NoEqual s q zs)
        ⊎ ((s' : Store E) × (update_node (suc tries) (suc fuel) q value s ≡ ok done s')
            × Updated s zs q value s')
    update_lem =
        let (xs, ys, split, cut) = Cut-of_Sorted order s q zs is.sorted in
        elim (first-equal s q ys) [
          | inl none ↦ inl (
            absent xs ys split cut none,
            rw split (NoEqual-of_Cut s q order xs ys cut (rw split at is.sorted) none),
          )
          | inr (n, l, e, equal) ↦
              inr (found xs n l (split ∙ ap (λ l'. xs ++ l') e) (rw e at cut) equal)
        ]
