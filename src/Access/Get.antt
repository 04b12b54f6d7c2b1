-- ===== src/Access/Get.antt =====
-- What skip_get_ and skip_contains_ find on every list.
use Prim.Native.Nat.{Ordering}
use skiplist.Base.{
  ap₂, ℕ, suc, ◌≤◌, ◌<◌, ◌≡◌, ◌≢◌, ◌⊎◌, refl, sym, ap, ◌∙◌, inl, inr, true, false, List, ◌∷◌, ◌++◌,
  arith, length, length-append, All, All-map, All-pair, All-left, All-right, NotIn, ==_ne, ==_self,
}
use skiplist.Store.{Ptr, null, Callbacks, Store, ok, update, load_entry}
use skiplist.Chain.{IsOrder, IsInner, IsList, Before}
use skiplist.Chain.Cuts.{Cut-of_Sorted}
use skiplist.Chain.Place.{Cut}
use skiplist.Search.{clear_path}
use skiplist.Search.Match.{NoEqual, NoEqual-of_Cut, first-equal}
use skiplist.Search.Locate.{is_match}
use skiplist.Lookup.Find.{matched, touched, lookup_with_splay_lem}
use skiplist.Position.{position_eq}
use skiplist.Access.{Fields, begin_query, end_query, get_value, contains}
use skiplist.Access.Frame.{frame-IsList}

module _ {E K V : Type 0} ⦃c : Callbacks E⦄ (fields : Fields E K V) (order : IsOrder c)
    (s : Store E) (zs : List Ptr) (is : IsList s zs) (q : Ptr) (ne_null : q ≢ null)
    (ne_head : q ≢ s.head) (ne_tail : q ≢ s.tail) (fresh : NotIn q zs) (key : K) (tries fuel : ℕ)
    (enough : length zs ≤ fuel) where
  -- the entry of the query
  abbrev pub asked : E
  asked = fields.query_entry (s.entry q) key

  -- the store while the function runs
  abbrev pub begun : Store E
  begun = record s { live = update s.live q true; entry = update s.entry q asked }

  pub begun_list : IsList begun zs
  begun_list =
      frame-IsList s zs is begun.live begun.entry
        (All-map (λ z. q ≢ z) zs (λ z d. let e = ==_ne (λ k. d (sym k)) in (rw e, rw e)) fresh)
        (rw (==_ne (λ e. ne_head (sym e)))) (rw (==_ne (λ e. ne_tail (sym e))))

  pub begun-IsInner : IsInner begun q
  begun-IsInner = record {
    live = rw (==_self q);
    ne_null = ne_null;
    ne_head = ne_head;
    ne_tail = ne_tail;
  }

  -- A list is one again once the query is gone.
  pub ended_list :
      (u : Store E)
      → u.head ≡ s.head
      → u.tail ≡ s.tail
      → IsList u zs
      → IsList (record u { live = update u.live q false }) zs
  ended_list u head tail list =
      frame-IsList u zs list (update u.live q false) u.entry
        (All-map (λ z. q ≢ z) zs (λ z d. (rw (==_ne (λ k. d (sym k))), refl)) fresh)
        (rw (==_ne (λ e. ne_head (sym e ∙ head)))) (rw (==_ne (λ e. ne_tail (sym e ∙ tail))))

  entry_of : (z : Ptr) → q ≢ z → begun.entry z ≡ s.entry z
  entry_of z d = rw (==_ne (λ k. d (sym k)))

  entry_query : begun.entry q ≡ asked
  entry_query = rw (==_self q)

  short : (xs ys : List Ptr) → zs ≡ xs ++ ys → length xs < suc fuel
  short xs ys split = let all = rw split at enough in omega (arith, all, length-append xs ys)

  -- Both give nothing, or they find the first node with the key.
  abbrev pub Answered : Store E → Type 0
  Answered s' =
      (All (λ z. c.compare_entries (s.entry z) asked ≢ Ordering.eq) zs
        × (get_value fields (suc tries) (suc fuel) q key s ≡ ok fields.zero_value s')
        × (contains fields (suc tries) (suc fuel) q key s ≡ ok false s'))
      ⊎ ((xs : List Ptr) × (n : Ptr) × (ys : List Ptr) × (zs ≡ xs ++ n ∷ ys)
          × All (λ x. c.compare_entries (s.entry x) asked ≡ Ordering.lt) xs
          × (c.compare_entries (s.entry n) asked ≡ Ordering.eq)
          × (get_value fields (suc tries) (suc fuel) q key s ≡ ok (fields.value_of (s.entry n)) s')
          × (contains fields (suc tries) (suc fuel) q key s ≡ ok true s'))

  -- Only the query's entry, and what a lookup counts, has changed.
  abbrev pub Asked : Store E → Type 0
  Asked s' =
      (s'.entry ≡ update s.entry q asked)
      × (s'.head ≡ s.head)
      × (s'.tail ≡ s.tail)
      × (s'.prng ≡ s.prng)
      × (s'.supply ≡ s.supply)
      × (s'.pres_era ≡ s.pres_era)

  module _ (xs ys : List Ptr) (split : zs ≡ xs ++ ys) (cut : Cut begun xs ys q) where
    here : IsList begun (xs ++ ys)
    here = rw split at begun_list

    abbrev counted : Store E
    counted = touched order begun xs ys here q begun-IsInner cut (suc fuel) (short xs ys split)

    abbrev ended : Store E
    ended = record counted { live = update begun.live q false }

    ended_is_list : IsList ended zs
    ended_is_list = ended_list counted refl refl begun_list

    none_found :
        is_match begun ys q ≡ false
        → (get_value fields (suc tries) (suc fuel) q key s ≡ ok fields.zero_value ended)
          × (contains fields (suc tries) (suc fuel) q key s ≡ ok false ended)
    unfolding get_value contains begin_query end_query position_eq
    none_found none =
        let (path, run) =
          lookup_with_splay_lem order begun xs ys here q begun-IsInner cut (suc fuel)
            (short xs ys split) tries clear_path in
        (rw (run, none), rw (run, none))

    one_found :
        (n : Ptr)
        → matched begun ys q ≡ n
        → IsInner begun n
        → begun.entry n ≡ s.entry n
        → (get_value fields (suc tries) (suc fuel) q key s ≡ ok (fields.value_of (s.entry n)) ended)
          × (contains fields (suc tries) (suc fuel) q key s ≡ ok true ended)
    unfolding get_value contains begin_query end_query position_eq load_entry
    one_found n it inner same =
        let (path, run) =
          lookup_with_splay_lem order begun xs ys here q begun-IsInner cut (suc fuel)
            (short xs ys split) tries clear_path in
        (rw (run, it, ==_ne inner.ne_null, inner.live, same), rw (run, it, ==_ne inner.ne_null))

  to_entry :
      (o : Ordering) (z : Ptr)
      → q ≢ z
      → c.compare_entries (begun.entry z) (begun.entry q) ≡ o
      → c.compare_entries (s.entry z) asked ≡ o
  to_entry o z d e = ap₂ c.compare_entries (sym (entry_of z d)) (sym entry_query) ∙ e

  of_entry :
      (o : Ordering) (z : Ptr)
      → q ≢ z
      → c.compare_entries (s.entry z) asked ≡ o
      → c.compare_entries (begun.entry z) (begun.entry q) ≡ o
  of_entry o z d e = ap₂ c.compare_entries (entry_of z d) entry_query ∙ e

  -- On a well-formed list `zs`, with a comparison that is an order, a variable for the query at an address
  -- that is no node of the list, and fuel for its length: skip_get_ and skip_contains_ end and the list is
  -- well-formed as before, and no entry of a node changes. If no entry is equal to the query's they give the zero value and 0, else the
  -- value of the first equal node, all before which are less, and 1.
  pub get_lem : (s' : Store E) × IsList s' zs × Asked s' × Answered s'
  get_lem =
      let (xs, ys, split, cut) = Cut-of_Sorted order begun q zs begun_list.sorted in
      elim (first-equal begun q ys) [
        | inl none ↦
            let all : NoEqual begun q zs =
              rw split
                (NoEqual-of_Cut begun q order xs ys cut (rw split at begun_list.sorted) none) in
            (
              ended xs ys split cut,
              ended_is_list xs ys split cut,
              (refl, refl, refl, refl, refl, refl),
              inl (
                All-map
                    (λ z.
                      (q ≢ z) × (c.compare_entries (begun.entry z) (begun.entry q) ≢ Ordering.eq))
                    zs (λ z k e. k.1 (of_entry Ordering.eq z k.0 e))
                    (All-pair (λ z. q ≢ z)
                      (λ z. c.compare_entries (begun.entry z) (begun.entry q) ≢ Ordering.eq) zs
                      fresh all),
                (none_found xs ys split cut none).0,
                (none_found xs ys split cut none).1,
              ),
            )
        | inr (n, l, e, equal) ↦
            let split' : zs ≡ xs ++ n ∷ l = split ∙ ap (λ l'. xs ++ l') e in
            let cut' : Cut begun xs (n ∷ l) q = rw e at cut in
            let apart : NotIn q (xs ++ n ∷ l) = rw split' at fresh in
            let other : q ≢ n = (All-right (λ z. q ≢ z) xs (n ∷ l) apart).0 in
            let it : matched begun (n ∷ l) q ≡ n = rw (is_match, equal) in
            let runs =
              one_found xs (n ∷ l) split' cut' n it
                (All-right (IsInner begun) xs (n ∷ l) (here xs (n ∷ l) split' cut').inner).0
                (entry_of n other) in
            (
              ended xs (n ∷ l) split' cut',
              ended_is_list xs (n ∷ l) split' cut',
              (refl, refl, refl, refl, refl, refl),
              inr (
                xs,
                n,
                l,
                split',
                All-map (λ z. (q ≢ z) × Before begun z q) xs (λ z k. to_entry Ordering.lt z k.0 k.1)
                    (All-pair (λ z. q ≢ z) (λ z. Before begun z q) xs
                      (All-left (λ z. q ≢ z) xs (n ∷ l) apart) cut'.before),
                to_entry Ordering.eq n other equal,
                runs.0,
                runs.1,
              ),
            )
      ]
