-- ===== src/Search/Locate.antt =====
-- `_skip_locate_` on the memory of a list.
use Prim.Native.Nat.{Ordering}
use skiplist.Base.{
  ℕ, zero, suc, ◌+◌, ◌%◌, ◌≤◌, ◌<◌, ◌≡◌, ap, sym, List, [], ◌∷◌, ◌++◌, arith, length, All, All-left,
  All-right, Ordering-cases, inl, inr, head_or, last_or, ==_self, ==_ne, Bool, true, false,
  if◌then◌else◌,
}
use skiplist.Store.{Ptr, null, Callbacks, size_mod, Store, ok, update₂}
use skiplist.Store.Access.{load_height-ok, add_hit-ok}
use skiplist.Chain.{IsOrder, IsInner, Sentinels, IsList}
use skiplist.Chain.Levels.{at_level_above, at_level_zero}
use skiplist.Search.{SkipPath, match_found, locate}
use skiplist.Search.Compare.{compare_nodes-inner}
use skiplist.Chain.Place.{pred_at, Cut}
use skiplist.Search.Descend.{fill_path, bottom, descend_lem}

module _ {E : Type 0} ⦃c : Callbacks E⦄ (s : Store E) where
  -- whether the first node behind the place is equal to the query
  abbrev pub is_match : List Ptr → Ptr → Bool
  is_match [] n = false
  is_match (y ∷ ys) n = elim (c.compare_entries (s.entry y) (s.entry n)) [
    | Ordering.eq ↦ true
    | _ ↦ false
  ]

  -- One hit more on `p`, and one on the head at the level of its height.
  abbrev pub count_hit : Ptr → Ptr → ℕ → ℕ
  count_hit p =
      let own = update₂ s.hits p 0 ((s.hits p 0 + 1) % size_mod) in
      let top = s.height s.head in update₂ own s.head top ((own s.head top + 1) % size_mod)

  -- What `_skip_locate_` makes of the store and of the path.
  abbrev pub located : List Ptr → Ptr → Store E
  located ys n = record s { hits = if is_match ys n then count_hit (head_or null ys) else s.hits }

  abbrev pub located_path : List Ptr → List Ptr → Ptr → SkipPath → SkipPath
  located_path xs ys n path = record (fill_path s xs ys (s.height s.head) path) {
    found = if is_match ys n then head_or null ys else null;
  }

bottom-first :
    {E : Type 0} (s : Store E) (xs ys : List Ptr) (k : ℕ) (curr : Ptr)
    → 1 ≤ k
    → bottom s xs ys k curr ≡ head_or s.tail ys
bottom-first s xs ys zero curr h = absurd (omega arith)
bottom-first s xs ys (suc k) curr h = ap (head_or s.tail) (at_level_zero s.height ys)

module _ {E : Type 0} ⦃c : Callbacks E⦄ (order : IsOrder c) (s : Store E) (ends : Sentinels s)
    (n : Ptr) (query : IsInner s n) (len : ℕ) (path : SkipPath) where
  match_found_lem :
      (ys : List Ptr)
      → All (IsInner s) ys
      → match_found n len (head_or s.tail ys) path s
        ≡ ok
            (len, record path { found = if is_match s ys n then head_or null ys else null })
            (located s ys n)
  unfolding match_found
  match_found_lem [] inner = rw (==_self s.tail)
  match_found_lem (y ∷ ys) inner =
      rw (==_ne inner.0.ne_tail, compare_nodes-inner s order y n inner.0 query)
        (elim (Ordering-cases (c.compare_entries (s.entry y) (s.entry n))) [
          | inl e ↦ rw (e, is_match)
          | inr (inl e) ↦
              let own = record s { hits = update₂ s.hits y 0 ((s.hits y 0 + 1) % size_mod) } in
              rw (
                e,
                is_match,
                add_hit-ok s y inner.0.live 0 (omega arith),
                load_height-ok own s.head ends.head_live,
                add_hit-ok own s.head ends.head_live (s.height s.head) ends.head_high,
              )
          | inr (inr e) ↦ rw (e, is_match)
        ])

module _ {E : Type 0} ⦃c : Callbacks E⦄ (order : IsOrder c) (s : Store E) (xs ys : List Ptr)
    (is : IsList s (xs ++ ys)) (n : Ptr) (query : IsInner s n) where
  open is use {ends}

  module _ (cut : Cut s xs ys n) (fuel : ℕ) (enough : length xs < fuel) where
    -- On a well-formed list, with a comparison that is an order, and for a query whose place is between
    -- `xs` and `ys`, `_skip_locate_` ends at its first try, with fuel for the walk over `xs`: it returns
    -- the head's height, the neighbours of the place at each level, and the first node that is equal to
    -- the query, if there is one, which is hit once more.
    pub locate_lem :
        (tries : ℕ) (path : SkipPath)
        → locate (suc tries) fuel n path s
          ≡ ok (s.height s.head, located_path s xs ys n path) (located s ys n)
    unfolding locate
    locate_lem tries path =
        let top : s.head ≡ pred_at s xs (s.height s.head) =
          ap (λ l. last_or s.head l)
            (sym (
              at_level_above s.height (s.height s.head) xs
                (All-left (λ p. s.height p < s.height s.head) xs ys is.low))) in
        rw
          (
            ==_ne query.ne_null,
            load_height-ok s s.head ends.head_live,
            descend_lem order s xs ys is n query cut fuel enough (s.height s.head) s.head null path
                (omega arith) top,
            bottom-first s xs ys (s.height s.head) null ends.head_low,
          )
          (match_found_lem order s ends n query _ _ ys (All-right (IsInner s) xs ys is.inner))
