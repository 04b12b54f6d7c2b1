-- ===== src/Lookup/Find.antt =====
-- What `_skip_lookup_` finds on the memory of a list.
use Prim.Native.Nat.{Ordering}
use skiplist.Base.{
  ℕ, zero, suc, ◌+◌, ◌%◌, ◌^◌, ◌≤◌, ◌<◌, ◌≡◌, ◌≢◌, ◌⊎◌, refl, sym, ap, ◌∙◌, List, [], ◌∷◌, ◌++◌,
  arith, length, head_or, All, All-left, All-right, Ordered-right, true, false, inl, inr,
  Bool-cases, Ordering-cases, if◌then◌else◌, ==_ne, leb,
}
use skiplist.Store.{Ptr, null, Callbacks, max_height, size_mod, Store, ok, update, update₂}
use skiplist.Store.Access.{load_height-ok, add_hit-ok}
use skiplist.Chain.{IsOrder, IsInner, IsList, Before, StrictlySorted}
use skiplist.Chain.Levels.{at_level, at_level_above, All-at_level}
use skiplist.Chain.Order.{NotAfter-of_not_Before}
use skiplist.Chain.Place.{pred_at, Cut}
use skiplist.Search.{SkipPath}
use skiplist.Search.Locate.{is_match, located}
use skiplist.Lookup.{Look, passed, leave, lookup_levels, lookup, lookup_with_splay}
use skiplist.Lookup.Walk.{look}
use skiplist.Lookup.Levels.{Found, lookup_levels_lem}

-- the first node behind the place, if it is equal to the query
abbrev pub matched : {E : Type 0} ⦃c : Callbacks E⦄ → Store E → List Ptr → Ptr → Ptr
matched s ys n = if is_match s ys n then head_or null ys else null

module _ {E : Type 0} ⦃c : Callbacks E⦄ (order : IsOrder c) (s : Store E) (n : Ptr) where
  -- Nothing that is equal to the query stands behind a node that is strictly before it.
  not_behind :
      (y b : Ptr)
      → ¬ Before s y n
      → Before s y b
      → c.compare_entries (s.entry b) (s.entry n) ≢ Ordering.eq
  not_behind y b rest h equal =
      let high = order.gt_of_lt (s.entry y) (s.entry b) h in
      order.trans (s.entry b) (s.entry n) (s.entry y) (λ e. cc)
        (NotAfter-of_not_Before order s y n rest) high

  -- With no two equal nodes, an equal node is the first behind the place.
  first_equal :
      (i : ℕ) (ys : List Ptr)
      → All (λ y. ¬ Before s y n) ys
      → StrictlySorted s ys
      → (b : Ptr) (bs : List Ptr) → at_level s.height i ys ≡ b ∷ bs
      → c.compare_entries (s.entry b) (s.entry n) ≡ Ordering.eq
      → matched s ys n ≡ b
  first_equal i [] rest strict b bs e equal = cc
  first_equal i (y ∷ ys) rest strict b bs e equal = elim (Bool-cases (leb i (s.height y))) [
    | inl tall ↦
        let same : y ∷ at_level s.height i ys ≡ b ∷ bs = rw tall at e in
        let it : y ≡ b = ap (head_or null) same in
        let equal' : c.compare_entries (s.entry y) (s.entry n) ≡ Ordering.eq = rw it equal in
        rw (equal', is_match) it
    | inr short ↦
        let same : at_level s.height i ys ≡ b ∷ bs = rw short at e in
        let behind : All (Before s y) (b ∷ bs) =
          rw same at (All-at_level s.height i (Before s y) ys strict.0) in
        absurd (not_behind y b rest.0 behind.0 equal)
  ]

module _ {E : Type 0} ⦃c : Callbacks E⦄ (s : Store E) (n : Ptr) where
  -- The outcomes of the descent: the first equal node, by the exit or at level 0, or none.
  abbrev Ends : List Ptr → Look → Type 0
  Ends ys r =
      ((p : Ptr) × (r ≡ leave (matched s ys n) p))
      ⊎ ((p : Ptr) × (r ≡ passed p true (matched s ys n)))
      ⊎ ((p : Ptr) × (m : Ptr) × (r ≡ passed p false m) × (matched s ys n ≡ null))

  look-Ends : (p m : Ptr) (ys : List Ptr) → Ends ys (look s n p m ys)
  look-Ends p m [] = inr (inr (p, m, refl, refl))
  look-Ends p m (y ∷ ys) = elim (Ordering-cases (c.compare_entries (s.entry y) (s.entry n))) [
    | inl k ↦ inr (inr (p, m, rw (k, look), rw (k, is_match)))
    | inr (inr k) ↦ inr (inr (p, m, rw (k, look), rw (k, is_match)))
    | inr (inl k) ↦ elim (Bool-cases s.has_dups) [
      | inl d ↦ inr (inl (p, rw (k, look, d, is_match)))
      | inr d ↦ inl (p, rw (k, look, d, is_match))
    ]
  ]

-- Either there is a match, an inner node, or none.
pub matched-cases :
    {E : Type 0} ⦃c : Callbacks E⦄ (s : Store E) (ys : List Ptr) (n : Ptr)
    → All (IsInner s) ys
    → ((is_match s ys n ≡ true) × IsInner s (head_or null ys))
      ⊎ ((is_match s ys n ≡ false) × (matched s ys n ≡ null))
matched-cases s [] n inner = inr (refl, refl)
matched-cases s (y ∷ ys) n inner = elim (Bool-cases (is_match s (y ∷ ys) n)) [
  | inl e ↦ inl (e, inner.0)
  | inr e ↦ inr (e, rw e)
]

module _ {E : Type 0} ⦃c : Callbacks E⦄ (order : IsOrder c) (s : Store E) (xs ys : List Ptr)
    (is : IsList s (xs ++ ys)) (n : Ptr) (query : IsInner s n) (cut : Cut s xs ys n) (fuel : ℕ)
    (enough : length xs < fuel) where
  open is use {ends}

  Found-Ends : (r : Look) → Found order s xs ys is n query cut fuel enough r → Ends s n ys r
  Found-Ends r (inl (m, match, e)) = rw e (look-Ends s n (pred_at s xs 0) m ys)
  Found-Ends r (inr (i, b, bs, at, equal, d, e)) =
      let it =
        first_equal order s n i ys cut.rest (Ordered-right (Before s) xs ys (is.strict d)) b bs at
          equal in
      inl (pred_at s xs i, e ∙ ap (λ q. leave q (pred_at s xs i)) (sym it))

  -- The descent from the head.
  descended :
      (r : Look) × (lookup_levels fuel n (s.height s.head) s.head false null s ≡ ok r s)
      × Ends s n ys r
  descended = go (s.height s.head) refl ends.head_low ends.head_high
    where
      go :
          (k : ℕ)
          → k ≡ s.height s.head
          → 1 ≤ k
          → k < max_height
          → (r : Look) × (lookup_levels fuel n k s.head false null s ≡ ok r s) × Ends s n ys r
      go zero e low high = absurd (omega arith)
      go (suc i) e low high =
          let none : at_level s.height (suc i) xs ≡ [] =
            at_level_above s.height (suc i) xs
              (rw e (All-left (λ p. s.height p < s.height s.head) xs ys is.low)) in
          let (r, run, found) =
            lookup_levels_lem order s xs ys is n query cut fuel enough i (omega arith) false null
              (inl refl) in
          (r, rw none at run, Found-Ends r found)

  -- On a well-formed list, with a comparison that is an order, for a query whose place is between `xs`
  -- and `ys`, and with fuel for the walk over `xs`, `_skip_lookup_` ends at its first try, changes
  -- nothing, and finds the first node that is equal to the query, or none.
  pub lookup_lem :
      (tries : ℕ) (path : SkipPath)
      → (path' : SkipPath) × (lookup (suc tries) fuel n path s ≡ ok (matched s ys n, path') s)
        × (path'.found ≡ matched s ys n)
  unfolding lookup
  lookup_lem tries path =
      let (r, run, ends') = descended in
      let step = load_height-ok s s.head ends.head_live in
      elim ends' [
        | inl (p, e) ↦ (
          record path { found = matched s ys n; pred = update path.pred 0 p },
          rw (==_ne query.ne_null, step, run, e),
          refl,
        )
        | inr (inl (p, e)) ↦ (
          record path { found = matched s ys n; pred = update path.pred 0 p },
          rw (==_ne query.ne_null, step, run, e),
          refl,
        )
        | inr (inr (p, m, e, none)) ↦ (
          record path { found = null; pred = update path.pred 0 p },
          rw (==_ne query.ne_null, step, run, e, none),
          sym none,
        )
      ]

  -- the store behind a lookup with its accounting
  abbrev pub touched : Store E
  touched = record (located s ys n) {
    splay_counter = if is_match s ys n then (s.splay_counter + 1) % 2 ^ 32 else s.splay_counter;
  }

  -- Under the same conditions `_skip_lookup_with_splay_` finds the same node; if there is one it counts a
  -- hit on it and on the head, and one access.
  pub lookup_with_splay_lem :
      (tries : ℕ) (path : SkipPath)
      → (path' : SkipPath) × (lookup_with_splay (suc tries) fuel n path s
          ≡ ok (matched s ys n, path') touched)
  unfolding lookup_with_splay
  lookup_with_splay_lem tries path =
      let (path', run, found) = lookup_lem tries path in
      elim (matched-cases s ys n (All-right (IsInner s) xs ys is.inner)) [
        | inr none ↦ (path', rw (run, none.1, none.0))
        | inl (some, inner) ↦
            let m = head_or null ys in
            let own = record s { hits = update₂ s.hits m 0 ((s.hits m 0 + 1) % size_mod) } in
            (
              path',
              rw (
                run,
                some,
                ==_ne inner.ne_null,
                load_height-ok s s.head ends.head_live,
                add_hit-ok s m inner.live 0 (omega arith),
                add_hit-ok own s.head ends.head_live (s.height s.head) ends.head_high,
              ),
            )
      ]
