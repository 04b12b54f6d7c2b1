-- ===== src/Lookup/Levels.antt =====
-- The descent of `_skip_lookup_` on the memory of a list.
use Prim.Native.Nat.{Ordering}
use skiplist.Base.{
  ℕ, zero, suc, ◌<◌, ◌≡◌, ◌⊎◌, refl, sym, ap, ◌∙◌, List, [], ◌∷◌, ◌++◌, arith, length, head_or,
  true, false, inl, inr, Bool, Bool-cases, Ordering-cases,
}
use skiplist.Store.{Ptr, clean, Callbacks, max_height, Store, ok}
use skiplist.Store.Access.{load_next-ok}
use skiplist.Chain.{IsOrder, IsInner, IsList}
use skiplist.Chain.Levels.{Links-first, at_level, at_level_zero}
use skiplist.Chain.Place.{pred_at, Cut}
use skiplist.Search.Descend.{pred_at-live, stretch}
use skiplist.Lookup.{Look, passed, leave, lookup_walk, lookup_levels}
use skiplist.Lookup.Walk.{IsMatch, look, lookup_walk-Links}

module _ {E : Type 0} ⦃c : Callbacks E⦄ (order : IsOrder c) (s : Store E) (xs ys : List Ptr)
    (is : IsList s (xs ++ ys)) (n : Ptr) (query : IsInner s n) (cut : Cut s xs ys n) (fuel : ℕ)
    (enough : length xs < fuel) where
  -- What comes of the levels below `k`: an early exit at a node of `ys` that is equal to the query,
  -- or what the walk at level 0 makes of `ys`.
  abbrev pub Found : Look → Type 0
  Found r =
      ((m : Ptr) × IsMatch s n m × (r ≡ look s n (pred_at s xs 0) m ys))
      ⊎ ((i : ℕ) × (b : Ptr) × (bs : List Ptr) × (at_level s.height i ys ≡ b ∷ bs)
          × (c.compare_entries (s.entry b) (s.entry n) ≡ Ordering.eq)
          × (s.has_dups ≡ false)
          × (r ≡ leave b (pred_at s xs i)))

  -- What the walk along level `i` makes of it.
  abbrev level_look : ℕ → Ptr → Look
  level_look i m = look s n (pred_at s xs i) m (at_level s.height i ys)

  walked :
      (i : ℕ)
      → i < max_height
      → (m : Ptr) → IsMatch s n m
      → (q : Ptr) × (s.next (pred_at s xs (suc i)) i ≡ clean q)
        × (lookup_walk fuel n i (pred_at s xs (suc i)) q m s ≡ ok (level_look i m) s)
  walked i low m match =
      let (vs, st) = stretch order s xs ys is n query cut fuel enough i low in
      let p = pred_at s xs (suc i) in
      let bs = at_level s.height i ys in
      (
        head_or s.tail (vs ++ bs),
        Links-first s.next s.tail i p (vs ++ bs) st.links,
        rw (← st.end) (
            lookup_walk-Links s order n query m match is.ends i low fuel p vs bs st.short st.inner
              st.before st.rest st.links),
      )

  -- How a level goes on: with a match, or with the exit.
  abbrev Goes : ℕ → Ptr → Look → Type 0
  Goes i m r =
      ((m' : Ptr) × (e : Bool) × IsMatch s n m' × (r ≡ passed (pred_at s xs i) e m'))
      ⊎ ((b : Ptr) × (bs : List Ptr) × (at_level s.height i ys ≡ b ∷ bs)
          × (c.compare_entries (s.entry b) (s.entry n) ≡ Ordering.eq)
          × (s.has_dups ≡ false)
          × (r ≡ leave b (pred_at s xs i)))

  goes :
      (i : ℕ) (m : Ptr)
      → IsMatch s n m
      → (bs : List Ptr) → at_level s.height i ys ≡ bs
      → Goes i m (look s n (pred_at s xs i) m bs)
  goes i m match [] e = inl (m, false, match, refl)
  goes i m match (b ∷ bs) e = elim (Ordering-cases (c.compare_entries (s.entry b) (s.entry n))) [
    | inl k ↦ inl (m, false, match, rw (k, look))
    | inr (inr k) ↦ inl (m, false, match, rw (k, look))
    | inr (inl k) ↦ elim (Bool-cases s.has_dups) [
      | inl d ↦ inl (b, true, inr k, rw (k, look, d))
      | inr d ↦ inr (b, bs, e, k, d, rw (k, look, d))
    ]
  ]

  live_at : (i : ℕ) → s.live (pred_at s xs i) ≡ true
  live_at = pred_at-live order s xs ys is n query cut fuel enough

  pub lookup_levels_lem :
      (i : ℕ)
      → i < max_height
      → (e : Bool) (m : Ptr) → IsMatch s n m
      → (r : Look) × (lookup_levels fuel n (suc i) (pred_at s xs (suc i)) e m s ≡ ok r s) × Found r
  unfolding lookup_levels
  lookup_levels_lem zero low e m match =
      let (q, first, walk) = walked 0 low m match in
      let step = load_next-ok s (pred_at s xs 1) (live_at 1) 0 low in
      elim (goes 0 m match (at_level s.height 0 ys) refl) [
        | inr (b, bs, at, equal, d, k) ↦ (
          leave b (pred_at s xs 0),
          rw (step, first, walk, k),
          inr (0, b, bs, at, equal, d, refl),
        )
        | inl (m', e', match', k) ↦ (
          passed (pred_at s xs 0) e' m',
          rw (step, first, walk, k),
          inl (
            m,
            match,
            sym k ∙ ap (λ l. look s n (pred_at s xs 0) m l) (at_level_zero s.height ys),
          ),
        )
      ]
  lookup_levels_lem (suc i) low e m match =
      let (q, first, walk) = walked (suc i) low m match in
      let step = load_next-ok s (pred_at s xs (suc (suc i))) (live_at (suc (suc i))) (suc i) low in
      elim (goes (suc i) m match (at_level s.height (suc i) ys) refl) [
        | inr (b, bs, at, equal, d, k) ↦ (
          leave b (pred_at s xs (suc i)),
          rw (step, first, walk, k),
          inr (suc i, b, bs, at, equal, d, refl),
        )
        | inl (m', e', match', k) ↦
            let (r, run, found) = lookup_levels_lem i (omega arith) e' m' match' in
            (r, rw (step, first, walk, k) run, found)
      ]
