-- ===== src/Remove/Shrink.antt =====
-- The head's height after a removal: it stays above all nodes.
use skiplist.Base.{
  ℕ, zero, suc, ◌≤◌, ◌<◌, ◌≡◌, ◌≢◌, refl, sym, subst, List, [], ◌∷◌, arith, All, All-map, All-pair,
  true, ==_self, ==_ne, leb, Bool-cases, inl, inr,
}
use skiplist.Store.{Ptr, clean, Callbacks, max_height, Store, ok, update}
use skiplist.Store.Access.{load_next-ok, store_height-ok}
use skiplist.Chain.{IsInner}
use skiplist.Chain.Levels.{Links, Links-first, at_level, at_level_congr, All-at_level}
use skiplist.Remove.{shrink_head}

-- Where no node reaches a level, all are lower.
at_level_none :
    (height : Ptr → ℕ) (i : ℕ) (zs : List Ptr)
    → at_level height i zs ≡ []
    → All (λ p. height p < i) zs
at_level_none height i [] e = tt
at_level_none height i (z ∷ zs) e = elim (Bool-cases (leb i (height z))) [
  | inl tall ↦ let bad : z ∷ at_level height i zs ≡ [] = rw tall at e in cc
  | inr short ↦ (ground arith, at_level_none height i zs (rw short at e))
]

module _ {E : Type 0} ⦃c : Callbacks E⦄ (s : Store E) (zs : List Ptr) (inner : All (IsInner s) zs)
    (head_live : s.live s.head ≡ true) (tail_live : s.live s.tail ≡ true)
    (head_ne_tail : s.head ≢ s.tail) where
  abbrev with_heights : (Ptr → ℕ) → Store E
  with_heights g = record s { height = g }

  -- The heights of a list of the nodes, with `k` as the head's.
  abbrev pub Heights : (Ptr → ℕ) → ℕ → Type 0
  Heights g k = record {
    top : g s.head ≡ k;
    above : 1 ≤ k;
    bound : k < max_height;
    low : All (λ p. g p < k) zs;
    links : (l : ℕ) → l < max_height → Links s.next s.tail l s.head (at_level g l zs);
  }

  -- What the loop makes of the heights.
  abbrev pub Shrunk : (Ptr → ℕ) → (Ptr → ℕ) → Type 0
  Shrunk g g' = record {
    nodes : (q : Ptr) → q ≢ s.head → q ≢ s.tail → g' q ≡ g q;
    heights : Heights g' (g' s.head);
  }

  one_lower :
      (g : Ptr → ℕ) (j : ℕ)
      → Heights g (suc (suc j))
      → at_level g (suc j) zs ≡ []
      → Heights (update (update g s.head (suc j)) s.tail (suc j)) (suc j)
  one_lower g j hs none =
      let g' = update (update g s.head (suc j)) s.tail (suc j) in
      let same : All (λ p. g' p ≡ g p) zs =
        All-map (IsInner s) zs (λ p i. ground (arith, i.ne_head, i.ne_tail)) inner in
      record {
        top = ground (arith, head_ne_tail);
        above = omega arith;
        bound = let high = hs.bound in omega arith;
        low =
            All-map (λ p. (g' p ≡ g p) × (g p < suc j)) zs (λ p k. omega (arith, k.0, k.1))
              (All-pair (λ p. g' p ≡ g p) (λ p. g p < suc j) zs same
                (at_level_none g (suc j) zs none));
        links = λ l k. rw (at_level_congr g g' l zs same) (hs.links l k);
      }

  abbrev Goal : ℕ → (Ptr → ℕ) → Type 0
  Goal k g =
      (g' : Ptr → ℕ) × (shrink_head k (with_heights g) ≡ ok tt (with_heights g')) × Shrunk g g'

  kept : (g : Ptr → ℕ) (k : ℕ) → Heights g k → Shrunk g g
  kept g k hs = record { nodes = λ q a b. refl; heights = subst (Heights g) (sym hs.top) hs }

  -- The top level, with the nodes that reach it.
  shrink_step :
      (j : ℕ) (g : Ptr → ℕ)
      → Heights g (suc (suc j))
      → ((g₁ : Ptr → ℕ) → Heights g₁ (suc j) → Goal (suc j) g₁)
      → (l : List Ptr) → at_level g (suc j) zs ≡ l
      → All (IsInner s) l
      → Goal (suc (suc j)) g
  unfolding shrink_head
  shrink_step j g hs rest [] e in_l =
      let t = with_heights g in
      let high = hs.bound in
      let g₁ = update (update g s.head (suc j)) s.tail (suc j) in
      let t₁ = with_heights (update g s.head (suc j)) in
      let (g', run, shrunk) = rest g₁ (one_lower g j hs e) in
      let first : s.next s.head (suc j) ≡ clean s.tail =
        Links-first s.next s.tail (suc j) s.head [] (rw e at (hs.links (suc j) (omega arith))) in
      (
        g',
        rw
            (
              load_next-ok t s.head head_live (suc j) (omega arith),
              first,
              ==_self s.tail,
              store_height-ok t s.head head_live (suc j),
              store_height-ok t₁ s.tail tail_live (suc j),
            )
            run,
        record {
          nodes = λ q a b. let old = shrunk.nodes q a b in ground arith;
          heights = shrunk.heights;
        },
      )
  shrink_step j g hs rest (z ∷ l) e in_l =
      let t = with_heights g in
      let high = hs.bound in
      let first : s.next s.head (suc j) ≡ clean z =
        Links-first s.next s.tail (suc j) s.head (z ∷ l)
          (rw e at (hs.links (suc j) (omega arith))) in
      (
        g,
        rw (load_next-ok t s.head head_live (suc j) (omega arith), first, ==_ne in_l.0.ne_tail),
        kept g (suc (suc j)) hs,
      )

  pub shrink_lem : (k : ℕ) (g : Ptr → ℕ) → Heights g k → Goal k g
  unfolding shrink_head
  shrink_lem zero g hs = absurd (let low = hs.above in omega arith)
  shrink_lem (suc zero) g hs = (g, refl, kept g 1 hs)
  shrink_lem (suc (suc j)) g hs =
      shrink_step j g hs (shrink_lem (suc j)) (at_level g (suc j) zs) refl
        (All-at_level g (suc j) (IsInner s) zs inner)
