-- ===== src/Life/Release.antt =====
-- What skip_release_ makes of a list.
use skiplist.Base.{
  ℕ, zero, suc, ◌+◌, ◌%◌, ◌≤◌, ◌<◌, ◌≡◌, ◌≢◌, refl, sym, ◌∙◌, List, [], ◌∷◌, Bool, true, false,
  ◌==◌, ==_ne, ==_self, if◌then◌else◌, arith, All, All-map, All-pair, NotIn, Distinct, length, ltb,
  inl, inr, Bool-cases,
}
use skiplist.Store.{Ptr, Link, null, clean, Callbacks, max_height, size_mod, Store, ok, update}
use skiplist.Store.Access.{store_height-ok, load_next-ok, store_prev-ok}
use skiplist.Chain.{IsInner, IsList}
use skiplist.Chain.Levels.{Links, at_level_zero}
use skiplist.Chain.Edges.{length-short}
use skiplist.Node.{free_node}
use skiplist.Iterate.{is_empty}
use skiplist.Life.{free_nodes, reset_list, release}
use skiplist.Life.Levels.{IsList-empty, both_set, both_set-at, reset_levels_lem}

-- the allocation without the nodes
abbrev pub without : (Ptr → Bool) → List Ptr → Ptr → Bool
without live [] = live
without live (z ∷ zs) = without (update live z false) zs

pub without-other :
    (live : Ptr → Bool) (zs : List Ptr) (q : Ptr) → NotIn q zs → without live zs q ≡ live q
without-other live [] q apart = refl
without-other live (z ∷ zs) q apart =
    rw (without-other (update live z false) zs q apart.1, ==_ne apart.0)

pub without-gone :
    (live : Ptr → Bool) (zs : List Ptr) (q : Ptr) → live q ≡ false → without live zs q ≡ false
without-gone live [] q dead = dead
without-gone live (z ∷ zs) q dead = without-gone (update live z false) zs q (ground arith)

pub without-All : (live : Ptr → Bool) (zs : List Ptr) → All (λ z. without live zs z ≡ false) zs
without-All live [] = tt
without-All live (z ∷ zs) =
    (without-gone (update live z false) zs z (rw (==_self z)), without-All (update live z false) zs)

module _ {E : Type 0} ⦃c : Callbacks E⦄ where
  -- The loop frees each node once.
  pub free_nodes_lem :
      (zs : List Ptr) (fuel : ℕ) (s : Store E) (p : Ptr)
      → length zs ≤ fuel
      → All (λ z. (s.live z ≡ true) × (z ≢ s.tail)) zs
      → Distinct zs
      → Links s.next s.tail 0 p zs
      → free_nodes (suc fuel) (s.next p 0) s ≡ ok tt (record s { live = without s.live zs })
  unfolding free_nodes free_node
  free_nodes_lem [] fuel s p enough inner distinct links = rw (links, ==_self s.tail)
  free_nodes_lem (z ∷ zs) zero s p enough inner distinct links = absurd (omega (arith, enough))
  free_nodes_lem (z ∷ zs) (suc fuel) s p enough inner distinct links =
      rw (links.0, ==_ne inner.0.1, load_next-ok s z inner.0.0 0 (omega arith), inner.0.0)
        (free_nodes_lem zs fuel (record s { live = update s.live z false }) z (omega arith)
          (All-map (λ y. ((s.live y ≡ true) × (y ≢ s.tail)) × (z ≢ y)) zs
            (λ y k. (rw (==_ne (λ e. k.1 (sym e))) k.0.0, k.0.1))
            (All-pair _ _ zs inner.1 distinct.0))
          distinct.1 links.1)

  -- the store behind the reset
  abbrev pub emptied : Store E → Store E
  emptied s = record s {
    length = 0;
    has_dups = false;
    height = update (update s.height s.head 1) s.tail 1;
    next = both_set s.head (clean s.tail) s.tail (clean null) 0 max_height s.next;
    hits = both_set s.head 0 s.tail 0 0 max_height s.hits;
    prev = update (update s.prev s.head null) s.tail s.head;
    cur_era = if ltb 0 s.pres_era then (s.cur_era + 1) % size_mod else s.cur_era;
  }

  reset_list_lem :
      (s : Store E) → s.live s.head ≡ true → s.live s.tail ≡ true → reset_list s ≡ ok tt (emptied s)
  unfolding reset_list
  reset_list_lem s head tail =
      let s₁ = record s { length = 0; has_dups = false } in
      let s₂ = record s₁ { height = update s.height s.head 1 } in
      let s₃ = record s₂ {
        next = both_set s.head (clean s.tail) s.tail (clean null) 0 max_height s.next;
        hits = both_set s.head 0 s.tail 0 0 max_height s.hits;
      } in
      let s₄ = record s₃ { prev = update s.prev s.head null } in
      let s₅ = record s₄ { height = update s₂.height s.tail 1 } in
      rw (
        store_height-ok s₁ s.head head 1,
        reset_levels_lem 0 max_height s₂ head tail (omega arith),
        store_prev-ok s₃ s.head head null,
        store_height-ok s₄ s.tail tail 1,
        store_prev-ok s₅ s.tail tail s.head,
      )

both_set-head :
    (h t : Ptr) (count : ℕ) (next : Ptr → ℕ → Link) (i : ℕ)
    → h ≢ t
    → i < count
    → both_set h (clean t) t (clean null) 0 count next h i ≡ clean t
both_set-head h t count next i apart low =
    rw (both_set-at h (clean t) t (clean null) 0 count next h i, ==_ne apart, ==_self h)
      (ground arith)

-- The list is empty in `s'`, and of the nodes of `s` those of `zs` are freed, and no other.
abbrev pub Released : {E : Type 0} ⦃c : Callbacks E⦄ → Store E → List Ptr → Store E → Type 0
Released s zs s' =
    IsList s' [] × All (λ z. s'.live z ≡ false) zs × ((q : Ptr) → NotIn q zs → s'.live q ≡ s.live q)

no_length : (zs : List Ptr) → length zs ≡ 0 → zs ≡ []
no_length [] e = refl
no_length (z ∷ zs) e = absurd (omega (arith, e))

module _ {E : Type 0} ⦃c : Callbacks E⦄ (s : Store E) (zs : List Ptr) (is : IsList s zs) (fuel : ℕ)
    (enough : length zs ≤ fuel) (short : length zs < size_mod) where
  open is use {ends}

  -- the store without the nodes
  abbrev bare : Store E
  bare = record s { live = without s.live zs }

  bare_head : bare.live s.head ≡ true
  bare_head =
      without-other s.live zs s.head (All-map (IsInner s) zs (λ z i e. i.ne_head (sym e)) is.inner)
      ∙ ends.head_live

  bare_tail : bare.live s.tail ≡ true
  bare_tail =
      without-other s.live zs s.tail (All-map (IsInner s) zs (λ z i e. i.ne_tail (sym e)) is.inner)
      ∙ ends.tail_live

  release-some :
      (s.length == 0) ≡ false
      → (release (suc fuel) s ≡ ok tt (emptied bare)) × Released s zs (emptied bare)
  unfolding release is_empty
  release-some some = (
    rw
        (
          some,
          load_next-ok s s.head ends.head_live 0 (omega arith),
          free_nodes_lem zs fuel s s.head enough
              (All-map (IsInner s) zs (λ z i. (i.live, i.ne_tail)) is.inner) is.distinct
              (rw (at_level_zero s.height zs) at (is.links 0 (omega arith))),
        )
        (reset_list_lem bare bare_head bare_tail),
    (
      IsList-empty (emptied bare) bare_head bare_tail ends.head_ne_null ends.tail_ne_null
          ends.head_ne_tail (rw (==_ne ends.head_ne_tail, ==_self s.head))
          (λ i low. both_set-head s.head s.tail max_height s.next i ends.head_ne_tail low)
          (rw (==_self s.tail)) refl,
      without-All s.live zs,
      λ q apart. without-other s.live zs q apart,
    ),
  )

  -- On a well-formed list of fewer than 2 ^ 64 nodes, with fuel for all, skip_release_ ends with the
  -- empty list, and it has freed the nodes of the list, each once, and nothing else.
  pub release_lem : (s' : Store E) × (release (suc fuel) s ≡ ok tt s') × Released s zs s'
  unfolding release is_empty
  release_lem = elim (Bool-cases (s.length == 0)) [
    | inr some ↦ let (run, released) = release-some some in (emptied bare, run, released)
    | inl empty ↦
        let counted = length-short s zs is short in
        let none : zs ≡ [] = no_length zs (ground arith) in
        (s, rw empty, (rw none at is, rw none tt, λ q apart. refl))
  ]
