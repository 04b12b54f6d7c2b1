-- ===== src/Life/Init.antt =====
-- What skip_init_ makes of the memory.
use skiplist.Base.{
  ℕ, ◌<◌, ◌≡◌, ◌≢◌, ◌⊎◌, Distinct, refl, List, [], ◌∷◌, Bool, true, false, ◌||◌, ◌==◌, ==_ne,
  ==_self, arith, inl, inr, Bool-cases,
}
use skiplist.Store.{Ptr, Link, null, clean, Callbacks, max_height, Store, ok, update}
use skiplist.Store.Access.{store_height-ok, load_height-ok, store_prev-ok}
use skiplist.Chain.{IsList}
use skiplist.Insert.{done, enomem}
use skiplist.Node.{alloc_node}
use skiplist.Life.{set_sentinels, init, clear_fields}
use skiplist.Life.Levels.{IsList-empty, all_set, all_set-at, fill_next_lem}

chained-at :
    (h t : Ptr) (count : ℕ) (next : Ptr → ℕ → Link) (i : ℕ)
    → h ≢ t
    → i < count
    → all_set t (clean null) 0 count (all_set h (clean t) 0 count next) h i ≡ clean t
chained-at h t count next i apart low =
    rw
      (
        all_set-at t (clean null) 0 count (all_set h (clean t) 0 count next) h i,
        ==_ne apart,
        all_set-at h (clean t) 0 count next h i,
        ==_self h,
      )
      (ground arith)

abbrev chained : Ptr → Ptr → (Ptr → ℕ → Link) → Ptr → ℕ → Link
chained h t next = all_set t (clean null) 0 max_height (all_set h (clean t) 0 max_height next)

module _ {E : Type 0} ⦃c : Callbacks E⦄ where
  abbrev pub allocated : Store E → Ptr → List Ptr → Store E
  allocated s n rest = record s {
    supply = rest;
    live = update s.live n true;
    entry = update s.entry n c.blank_entry;
    era = update s.era n 0;
    height = update s.height n 0;
    prev = update s.prev n null;
    next = update s.next n (λ i. clean null);
    hits = update s.hits n (λ i. 0);
  }

  pub alloc_node_lem :
      (s : Store E) (n : Ptr) (rest : List Ptr)
      → s.supply ≡ n ∷ rest
      → n ≢ null
      → alloc_node s ≡ ok n (allocated s n rest)
  unfolding alloc_node
  alloc_node_lem s n rest e ne = rw (e, ==_ne ne)

  pub alloc_node-null :
      (s : Store E) (rest : List Ptr)
      → (s.supply ≡ []) ⊎ (s.supply ≡ null ∷ rest)
      → (s' : Store E) × (alloc_node s ≡ ok null s')
  unfolding alloc_node
  alloc_node-null s rest (inl e) = (s, rw e)
  alloc_node-null s rest (inr e) = (record s { supply = rest }, rw e)

  abbrev linked : Store E → Ptr → Ptr → Store E
  linked s h t = record s {
    height = update (update s.height h 1) t (update s.height h 1 h);
    next = chained h t s.next;
    prev = update (update s.prev h null) t h;
  }

  set_sentinels_lem :
      (s : Store E) (h t : Ptr)
      → s.live h ≡ true
      → s.live t ≡ true
      → set_sentinels h t s ≡ ok tt (linked s h t)
  unfolding set_sentinels
  set_sentinels_lem s h t head tail =
      let s₁ = record s { height = update s.height h 1 } in
      let s₂ = record s₁ { next = all_set h (clean t) 0 max_height s.next } in
      let s₃ = record s₂ { prev = update s.prev h null } in
      let s₄ = record s₃ { height = update s₁.height t (s₁.height h) } in
      let s₅ = record s₄ { next = chained h t s.next } in
      rw (
        store_height-ok s h head 1,
        fill_next_lem h (clean t) 0 max_height s₁ head (omega arith),
        store_prev-ok s₂ h head null,
        load_height-ok s₃ h head,
        store_height-ok s₃ t tail (s₁.height h),
        fill_next_lem t (clean null) 0 max_height s₄ tail (omega arith),
        store_prev-ok s₅ t tail h,
      )

-- The allocator cannot give two nodes.
abbrev pub no_node : List Ptr → Bool
no_node [] = true
no_node (t ∷ rest) = t == null

abbrev pub too_few : List Ptr → Bool
too_few [] = true
too_few (h ∷ rest) = (h == null) || no_node rest

module _ {E : Type 0} ⦃c : Callbacks E⦄ (seed : ℕ) where
  -- the stores on the way
  abbrev cleared : Store E → Store E
  cleared s = record s { length = 0; ebr = false; cur_era = 0; pres_era = 0; pres = null }

  abbrev with_head : Store E → Ptr → List Ptr → Store E
  with_head s h rest = record (allocated (cleared s) h rest) { head = h }

  abbrev with_tail : Store E → Ptr → Ptr → List Ptr → Store E
  with_tail s h t rest = record (allocated (with_head s h (t ∷ rest)) t rest) { tail = t }

  abbrev made : Store E → Ptr → Ptr → List Ptr → Store E
  made s h t rest = record (linked (with_tail s h t rest) h t) {
    prng = seed;
    splay_counter = 0;
    has_dups = false;
  }

  alloc_node-none :
      (s : Store E) → no_node s.supply ≡ true → (s' : Store E) × (alloc_node s ≡ ok null s')
  unfolding alloc_node
  alloc_node-none s none = go s.supply refl none
    where
      go :
          (l : List Ptr)
          → s.supply ≡ l
          → no_node l ≡ true
          → (s' : Store E) × (alloc_node s ≡ ok null s')
      go [] e none = (s, rw e)
      go (t ∷ rest) e none = (record s { supply = rest }, rw (e, none))

  init-no_head :
      (s : Store E) → no_node s.supply ≡ true → (s' : Store E) × (init seed s ≡ ok enomem s')
  unfolding init clear_fields
  init-no_head s none =
      let (s', run) = alloc_node-none (cleared s) none in (record s' { head = null }, rw run)

  init-no_tail :
      (s : Store E) (h : Ptr) (rest : List Ptr)
      → s.supply ≡ h ∷ rest
      → h ≢ null
      → no_node rest ≡ true
      → (s' : Store E) × (init seed s ≡ ok enomem s')
  unfolding init clear_fields
  init-no_tail s h rest e ne none =
      let (s', run) = alloc_node-none (with_head s h rest) none in
      (record s' { tail = null }, rw (alloc_node_lem (cleared s) h rest e ne, ==_ne ne, run))

  init-made :
      (s : Store E) (h t : Ptr) (rest : List Ptr)
      → s.supply ≡ h ∷ t ∷ rest
      → h ≢ null
      → t ≢ null
      → h ≢ t
      → (init seed s ≡ ok done (made s h t rest)) × IsList (made s h t rest) []
  unfolding init clear_fields
  init-made s h t rest e ne ne' apart = (
    rw (
      alloc_node_lem (cleared s) h (t ∷ rest) e ne,
      ==_ne ne,
      alloc_node_lem (with_head s h (t ∷ rest)) t rest refl ne',
      ==_ne ne',
      set_sentinels_lem (with_tail s h t rest) h t (rw (==_ne apart, ==_self h)) (rw (==_self t)),
    ),
    IsList-empty (made s h t rest) (rw (==_ne apart, ==_self h)) (rw (==_self t)) ne ne' apart
        (rw (==_ne apart, ==_self h))
        (λ i low. chained-at h t max_height (with_tail s h t rest).next i apart low)
        (rw (==_self t)) refl,
  )

  init-some :
      (s : Store E) (h : Ptr) (l : List Ptr)
      → s.supply ≡ h ∷ l
      → Distinct (h ∷ l)
      → h ≢ null
      → no_node l ≡ false
      → (s' : Store E) × (init seed s ≡ ok done s')
        × IsList s' []
        × (s'.prng ≡ seed)
        × (s'.has_dups ≡ false)
  init-some s h [] e d ne some = absurd (cc)
  init-some s h (t ∷ rest) e d ne some =
      let (run, list) = init-made s h t rest e ne (ground arith) d.0.0 in
      (made s h t rest, run, list, refl, refl)

  -- skip_init_ on fresh memory, whose addresses are distinct: when there is none for one of the two
  -- sentinels it returns ENOMEM; else it returns 0, the list is empty, and the generator has the seed.
  pub init_lem :
      (s : Store E)
      → Distinct s.supply
      → ((too_few s.supply ≡ true) × ((s' : Store E) × (init seed s ≡ ok enomem s')))
        ⊎ ((too_few s.supply ≡ false)
            × ((s' : Store E) × (init seed s ≡ ok done s')
                × IsList s' []
                × (s'.prng ≡ seed)
                × (s'.has_dups ≡ false)))
  init_lem s distinct = go s.supply refl distinct
    where
      go :
          (l : List Ptr)
          → s.supply ≡ l
          → Distinct l
          → ((too_few l ≡ true) × ((s' : Store E) × (init seed s ≡ ok enomem s')))
            ⊎ ((too_few l ≡ false)
                × ((s' : Store E) × (init seed s ≡ ok done s')
                    × IsList s' []
                    × (s'.prng ≡ seed)
                    × (s'.has_dups ≡ false)))
      go [] e d = inl (refl, init-no_head s (rw e))
      go (h ∷ rest) e d = elim (Bool-cases (h == null)) [
        | inl gone ↦ inl (rw gone, init-no_head s (rw e gone))
        | inr here ↦ elim (Bool-cases (no_node rest)) [
          | inl none ↦ inl (rw (here, none), init-no_tail s h rest e (ground arith) none)
          | inr some ↦ inr (rw (here, some), init-some s h rest e d (ground arith) some)
        ]
      ]
