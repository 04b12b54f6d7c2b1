-- ===== src/Snapshot/Kept.antt =====
-- The list of the preserved nodes, and its release.
use skiplist.Base.{
  NotIn-swap, ℕ, zero, suc, ◌≤◌, ◌≡◌, ◌≢◌, refl, sym, ◌∙◌, List, [], ◌∷◌, true, false, ==_ne, arith,
  All, All-map, All-pair, NotIn, Distinct, length, head_or,
}
use skiplist.Store.{Ptr, Link, null, clean, Callbacks, Store, ok, update}
use skiplist.Store.Access.{load_next-ok}
use skiplist.Chain.{IsInner, IsList}
use skiplist.Chain.Levels.{Links, Links-first}
use skiplist.Node.{free_node}
use skiplist.Snapshot.{free_preserved, release_snapshots}
use skiplist.Life.Release.{without, without-other, without-All}

-- From `pres` the pointers at level 0 lead through the nodes `ps` to NULL.
abbrev pub Chained : (Ptr → ℕ → Link) → Ptr → List Ptr → Type 0
Chained next pres [] = pres ≡ null
Chained next pres (p ∷ ps) = (pres ≡ p) × Links next null 0 p ps

chained_behind :
    (next : Ptr → ℕ → Link) (p : Ptr) (ps : List Ptr)
    → Links next null 0 p ps
    → Chained next (head_or null ps) ps
chained_behind next p [] links = refl
chained_behind next p (q ∷ ps) links = (refl, links.1)

module _ {E : Type 0} ⦃c : Callbacks E⦄ where
  -- The store keeps copies in the nodes `ps`, which are not in the list `zs`.
  pub record Keeps (s : Store E) (zs ps : List Ptr) : Type 0 where
    pub chained : Chained s.next s.pres ps
    pub live : All (λ p. (s.live p ≡ true) × (p ≢ null)) ps
    pub distinct : Distinct ps
    pub apart : All (λ p. (p ≢ s.head) × (p ≢ s.tail) × NotIn p zs) ps

  free_preserved_lem :
      (ps : List Ptr) (fuel : ℕ) (s : Store E) (p : Ptr)
      → length ps ≤ fuel
      → All (λ q. (s.live q ≡ true) × (q ≢ null)) ps
      → Distinct ps
      → Chained s.next p ps
      → free_preserved (suc fuel) (clean p) s ≡ ok tt (record s { live = without s.live ps })
  unfolding free_preserved free_node
  free_preserved_lem [] fuel s p enough live distinct chained = rw chained
  free_preserved_lem (q ∷ ps) zero s p enough live distinct chained = absurd (omega (arith, enough))
  free_preserved_lem (q ∷ ps) (suc fuel) s p enough live distinct chained =
      rw
        (
          chained.0,
          ==_ne live.0.1,
          load_next-ok s q live.0.0 0 (omega arith),
          live.0.0,
          Links-first s.next null 0 q ps chained.1,
        )
        (free_preserved_lem ps fuel (record s { live = update s.live q false }) (head_or null ps)
          (omega arith)
          (All-map (λ y. ((s.live y ≡ true) × (y ≢ null)) × (q ≢ y)) ps
            (λ y k. (rw (==_ne (λ e. k.1 (sym e))) k.0.0, k.0.1))
            (All-pair (λ y. (s.live y ≡ true) × (y ≢ null)) (λ y. q ≢ y) ps live.1 distinct.0))
          distinct.1 (chained_behind s.next q ps chained.1))

  module _ (s : Store E) (zs ps : List Ptr) (is : IsList s zs) (keeps : Keeps s zs ps) where
    -- the store without the copies
    abbrev released : Store E
    released = record s { live = without s.live ps; pres = null; pres_era = 0 }

    still_live : (q : Ptr) → NotIn q ps → s.live q ≡ true → without s.live ps q ≡ true
    still_live q apart live = without-other s.live ps q apart ∙ live

    released-IsList : IsList released zs
    released-IsList = record {
      ends = record {
        head_live =
            still_live s.head
              (All-map (λ p. (p ≢ s.head) × (p ≢ s.tail) × NotIn p zs) ps (λ p k e. k.0 (sym e))
                keeps.apart)
              is.ends.head_live;
        tail_live =
            still_live s.tail
              (All-map (λ p. (p ≢ s.head) × (p ≢ s.tail) × NotIn p zs) ps (λ p k e. k.1 (sym e))
                keeps.apart)
              is.ends.tail_live;
        head_ne_null = is.ends.head_ne_null;
        tail_ne_null = is.ends.tail_ne_null;
        head_ne_tail = is.ends.head_ne_tail;
        head_low = is.ends.head_low;
        head_high = is.ends.head_high;
      };
      inner =
          All-map (λ z. IsInner s z × NotIn z ps) zs
            (λ z k. record {
              live = still_live z k.1 k.0.live;
              ne_null = k.0.ne_null;
              ne_head = k.0.ne_head;
              ne_tail = k.0.ne_tail;
            })
            (All-pair (IsInner s) (λ z. NotIn z ps) zs is.inner
              (NotIn-swap ps zs (
                All-map (λ p. (p ≢ s.head) × (p ≢ s.tail) × NotIn p zs) ps (λ p k. k.2)
                  keeps.apart)));
      distinct = is.distinct;
      links = is.links;
      back = is.back;
      low = is.low;
      sorted = is.sorted;
      strict = is.strict;
      counted = is.counted;
    }

    -- With a well-formed list and the copies `ps` that a snapshot keeps apart from it, and fuel for all
    -- copies, skip_release_snapshots_ ends: every copy is freed, nothing else is, no snapshot is left,
    -- and the list is as before.
    pub release_snapshots_lem :
        (fuel : ℕ)
        → length ps ≤ fuel
        → s.pres_era ≢ 0
        → (s' : Store E) × (release_snapshots (suc fuel) s ≡ ok tt s')
          × IsList s' zs
          × Keeps s' zs []
          × (s'.pres_era ≡ 0)
          × All (λ p. s'.live p ≡ false) ps
          × ((q : Ptr) → NotIn q ps → s'.live q ≡ s.live q)
    unfolding release_snapshots
    release_snapshots_lem fuel enough taken = (
      released,
      rw (
        ==_ne taken,
        free_preserved_lem ps fuel s s.pres enough keeps.live keeps.distinct keeps.chained,
      ),
      released-IsList,
      record { chained = refl; live = tt; distinct = tt; apart = tt },
      refl,
      without-All s.live ps,
      λ q apart. without-other s.live ps q apart,
    )
