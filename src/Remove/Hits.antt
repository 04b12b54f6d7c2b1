-- ===== src/Remove/Hits.antt =====
-- `_skip_adjust_hit_counts_` ends, and changes hit counts alone.
use skiplist.Base.{
  ℕ, zero, suc, ◌+◌, ◌-◌, ◌/◌, ◌%◌, ◌≤◌, ◌<◌, ◌≡◌, refl, ap, List, [], ◌∷◌, arith, length, All,
  true, ==_self, ==_ne, ltb, Bool-cases, inl, inr,
}
use skiplist.Store.{Ptr, unmark, Callbacks, max_height, size_mod, Store, Run, ok, update₂}
use skiplist.Store.Access.{load_next-ok, load_height-ok, load_hits-ok, store_hits-ok}
use skiplist.Chain.{IsInner}
use skiplist.Chain.Levels.{Links}
use skiplist.Remove.{halve_hits, halve_all, adjust_hit_counts}

module _ {E : Type 0} ⦃c : Callbacks E⦄ (s : Store E) where
  abbrev with_hits : (Ptr → ℕ → ℕ) → Store E
  with_hits k = record s { hits = k }

  -- The run ends, and only hit counts differ.
  abbrev pub HitsOnly : Run E (Unit {0}) → Type 0
  HitsOnly r = (k : Ptr → ℕ → ℕ) × (r ≡ ok tt (with_hits k))

  halve_hits_lem :
      (p : Ptr)
      → s.live p ≡ true
      → (count l : ℕ) (k : Ptr → ℕ → ℕ) → l + count ≤ max_height
      → HitsOnly (halve_hits p l count (with_hits k))
  unfolding halve_hits
  halve_hits_lem p live zero l k low = (k, refl)
  halve_hits_lem p live (suc count) l k low =
      let new = (k p l + 1) % size_mod / 2 in
      let (k', run) = halve_hits_lem p live count (l + 1) (update₂ k p l new) (omega arith) in
      (
        k',
        rw
            (
              load_hits-ok (with_hits k) p live l (omega arith),
              store_hits-ok (with_hits k) p live l (omega arith) new,
            )
            run,
      )

  halve_all_lem :
      (f : ℕ) (p : Ptr) (zs : List Ptr) (k : Ptr → ℕ → ℕ)
      → length zs < f
      → s.live p ≡ true
      → All (IsInner s) zs
      → All (λ z. s.height z < max_height) zs
      → Links s.next s.tail 0 p zs
      → HitsOnly (halve_all f p (with_hits k))
  unfolding halve_all
  halve_all_lem zero p zs k fuel live inner low links = absurd (omega arith)
  halve_all_lem (suc f) p [] k fuel live inner low links =
      (k, rw (load_next-ok (with_hits k) p live 0 (omega arith), ap unmark links, ==_self s.tail))
  halve_all_lem (suc f) p (z ∷ zs) k fuel live inner low links =
      let (k₁, run₁) =
        halve_hits_lem z inner.0.live (s.height z + 1) 0 k (let h = low.0 in omega arith) in
      let (k₂, run₂) = halve_all_lem f z zs k₁ (omega arith) inner.0.live inner.1 low.1 links.1 in
      (
        k₂,
        rw
            (
              load_next-ok (with_hits k) p live 0 (omega arith),
              ap unmark links.0,
              ==_ne inner.0.ne_tail,
              load_height-ok (with_hits k) z inner.0.live,
              run₁,
            )
            run₂,
      )

  pub adjust_lem :
      (f : ℕ) (zs : List Ptr)
      → length zs ≤ f
      → s.live s.head ≡ true
      → s.height s.head < max_height
      → All (IsInner s) zs
      → All (λ z. s.height z < max_height) zs
      → Links s.next s.tail 0 s.head zs
      → HitsOnly (adjust_hit_counts (suc f) s)
  unfolding adjust_hit_counts
  adjust_lem f zs fuel live top inner low links =
      elim (Bool-cases (ltb (s.hits s.head (s.height s.head)) ((size_mod - 1) / 2))) [
        | inl few ↦ (
          s.hits,
          rw (load_height-ok s s.head live, load_hits-ok s s.head live (s.height s.head) top, few),
        )
        | inr many ↦
            let (k₁, run₁) =
              halve_hits_lem s.head live (s.height s.head + 1) 0 s.hits (omega arith) in
            let (k₂, run₂) =
              halve_all_lem (suc f) s.head zs k₁ (omega arith) live inner low links in
            (
              k₂,
              rw
                  (
                    load_height-ok s s.head live,
                    load_hits-ok s s.head live (s.height s.head) top,
                    many,
                    run₁,
                  )
                  run₂,
            )
      ]
