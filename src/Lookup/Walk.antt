-- ===== src/Lookup/Walk.antt =====
-- The walk of `_skip_lookup_` along one level.
use Prim.Native.Nat.{Ordering}
use skiplist.Base.{
  ℕ, zero, suc, ◌<◌, ◌≡◌, ◌⊎◌, Ordering-cases, Bool-cases, inl, inr, true, false, List, [], ◌∷◌,
  ◌++◌, arith, length, All, last_or, head_or, ==_self, ==_ne, ==_iff, if◌then◌else◌, ◌==◌, ap, ◌∙◌,
}
use skiplist.Store.{Ptr, null, Callbacks, max_height, Store, pure, ok}
use skiplist.Store.Access.{load_next-ok}
use skiplist.Chain.{IsOrder, IsInner, Before, Sentinels}
use skiplist.Chain.Levels.{Links, Links-first}
use skiplist.Search.{compare_nodes}
use skiplist.Search.Compare.{compare_nodes-inner}
use skiplist.Lookup.{Look, passed, leave, lookup_walk}

module _ {E : Type 0} ⦃c : Callbacks E⦄ (s : Store E) where
  -- What has been seen as a match: nothing yet, or a node that is equal to the query.
  abbrev pub IsMatch : Ptr → Ptr → Type 0
  IsMatch n m = (m ≡ null) ⊎ (c.compare_entries (s.entry m) (s.entry n) ≡ Ordering.eq)

  -- What the walk makes of the nodes `bs` that do not precede the query.
  abbrev pub look : Ptr → Ptr → Ptr → List Ptr → Look
  look n p m [] = passed p false m
  look n p m (b ∷ bs) = elim (c.compare_entries (s.entry b) (s.entry n)) [
    | Ordering.eq ↦ if s.has_dups then passed p true b else leave b p
    | _ ↦ passed p false m
  ]

  module _ (order : IsOrder c) (n : Ptr) (query : IsInner s n) (m : Ptr) (match : IsMatch n m) where
    -- The test by pointer agrees with the comparison that it saves.
    compare-match :
        (b : Ptr)
        → IsInner s b
        → (if b == m then pure Ordering.eq else compare_nodes b n) s
          ≡ ok (c.compare_entries (s.entry b) (s.entry n)) s
    compare-match b inner = elim (Bool-cases (b == m)) [
      | inl e ↦
          let it : b ≡ m = (==_iff b m).0 e in
          elim match [
            | inl none ↦ absurd (inner.ne_null (it ∙ none))
            | inr equal ↦
                let same : c.compare_entries (s.entry b) (s.entry n) ≡ Ordering.eq =
                  ap (λ q. c.compare_entries (s.entry q) (s.entry n)) it ∙ equal in
                rw (e, same)
          ]
      | inr e ↦ rw e (compare_nodes-inner s order b n inner query)
    ]

    module _ (ends : Sentinels s) (i : ℕ) (low : i < max_height) where
      -- The walk passes the nodes before the query, and looks at the first of the others.
      pub lookup_walk-Links :
          (f : ℕ) (p : Ptr) (vs bs : List Ptr)
          → length vs < f
          → All (IsInner s) (vs ++ bs)
          → All (λ v. Before s v n) vs
          → All (λ b. ¬ Before s b n) bs
          → Links s.next s.tail i p (vs ++ bs)
          → lookup_walk f n i p (head_or s.tail (vs ++ bs)) m s ≡ ok (look n (last_or p vs) m bs) s
      unfolding lookup_walk
      lookup_walk-Links zero p vs bs fuel inner before rest links = absurd (omega arith)
      lookup_walk-Links (suc f) p [] [] fuel inner before rest links = rw (==_self s.tail)
      lookup_walk-Links (suc f) p [] (b ∷ bs) fuel inner before rest links =
          rw
            (
              ==_ne (inner.0.ne_tail),
              load_next-ok s b inner.0.live i low,
              Links-first s.next s.tail i b bs links.1,
              compare-match b inner.0,
            )
            (elim (Ordering-cases (c.compare_entries (s.entry b) (s.entry n))) [
              | inl e ↦ absurd (rest.0 e)
              | inr (inl e) ↦ elim (Bool-cases s.has_dups) [
                | inl d ↦ rw (e, look, d)
                | inr d ↦ rw (e, look, d)
              ]
              | inr (inr e) ↦ rw (e, look)
            ])
      lookup_walk-Links (suc f) p (v ∷ vs) bs fuel inner before rest links =
          rw
            (
              ==_ne (inner.0.ne_tail),
              load_next-ok s v inner.0.live i low,
              Links-first s.next s.tail i v (vs ++ bs) links.1,
              compare-match v inner.0,
              before.0,
            )
            (lookup_walk-Links f v vs bs (omega arith) inner.1 before.1 rest links.1)
