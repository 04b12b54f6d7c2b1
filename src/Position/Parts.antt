-- ===== src/Position/Parts.antt =====
-- The nodes before a query, those equal to it and those behind it, and where the cursors stand.
use Prim.Native.Nat.{Ordering}
use skiplist.Base.{
  ◌≡◌, refl, ap, List, [], ◌∷◌, ◌++◌, All, All-map, last_or, head_or, inl, inr, Ordering-cases,
}
use skiplist.Store.{Ptr, null, Callbacks, Store}
use skiplist.Chain.{IsOrder, Before, Sorted}
use skiplist.Chain.Order.{Before-All}
use skiplist.Chain.Place.{Cut}
use skiplist.Position.{Op}

module _ {E : Type 0} ⦃c : Callbacks E⦄ (s : Store E) (n : Ptr) where
  -- equal to the query
  abbrev pub Equal : Ptr → Type 0
  Equal p = c.compare_entries (s.entry p) (s.entry n) ≡ Ordering.eq

  -- behind the query
  abbrev pub After : Ptr → Type 0
  After p = c.compare_entries (s.entry p) (s.entry n) ≡ Ordering.gt

  -- The nodes before the query, those equal to it, and those behind it.
  abbrev pub Parts : List Ptr → List Ptr → List Ptr → Type 0
  Parts xs es zs = record {
    before : All (λ p. Before s p n) xs;
    equal : All Equal es;
    behind : All After zs;
  }

-- The node that each cursor stands for, NULL when there is none. Among equal nodes
-- skip_position_lte_ has the first, not the last.
abbrev pub cursor : Op → List Ptr → List Ptr → List Ptr → Ptr
cursor Op.lt xs es zs = last_or null xs
cursor Op.lte xs es zs = head_or (last_or null xs) es
cursor Op.eq xs es zs = head_or null es
cursor Op.gte xs es zs = head_or (head_or null zs) es
cursor Op.gt xs es zs = head_or null zs

-- Every sorted list has the three parts.
module _ {E : Type 0} ⦃c : Callbacks E⦄ (order : IsOrder c) (s : Store E) (n : Ptr) where
  Parts-of_rest :
      (ys : List Ptr)
      → All (λ y. ¬ Before s y n) ys
      → Sorted s ys
      → (es : List Ptr) × (zs : List Ptr) × (ys ≡ es ++ zs) × Parts s n [] es zs
  Parts-of_rest [] rest sorted = ([], [], refl, record { before = tt; equal = tt; behind = tt })
  Parts-of_rest (y ∷ ys) rest sorted =
      elim (Ordering-cases (c.compare_entries (s.entry y) (s.entry n))) [
        | inl e ↦ absurd (rest.0 e)
        | inr (inl e) ↦
            let (es, zs, split, parts) = Parts-of_rest ys rest.1 sorted.1 in
            (
              y ∷ es,
              zs,
              ap (λ l. y ∷ l) split,
              record { before = tt; equal = (e, parts.equal); behind = parts.behind },
            )
        | inr (inr e) ↦
            let first = order.lt_of_gt (s.entry y) (s.entry n) e in
            (
              [],
              y ∷ ys,
              refl,
              record {
                before = tt;
                equal = tt;
                behind =
                    All-map (Before s n) (y ∷ ys) (λ q h. order.gt_of_lt (s.entry n) (s.entry q) h)
                      (Before-All order s n y ys first sorted);
              },
            )
      ]

  pub Parts-of_Cut :
      (xs ys : List Ptr)
      → Cut s xs ys n
      → Sorted s ys
      → (es : List Ptr) × (zs : List Ptr) × (ys ≡ es ++ zs) × Parts s n xs es zs
  Parts-of_Cut xs ys cut sorted =
      let (es, zs, split, parts) = Parts-of_rest ys cut.rest sorted in
      (es, zs, split, record { before = cut.before; equal = parts.equal; behind = parts.behind })
