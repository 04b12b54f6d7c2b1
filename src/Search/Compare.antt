-- ===== src/Search/Compare.antt =====
-- `_skip_compare_nodes_` on the nodes of a list and a query node.
use Prim.Native.Nat.{Ordering}
use skiplist.Base.{◌≡◌, inl, inr, ◌==◌, ==_iff, ==_ne, Bool-cases, arith, sym, ap, ◌∙◌}
use skiplist.Store.{Ptr, Callbacks, Store, ok}
use skiplist.Chain.{IsOrder, IsInner, Sentinels}
use skiplist.Search.{compare_nodes}

module _ {E : Type 0} ⦃c : Callbacks E⦄ (s : Store E) where
  module _ (order : IsOrder c) where
    pub compare_nodes-inner :
        (p n : Ptr)
        → IsInner s p
        → IsInner s n
        → compare_nodes p n s ≡ ok (c.compare_entries (s.entry p) (s.entry n)) s
    unfolding compare_nodes
    compare_nodes-inner p n ip inn = elim (Bool-cases (p == n)) [
      | inl e ↦ rw e (
          ap (λ o. ok o s)
            (sym (order.same (s.entry p))
              ∙ ap (λ q. c.compare_entries (s.entry p) (s.entry q)) ((==_iff p n).0 e)))
      | inr e ↦ rw (
        e,
        ==_ne ip.ne_null,
        ==_ne inn.ne_null,
        ==_ne ip.ne_head,
        ==_ne inn.ne_tail,
        ==_ne ip.ne_tail,
        ==_ne inn.ne_head,
        ip.live,
        inn.live,
      )
    ]

  -- The tail stands behind every query.
  pub compare_nodes-tail :
      (n : Ptr) → Sentinels s → IsInner s n → compare_nodes s.tail n s ≡ ok Ordering.gt s
  unfolding compare_nodes
  compare_nodes-tail n e i = ground arith
