-- ===== src/Life/Node.antt =====
-- A list next to a node that has just been allocated, and one that has been given back.
use skiplist.Base.{◌≢◌, refl, sym, true, false, List, All-map, NotIn, ==_ne, ==_self, ℕ}
use skiplist.Store.{Ptr, null, clean, Callbacks, Store, update}
use skiplist.Chain.{IsInner, IsList}
use skiplist.Life.Init.{allocated}
use skiplist.Access.Frame.{frame-IsList}
use skiplist.Access.Fresh.{rewritten-IsList}

module _ {E : Type 0} ⦃c : Callbacks E⦄ where
  -- the store with the new node `n`, which has this entry
  abbrev pub with_node : Store E → Ptr → List Ptr → E → Store E
  with_node s n rest e = record (allocated s n rest) {
    entry = update (update s.entry n c.blank_entry) n e;
  }

  -- the store with these hit counts, once the new node is freed
  abbrev pub taken_back : Store E → Ptr → List Ptr → E → (Ptr → ℕ → ℕ) → Store E
  taken_back s n rest e hits = record (with_node s n rest e) {
    hits = hits;
    live = update (with_node s n rest e).live n false;
  }

  pub with_node-IsInner :
      (s : Store E) (n : Ptr) (rest : List Ptr)
      → n ≢ null
      → n ≢ s.head
      → n ≢ s.tail
      → (e : E) → IsInner (with_node s n rest e) n
  with_node-IsInner s n rest ne_null ne_head ne_tail e = record {
    live = rw (==_self n);
    ne_null = ne_null;
    ne_head = ne_head;
    ne_tail = ne_tail;
  }

module _ {E : Type 0} ⦃c : Callbacks E⦄ (s : Store E) (zs : List Ptr) (is : IsList s zs) (n : Ptr)
    (rest : List Ptr) (ne_head : n ≢ s.head) (ne_tail : n ≢ s.tail) (fresh : NotIn n zs)
    (e : E) where
  pub with_node-IsList : IsList (with_node s n rest e) zs
  with_node-IsList =
      frame-IsList (allocated s n rest) zs
        (rewritten-IsList s zs is n ne_head ne_tail fresh true c.blank_entry 0 null
          (λ i. clean null))
        (with_node s n rest e).live (with_node s n rest e).entry
        (All-map (λ z. n ≢ z) zs (λ z d. (refl, rw (==_ne (λ k. d (sym k))))) fresh) refl refl

  pub taken_back-IsList : (hits : Ptr → ℕ → ℕ) → IsList (taken_back s n rest e hits) zs
  taken_back-IsList hits =
      frame-IsList (record (with_node s n rest e) { hits = hits }) zs with_node-IsList
        (taken_back s n rest e hits).live (with_node s n rest e).entry
        (All-map (λ z. n ≢ z) zs (λ z d. (rw (==_ne (λ k. d (sym k))), refl)) fresh)
        (rw (==_ne (λ k. ne_head (sym k)))) (rw (==_ne (λ k. ne_tail (sym k))))
