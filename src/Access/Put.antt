-- ===== src/Access/Put.antt =====
-- What skip_put_ does on every list.
use skiplist.Base.{ℕ, suc, ◌≤◌, ◌≡◌, ◌≢◌, List, ◌∷◌, length, NotIn, ==_ne, ==_self}
use skiplist.Store.{Ptr, null, Callbacks, Store, ok, load_entry}
use skiplist.Chain.{IsOrder, IsList}
use skiplist.Random.Toss.{IsSeed}
use skiplist.Insert.{done, eexist, insert, insert_dup}
use skiplist.Node.{free_node}
use skiplist.Life.Init.{alloc_node_lem}
use skiplist.Access.{Fields, add_with, put_value, dup_value}
use skiplist.Life.Node.{with_node}

module _ {E K V : Type 0} ⦃c : Callbacks E⦄ (fields : Fields E K V) (order : IsOrder c)
    (s : Store E) (zs : List Ptr) (is : IsList s zs) (n : Ptr) (rest : List Ptr)
    (given : s.supply ≡ n ∷ rest) (ne_null : n ≢ null) (ne_head : n ≢ s.head) (ne_tail : n ≢ s.tail)
    (fresh : NotIn n zs) (seed : IsSeed s.prng) (key : K) (value : V) (tries fuel : ℕ)
    (enough : length zs ≤ fuel) where
  -- the new node's entry
  abbrev new_entry : E
  new_entry = fields.with_value (fields.with_key c.blank_entry key) value

  -- the store with the new node, before its insertion
  abbrev pub prepared : Store E
  prepared = with_node s n rest new_entry

  pub put_done :
      (s' : Store E)
      → insert (suc tries) (suc fuel) n prepared ≡ ok done s'
      → put_value fields (suc tries) (suc fuel) key value s ≡ ok done s'
  unfolding put_value add_with load_entry
  put_done s' run = rw (alloc_node_lem s n rest given ne_null, ==_ne ne_null, ==_self n, run)

  pub dup_done :
      (s' : Store E)
      → insert_dup (suc tries) (suc fuel) n prepared ≡ ok done s'
      → dup_value fields (suc tries) (suc fuel) key value s ≡ ok done s'
  unfolding dup_value add_with load_entry
  dup_done s' run = rw (alloc_node_lem s n rest given ne_null, ==_ne ne_null, ==_self n, run)

  pub put_refused :
      (s' t : Store E)
      → insert (suc tries) (suc fuel) n prepared ≡ ok eexist s'
      → free_node n s' ≡ ok tt t
      → put_value fields (suc tries) (suc fuel) key value s ≡ ok eexist t
  unfolding put_value add_with load_entry
  put_refused s' t run freed =
      rw (alloc_node_lem s n rest given ne_null, ==_ne ne_null, ==_self n, run, freed)
