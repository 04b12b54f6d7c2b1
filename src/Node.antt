-- ===== src/Node.antt =====
-- skip_alloc_node_ and skip_free_node_ of include/sl.h.
use skiplist.Base.{true, false, [], ◌∷◌, ◌==◌, if◌then◌else◌}
use skiplist.Store.{
  Ptr, null, clean, Callbacks, ok, fault, Cmd, pure, ◌>>=◌, ◌>>◌, get, put, update,
}

module _ {E : Type 0} ⦃c : Callbacks E⦄ where
  -- `calloc`: the next address of the supply, or NULL
  abbrev pub calloc : Cmd E Ptr
  calloc s = elim s.supply [ [] ↦ ok null s | p ∷ rest ↦ ok p (record s { supply = rest }) ]

  -- The node, all its bytes zero, or NULL.
  unfoldable pub alloc_node : Cmd E Ptr
  alloc_node = do
    n ← calloc
    if n == null then pure null else do
      s ← get
      put (record s {
        live = update s.live n true;
        entry = update s.entry n c.blank_entry;
        era = update s.era n 0;
        height = update s.height n 0;
        prev = update s.prev n null;
        next = update s.next n (λ i. clean null);
        hits = update s.hits n (λ i. 0);
      })
      pure n

  -- The node goes back to the allocator, or to the pool that it is from. A node that is not
  -- allocated is a fault.
  unfoldable pub free_node : Ptr → Cmd E (Unit {0})
  free_node n s = if s.live n then ok tt (record s { live = update s.live n false }) else fault
