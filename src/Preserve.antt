-- ===== src/Preserve.antt =====
-- `_skip_preserve_node_` of include/sl.h: a copy of a node that a change is about to touch.
use Prim.Native.Nat.{Ordering}
use skiplist.Base.{
  ℕ, zero, suc, ◌+◌, ◌-◌, Bool, true, false, ◌||◌, ltb, leb, ◌==◌, ◌^◌, if◌then◌else◌,
}
use skiplist.Store.{
  Ptr, null, clean, marked, Callbacks, fault, Cmd, pure, ◌>>=◌, ◌>>◌, get, put, update, load_next,
  store_next, load_entry, load_prev, store_prev, load_height,
}
use skiplist.Search.{compare_nodes}
use skiplist.Insert.{Status, enomem, callback}
use skiplist.Node.{alloc_node, free_node}

-- What it returns: 0, -1 with the copy, an error of an allocation or of `archive_entry`, which is positive,
-- or a negative number of `archive_entry`, without a copy.
pub data Preserved : Type 0 where
  skipped : Preserved
  preserved : Ptr → Preserved
  failed : Status → Preserved
  lost : ℕ → Preserved

module _ {E : Type 0} ⦃c : Callbacks E⦄ where
  -- `memcpy` of a node with its levels, and the entry that `archive_entry` makes.
  unfoldable pub copy_node : Ptr → Ptr → E → Cmd E (Unit {0})
  copy_node dest src e = do
    s ← get
    put (record s {
      entry = update s.entry dest e;
      era = update s.era dest (s.era src);
      height = update s.height dest (s.height src);
      prev = update s.prev dest (s.prev src);
      next = update s.next dest (s.next src);
      hits = update s.hits dest (s.hits src);
    })

  unfoldable pub is_equal : Ptr → Ptr → Cmd E Bool
  is_equal a b = do cmp ← compare_nodes a b; elim cmp [ Ordering.eq ↦ pure true | _ ↦ pure false ]

  -- Whether the copy is equal to a neighbour. A marked pointer is no node.
  unfoldable pub is_duplicate : Ptr → Cmd E Bool
  is_duplicate dest = do
    l ← load_next dest 0
    elim l [
      | marked q ↦ λ _. fault
      | clean q ↦ (do
        after ← is_equal dest q
        if after then pure true else do p ← load_prev dest; is_equal dest p)
    ]

  -- The levels from `lvl` on are cleared.
  unfoldable pub clear_levels : Ptr → ℕ → ℕ → Cmd E (Unit {0})
  clear_levels dest lvl zero = pure tt
  clear_levels dest lvl (suc count) = do
    store_next dest lvl (clean null)
    clear_levels dest (lvl + 1) count

  -- The copy is put first in the list of the preserved nodes; next[1] is the flag of a duplicate,
  -- the bit pattern 1.
  unfoldable pub keep_copy : Ptr → Bool → Cmd E Preserved
  keep_copy dest is_dup = do
    store_prev dest null
    s ← get
    head_height ← load_height s.head
    clear_levels dest 0 (head_height - 1)
    store_next dest 1 (if is_dup then marked null else clean null)
    s ← get
    store_next dest 0 (clean s.pres)
    s ← get
    put (record s { pres = dest })
    pure (preserved dest)

  unfoldable pub preserve_node : Ptr → Cmd E Preserved
  preserve_node src = do
    s ← get
    if (src == null) || ((src == s.head) || (src == s.tail))
        then pure skipped
        else if ltb s.pres_era (s.era src)
        then pure skipped
        else do
          dest ← alloc_node
          if dest == null then pure (failed enomem) else do
            e ← load_entry src
            copy_node dest src (c.archive_entry e).1
            if ltb 0 (c.archive_entry e).0
                then (do
                  free_node dest
                  pure (
                      if leb (2 ^ 31) (c.archive_entry e).0
                      then lost (c.archive_entry e).0
                      else failed (callback (c.archive_entry e).0)))
                else do is_dup ← is_duplicate dest; keep_copy dest is_dup
