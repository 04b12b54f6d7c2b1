-- ===== src/Life.antt =====
-- The life cycle of a list in include/sl.h: skip_init_, skip_release_ and skip_free_.
pub mod Levels
pub mod Init
pub mod Node
pub mod Release
use skiplist.Base.{ℕ, zero, suc, ◌+◌, ◌%◌, Bool, true, false, ltb, ◌==◌, if◌then◌else◌}
use skiplist.Store.{
  Ptr, Link, null, clean, marked, Callbacks, max_height, size_mod, fault, out_of_fuel, Cmd, pure,
  ◌>>=◌, ◌>>◌, get, put, load_next, store_next, load_height, store_height, store_prev, store_hits,
}
use skiplist.Insert.{Status, done, enomem}
use skiplist.Node.{alloc_node, free_node}
use skiplist.Iterate.{is_empty}
use skiplist.Snapshot.{release_snapshots}

module _ {E : Type 0} ⦃c : Callbacks E⦄ where
  -- The loops of skip_init_ over the pointers of a sentinel, at `count` levels from `i` on.
  unfoldable pub fill_next : Ptr → Link → ℕ → ℕ → Cmd E (Unit {0})
  fill_next p l i zero = pure tt
  fill_next p l i (suc count) = do store_next p i l; fill_next p l (i + 1) count

  -- The fields of the list with no heap behind them.
  unfoldable pub clear_fields : Cmd E (Unit {0})
  clear_fields = do
    s ← get
    put (record s { length = 0; ebr = false; cur_era = 0; pres_era = 0; pres = null })

  -- The two sentinels `head` and `tail`.
  unfoldable pub set_sentinels : Ptr → Ptr → Cmd E (Unit {0})
  set_sentinels head tail = do
    store_height head 1
    fill_next head (clean tail) 0 max_height
    store_prev head null
    h ← load_height head
    store_height tail h
    fill_next tail (clean null) 0 max_height
    store_prev tail head

  -- skip_init_. `seed` is the generator's state that it draws from the time, the process and the
  -- address of the list.
  unfoldable pub init : ℕ → Cmd E Status
  init seed = do
    clear_fields
    head ← alloc_node
    s ← get
    put (record s { head = head })
    if head == null then pure enomem else do
      tail ← alloc_node
      s ← get
      put (record s { tail = tail })
      if tail == null then pure enomem else do
        set_sentinels head tail
        s ← get
        put (record s { prng = seed; splay_counter = 0; has_dups = false })
        pure done

  -- The loop of skip_release_ over the nodes, from a pointer on. A marked pointer is no node.
  unfoldable pub free_nodes : ℕ → Link → Cmd E (Unit {0})
  free_nodes zero l = λ _. out_of_fuel
  free_nodes (suc f) l = elim l [
    | marked p ↦ λ _. fault
    | clean p ↦ (do
      s ← get
      if p == s.tail then pure tt else do next ← load_next p 0; free_node p; free_nodes f next)
  ]

  -- The loop over the sentinels' levels, `count` from `i` on.
  unfoldable pub reset_levels : ℕ → ℕ → Cmd E (Unit {0})
  reset_levels i zero = pure tt
  reset_levels i (suc count) = do
    s ← get
    store_next s.head i (clean s.tail)
    store_hits s.head i 0
    store_next s.tail i (clean null)
    store_hits s.tail i 0
    reset_levels (i + 1) count

  unfoldable pub reset_list : Cmd E (Unit {0})
  reset_list = do
    s ← get
    put (record s { length = 0; has_dups = false })
    store_height s.head 1
    reset_levels 0 max_height
    store_prev s.head null
    store_height s.tail 1
    store_prev s.tail s.head
    s ← get
    put (record s { cur_era = if ltb 0 s.pres_era then (s.cur_era + 1) % size_mod else s.cur_era })

  -- skip_release_
  unfoldable pub release : ℕ → Cmd E (Unit {0})
  release fuel = do
    empty ← is_empty
    if empty
        then pure tt
        else do s ← get; first ← load_next s.head 0; free_nodes fuel first; reset_list

  -- skip_free_: the sentinels go back to the allocator.
  unfoldable pub free : ℕ → Cmd E (Unit {0})
  free fuel = do
    s ← get
    if ltb 0 s.pres_era then release_snapshots fuel else pure tt
    release fuel
    s ← get
    free_node s.head
    free_node s.tail
