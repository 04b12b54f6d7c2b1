-- ===== src/Position.antt =====
-- The cursors of include/sl.h: skip_position_eq_, skip_position_gte_, skip_position_gt_,
-- skip_position_lte_, skip_position_lt_, and skip_position_ over them.
pub mod Parts
pub mod Scan
pub mod Place
use Prim.Native.Nat.{Ordering}
use skiplist.Base.{ℕ, zero, suc, ◌||◌, Bool, true, false, ◌==◌, if◌then◌else◌}
use skiplist.Store.{
  Ptr, null, clean, marked, unmark, is_marked, Callbacks, Cmd, pure, ◌>>=◌, ◌>>◌, get, out_of_fuel,
  load_next,
}
use skiplist.Search.{SkipPath, clear_path, compare_nodes, locate}
use skiplist.Lookup.{lookup_with_splay}

-- skip_pos_t
pub data Op : Type 0 where
  eq lte lt gte gt : Op

-- The tests that end the scans: `cmp >= 0` and `cmp > 0`.
abbrev pub not_before : Ordering → Bool
not_before Ordering.lt = false
not_before _ = true

abbrev pub after : Ordering → Bool
after Ordering.gt = true
after _ = false

module _ {E : Type 0} ⦃c : Callbacks E⦄ where
  -- The scans along level 0 of skip_position_gte_ and skip_position_gt_: to the first live node with
  -- `stop`, or to the tail.
  unfoldable pub scan : (Ordering → Bool) → ℕ → Ptr → Ptr → Cmd E Ptr
  scan stop zero query node = λ _. out_of_fuel
  scan stop (suc f) query node = do
    l ← load_next node 0
    let next = unmark l
    s ← get
    if (next == null) || (next == s.tail) then pure s.tail else do
      own ← load_next next 0
      elim (is_marked own) [
        | true ↦ scan stop f query next
        | false ↦ (do
          cmp ← compare_nodes next query
          elim (stop cmp) [ true ↦ pure next | false ↦ scan stop f query next ])
      ]

  -- `locate` stands for _skip_locate_with_splay_: the rebalance is compiled out.
  unfoldable pub position_eq : ℕ → ℕ → Ptr → Cmd E Ptr
  position_eq tries fuel query = do
    (node, path) ← lookup_with_splay tries fuel query clear_path
    pure node

  unfoldable pub position_gte : ℕ → ℕ → Ptr → Cmd E Ptr
  position_gte tries fuel query = do
    (len, path) ← locate tries fuel query clear_path
    node ← scan not_before fuel query (path.pred 0)
    s ← get
    pure (if node == s.tail then null else node)

  unfoldable pub position_gt : ℕ → ℕ → Ptr → Cmd E Ptr
  position_gt tries fuel query = do
    (len, path) ← locate tries fuel query clear_path
    s ← get
    node ← if path.pred 0 == s.tail then pure s.tail else scan after fuel query (path.pred 0)
    pure (if node == s.tail then null else node)

  unfoldable pub position_lte : ℕ → ℕ → Ptr → Cmd E Ptr
  position_lte tries fuel query = do
    (len, path) ← locate tries fuel query clear_path
    s ← get
    pure (
        if path.found == null
        then (if path.pred 0 == s.head then null else path.pred 0)
        else path.found)

  unfoldable pub position_lt : ℕ → ℕ → Ptr → Cmd E Ptr
  position_lt tries fuel query = do
    (len, path) ← locate tries fuel query clear_path
    s ← get
    pure (if path.pred 0 == s.head then null else path.pred 0)

  unfoldable pub position : ℕ → ℕ → Op → Ptr → Cmd E Ptr
  position tries fuel Op.lt query = position_lt tries fuel query
  position tries fuel Op.lte query = position_lte tries fuel query
  position tries fuel Op.gte query = position_gte tries fuel query
  position tries fuel Op.gt query = position_gt tries fuel query
  position tries fuel Op.eq query = position_eq tries fuel query
