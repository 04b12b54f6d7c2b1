-- ===== src/Integrity.antt =====
-- _skip_integrity_check_ of include/sl.h, less what it prints. The callbacks are never NULL here, and the
-- levels of a node are part of it.
pub mod Levels
pub mod Nodes
pub mod Sound
use Prim.Native.Nat.{Ordering}
use skiplist.Base.{
  ℕ, zero, suc, ◌+◌, ◌-◌, ◌/◌, ◌%◌, Bool, true, false, not, ◌&&◌, ◌||◌, ltb, leb, ◌==◌,
  if◌then◌else◌,
}
use skiplist.Store.{
  Ptr, null, unmark, is_marked, Callbacks, max_height, Cmd, pure, ◌>>=◌, ◌>>◌, out_of_fuel, get,
  load_next, load_prev, load_height,
}
use skiplist.Search.{compare_nodes}

-- How far a check has come, with the number of errors: it ends there, or goes on.
pub data Verdict : Type 0 where
  stop : ℕ → Verdict
  on : ℕ → Verdict

-- One more error when the test fails, and the end when the first is asked for.
abbrev pub report : Bool → Bool → ℕ → Verdict
report early bad n_err =
    if bad then if early then stop (n_err + 1) else on (n_err + 1) else on n_err

abbrev pub errors : Verdict → ℕ
errors (stop n_err) = n_err
errors (on n_err) = n_err

abbrev pub is_lt : Ordering → Bool
is_lt Ordering.lt = true
is_lt _ = false

abbrev pub is_gt : Ordering → Bool
is_gt Ordering.gt = true
is_gt _ = false

-- a height that the loops over the levels can trust
abbrev pub clamp : ℕ → ℕ
clamp height = if leb max_height height then max_height - 1 else height

module _ {E : Type 0} ⦃c : Callbacks E⦄ where
  abbrev pub continue : Verdict → (ℕ → Cmd E Verdict) → Cmd E Verdict
  continue (stop n_err) k = pure (stop n_err)
  continue (on n_err) k = k n_err

  -- The heights of the head and the tail.
  abbrev pub check_heights : Bool → ℕ → ℕ → ℕ → (ℕ → Cmd E Verdict) → Cmd E Verdict
  check_heights early head_height tail_height n_err k =
      continue (report early (leb max_height head_height) n_err) (λ n₁.
        continue (report early (leb max_height tail_height) n₁)
          (λ n₂. continue (report early (not (clamp head_height == clamp tail_height)) n₂) k))

  -- The head's pointers, `count` levels from `lvl` on, behind one that is the tail.
  unfoldable pub head_above : Bool → ℕ → ℕ → ℕ → Cmd E Verdict
  head_above early lvl zero n_err = pure (on n_err)
  head_above early lvl (suc count) n_err = do
    s ← get
    l ← load_next s.head lvl
    continue (report early (unmark l == null) n_err) (head_above early (lvl + 1) count)

  unfoldable pub head_levels : Bool → Bool → ℕ → ℕ → ℕ → Cmd E Verdict
  head_levels early skip lvl zero n_err = pure (on n_err)
  head_levels early skip lvl (suc count) n_err = do
    s ← get
    l ← load_next s.head lvl
    if (unmark l == null) && (lvl == 0)
        then pure (stop (n_err + 1))
        else continue (report early (unmark l == null) n_err) (λ n₁.
          continue (report early (not skip && is_marked l) n₁) (λ n₂.
            if unmark l == s.tail
            then head_above early (lvl + 1) count n₂
            else head_levels early skip (lvl + 1) count n₂))

  -- The walk along a level, of at most `steps` steps.
  unfoldable pub reach_tail : ℕ → ℕ → Ptr → Cmd E Ptr
  reach_tail lvl zero walk = pure walk
  reach_tail lvl (suc steps) walk = do
    s ← get
    if (walk == null) || (walk == s.tail)
        then pure walk
        else do l ← load_next walk lvl; reach_tail lvl steps (unmark l)

  -- The chains of `count` levels from `lvl` on.
  unfoldable pub check_chains : Bool → ℕ → ℕ → ℕ → ℕ → Cmd E Verdict
  check_chains early max_steps lvl zero n_err = pure (on n_err)
  check_chains early max_steps lvl (suc count) n_err = do
    s ← get
    walk ← reach_tail lvl (max_steps + 1) s.head
    continue (report early (not (walk == s.tail)) n_err)
        (check_chains early max_steps (lvl + 1) count)

  -- A node's pointers behind one that is the tail.
  unfoldable pub node_above : Bool → Bool → Ptr → ℕ → ℕ → ℕ → Cmd E Verdict
  node_above early skip node lvl zero n_err = pure (on n_err)
  node_above early skip node lvl (suc count) n_err = do
    s ← get
    l ← load_next node lvl
    continue (report early ((unmark l == null) || not (unmark l == s.tail)) n_err) (λ n₁.
        continue (report early (not skip && is_marked l) n₁)
          (node_above early skip node (lvl + 1) count))

  unfoldable pub node_levels : Bool → Bool → Ptr → ℕ → ℕ → ℕ → Cmd E Verdict
  node_levels early skip node lvl zero n_err = pure (on n_err)
  node_levels early skip node lvl (suc count) n_err = do
    s ← get
    l ← load_next node lvl
    if (unmark l == null) && (lvl == 0)
        then pure (stop (n_err + 1))
        else continue (report early (unmark l == null) n_err) (λ n₁.
          continue (report early (not skip && is_marked l) n₁) (λ n₂.
            if unmark l == s.tail
            then node_above early skip node (lvl + 1) count n₂
            else node_levels early skip node (lvl + 1) count n₂))

  -- The node next to its neighbours.
  unfoldable pub check_order : Bool → Ptr → ℕ → Cmd E Verdict
  check_order early node n_err = do
    l ← load_next node 0
    prev ← load_prev node
    itself ← compare_nodes node node
    continue (report early (is_lt itself || is_gt itself) n_err) (λ n₁. do
      behind ← compare_nodes node prev
      continue (report early (is_lt behind) n₁) (λ n₂. do
        before ← compare_nodes node (unmark l)
        continue (report early (is_gt before) n₂) (λ n₃. do
          ahead ← compare_nodes prev node
          continue (report early (is_gt ahead) n₃) (λ n₄. do
            after ← compare_nodes (unmark l) node
            pure (report early (is_lt after) n₄)))))

  unfoldable pub check_node : Bool → Bool → ℕ → Ptr → ℕ → Cmd E Verdict
  check_node early skip head_height node n_err = do
    node_height ← load_height node
    continue (report early (ltb head_height node_height) n_err) (λ n₁. do
      height ← pure (if ltb head_height node_height then head_height else node_height)
      continue (report early (leb max_height height) n₁) (λ n₂. do
        node_prev ← load_prev node
        continue (report early (node_prev == null) n₂) (λ n₃. do
          levels ← node_levels early skip node 0 (clamp height + 1) n₃
          continue levels (check_order early node))))

  -- The nodes behind `node`, of which there are `nth` before, and their number at the end.
  unfoldable pub check_nodes : ℕ → Bool → Bool → ℕ → ℕ → ℕ → Ptr → ℕ → Cmd E Verdict
  check_nodes zero early skip head_height list_len nth node n_err = λ _. out_of_fuel
  check_nodes (suc f) early skip head_height list_len nth node n_err = do
    l ← load_next node 0
    s ← get
    if unmark l == s.tail
        then pure (report early (not (list_len == nth)) n_err)
        else if ltb (list_len + 2) nth
        then pure (stop (n_err + 1))
        else do
          v ← check_node early skip head_height (unmark l) n_err
          continue v (check_nodes f early skip head_height list_len (nth + 1) (unmark l))

  -- _skip_integrity_check_
  unfoldable pub integrity_check : ℕ → Cmd E ℕ
  integrity_check flags = do
    s ← get
    early ← pure (not (flags / 2 % 2 == 0))
    skip ← pure (not (flags % 2 == 0))
    if (s.head == null) || (s.tail == null) then pure 1 else do
      head_height ← load_height s.head
      tail_height ← load_height s.tail
      v ← check_heights early head_height tail_height 0 (λ n₁. do
        heads ← head_levels early skip 0 (clamp head_height + 1) n₁
        continue heads (λ n₂. do
          tail_prev ← load_prev s.tail
          continue (report early (ltb 0 s.length && (tail_prev == s.head)) n₂) (λ n₃. do
            chains ←
                if skip
                then pure (on n₃)
                else check_chains early (s.length + 2) 0 (clamp head_height + 1) n₃
            continue chains
                (check_nodes (s.length + 4) early skip (clamp head_height) s.length 0 s.head))))
      pure (errors v)
