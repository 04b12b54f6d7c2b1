-- ===== src/Insert.antt =====
-- `_skip_insert_` of include/sl.h, and `skip_insert_` and `skip_insert_dup_` over it.
pub mod Phases
pub mod Publish
pub mod Neighbours
pub mod Entered
pub mod Enter
pub mod Correct
pub mod Shape
use skiplist.Base.{
  ℕ, zero, suc, ◌+◌, ◌-◌, ◌%◌, Bool, true, false, not, ◌&&◌, ◌||◌, ltb, ◌==◌, if◌then◌else◌,
}
use skiplist.Store.{
  Ptr, null, clean, marked, Callbacks, max_height, size_mod, Cmd, pure, ◌>>=◌, ◌>>◌, get, put,
  out_of_fuel, update, load_next, store_next, cas_next, load_height, store_height, store_prev,
  cas_prev, store_hits,
}
use skiplist.Search.{SkipPath, clear_path, locate}
use skiplist.Random.{toss}

-- What the functions return: 0, or an errno.
pub data Status : Type 0 where
  done einval enoent eexist enomem eio eoverflow : Status
  -- what a callback returned
  callback : ℕ → Status

-- The path above what the search has seen: `count` levels from `i` on.
abbrev pub fill_above : Ptr → Ptr → ℕ → ℕ → SkipPath → SkipPath
fill_above head tail i zero path = path
fill_above head tail i (suc count) path =
    fill_above head tail (i + 1) count
      (record path { pred = update path.pred i head; succ = update path.succ i tail })

abbrev pub toss_max : ℕ → ℕ
toss_max len = if ltb (max_height - 2) len then max_height - 2 else len

module _ {E : Type 0} ⦃c : Callbacks E⦄ where
  -- Phase 3: the loop that raises the head's height to `desired`.
  unfoldable pub grow_head : ℕ → ℕ → Cmd E (Unit {0})
  grow_head desired current = do
    s ← get
    if ltb current desired
        then (do store_height s.head desired; store_height s.tail desired)
        else pure tt

  -- Phase 4: the new node's pointers, `count` levels from `i` on.
  unfoldable pub prefill : Ptr → SkipPath → ℕ → ℕ → Cmd E (Unit {0})
  prefill n path i zero = pure tt
  prefill n path i (suc count) = do
    store_next n i (clean (path.succ i))
    prefill n path (i + 1) count

  -- Phases 5b and 6b at one level: unlink deleted successors of the new node.
  unfoldable pub help_unlink : ℕ → Ptr → ℕ → Cmd E (Unit {0})
  help_unlink zero n i = λ _. out_of_fuel
  help_unlink (suc f) n i = do
    s ← get
    first ← load_next n i
    elim first [
      | marked p ↦ pure tt
      | clean p ↦ if (p == null) || (p == s.tail) then pure tt else do
        second ← load_next p i
        elim second [
          | clean q ↦ pure tt
          | marked q ↦ (do
            won ← cas_next n i (clean p) (clean q)
            if won then help_unlink f n i else do
              seen ← load_next n i
              elim seen [ marked r ↦ pure tt | clean r ↦ help_unlink f n i ])
        ]
    ]

  unfoldable pub help_unlink_all : ℕ → Ptr → ℕ → ℕ → Cmd E (Unit {0})
  help_unlink_all fuel n i zero = pure tt
  help_unlink_all fuel n i (suc count) = do
    help_unlink fuel n i
    help_unlink_all fuel n (i + 1) count

  -- Phase 6 at one level: `false` is the jump to the end, for a node that is deleted meanwhile.
  unfoldable pub link_level : ℕ → ℕ → Ptr → ℕ → SkipPath → Cmd E (Bool × SkipPath)
  link_level zero fuel n i path = λ _. out_of_fuel
  link_level (suc tries) fuel n i path = do
    current ← load_next n i
    elim current [
      | marked p ↦ pure (false, path)
      | clean p ↦ (do
        if p == path.succ i then pure tt else store_next n i (clean (path.succ i))
        won ← cas_next (path.pred i) i (clean (path.succ i)) (clean n)
        if won then pure (true, path) else do
          (_, path') ← locate (suc tries) fuel n (record path { found = null })
          lowest ← load_next n 0
          elim lowest [
            | marked q ↦ pure (false, path')
            | clean q ↦ link_level tries fuel n i path'
          ])
    ]

  unfoldable pub link_levels : ℕ → ℕ → Ptr → ℕ → ℕ → SkipPath → Cmd E SkipPath
  link_levels tries fuel n i zero path = pure path
  link_levels tries fuel n i (suc count) path = do
    (linked, path') ← link_level tries fuel n i path
    if linked then link_levels tries fuel n (i + 1) count path' else pure path'

  -- Phase 7: the backward pointers of the node and of its successor.
  unfoldable pub link_back : Ptr → Ptr → Cmd E (Unit {0})
  link_back n pred = do
    store_prev n pred
    s ← get
    first ← load_next n 0
    elim first [
      | marked p ↦ pure tt
      | clean p ↦
          (if p == s.tail
            then (do _ ← cas_prev s.tail pred n; pure tt)
            else (do _ ← cas_prev p pred n; pure tt))
    ]

  -- The era of a new node, its first hit, and the length.
  unfoldable pub account : Ptr → ℕ → Cmd E (Unit {0})
  account n height = do
    s ← get
    put (record s {
      era = if ltb 0 s.pres_era then update s.era n s.cur_era else s.era;
      cur_era = if ltb 0 s.pres_era then (s.cur_era + 1) % size_mod else s.cur_era;
    })
    store_hits n height 1
    s ← get
    put (record s { length = (s.length + 1) % size_mod })

  -- From the level-0 swap on, which is the linearization point.
  unfoldable pub publish : ℕ → ℕ → Ptr → ℕ → SkipPath → Cmd E Status
  publish tries fuel n height path = do
    help_unlink fuel n 0
    path ← link_levels tries fuel n 1 height path
    link_back n (path.pred 0)
    help_unlink_all fuel n 1 height
    account n height
    pure done

  -- Phases 2 to 5, for a node of height `new_height`: its pointers, the head's height, and the swap
  -- at level 0.
  unfoldable pub swap_in : Ptr → ℕ → SkipPath → ℕ → Cmd E (Bool × SkipPath)
  swap_in n len path new_height = do
    store_height n new_height
    s ← get
    if ltb (len - 1) new_height
        then (do current ← load_height s.head; grow_head (new_height + 1) current)
        else pure tt
    let path = fill_above s.head s.tail len (new_height + 1 - len) path
    prefill n path 0 (new_height + 1)
    won ← cas_next (path.pred 0) 0 (clean (path.succ 0)) (clean n)
    pure (won, path)

  -- What is behind the refusals; `again` is the jump to the retry label.
  unfoldable pub enter : ℕ → ℕ → Ptr → ℕ → SkipPath → Cmd E Status → Cmd E Status
  enter tries fuel n len path again = do
    s ← get
    put (record s { has_dups = if path.found == null then s.has_dups else true })
    new_height ← toss fuel (toss_max len)
    (won, path) ← swap_in n len path new_height
    if won then publish tries fuel n new_height path else again

  -- `_skip_insert_`: `tries` bounds the retries, and `fuel` the walks and the loops inside.
  unfoldable pub insert_node : ℕ → ℕ → Ptr → Bool → Cmd E Status
  insert_node zero fuel n dups = λ _. out_of_fuel
  insert_node (suc tries) fuel n dups = if n == null then pure einval else do
    (len, path) ← locate (suc tries) fuel n clear_path
    if len == 0
        then pure enoent
        else if not (path.found == null) && not dups
        then pure eexist
        else enter (suc tries) fuel n len path (insert_node tries fuel n dups)

  -- `skip_insert_` and `skip_insert_dup_`
  unfoldable pub insert : ℕ → ℕ → Ptr → Cmd E Status
  insert tries fuel n = insert_node tries fuel n false

  unfoldable pub insert_dup : ℕ → ℕ → Ptr → Cmd E Status
  insert_dup tries fuel n = insert_node tries fuel n true
