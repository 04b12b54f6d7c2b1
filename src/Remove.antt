-- ===== src/Remove.antt =====
-- skip_remove_node_ of include/sl.h.
pub mod Back
pub mod Correct
pub mod Gone
pub mod Marks
pub mod Hits
pub mod Shrink
use Prim.Native.Nat.{Ordering}
use skiplist.Base.{
  ℕ, zero, suc, ◌+◌, ◌-◌, ◌/◌, ◌%◌, ◌^◌, Bool, true, false, not, ◌||◌, List, ◌∷◌, ltb, ◌==◌,
  if◌then◌else◌,
}
use skiplist.Store.{
  Ptr, null, clean, marked, unmark, link_eq, Callbacks, size_mod, Store, Cmd, pure, ◌>>=◌, ◌>>◌,
  get, put, out_of_fuel, load_next, cas_next, load_height, store_height, load_prev, cas_prev,
  load_hits, store_hits,
}
use skiplist.Search.{SkipPath, clear_path, locate}
use skiplist.Insert.{Status, done, einval, enoent, callback}
use skiplist.Node.{free_node}
use skiplist.Unlink.{unlink_fully}
use skiplist.Preserve.{Preserved, skipped, preserved, failed, preserve_node}

module _ {E : Type 0} ⦃c : Callbacks E⦄ where
  -- Phase 1 at one level: the mark of a forward pointer.
  unfoldable pub mark_level : ℕ → Ptr → ℕ → Cmd E (Unit {0})
  mark_level zero node lvl = λ _. out_of_fuel
  mark_level (suc f) node lvl = do
    succ ← load_next node lvl
    elim succ [
      | marked p ↦ pure tt
      | clean p ↦ (do _ ← cas_next node lvl (clean p) (marked p); mark_level f node lvl)
    ]

  -- The levels from `lvl` down to 1.
  unfoldable pub mark_levels : ℕ → Ptr → ℕ → Cmd E (Unit {0})
  mark_levels f node zero = pure tt
  mark_levels f node (suc lvl) = do mark_level f node (suc lvl); mark_levels f node lvl

  -- Phase 2, the linearization point: `false` when another thread has marked level 0.
  unfoldable pub mark_bottom : ℕ → Ptr → Cmd E Bool
  mark_bottom zero node = λ _. out_of_fuel
  mark_bottom (suc f) node = do
    succ ← load_next node 0
    elim succ [
      | marked p ↦ pure false
      | clean p ↦ (do
        won ← cas_next node 0 (clean p) (marked p)
        elim won [ true ↦ pure true | false ↦ mark_bottom f node ])
    ]

  -- The backward pointer of the successor.
  unfoldable pub unlink_back : Ptr → Cmd E (Unit {0})
  unlink_back node = do
    l ← load_next node 0
    s ← get
    if (unmark l == s.tail) || (unmark l == null)
        then pure tt
        else (do new_prev ← load_prev node; _ ← cas_prev (unmark l) node new_prev; pure tt)
    if unmark l == s.tail
        then (do new_prev ← load_prev node; _ ← cas_prev s.tail node new_prev; pure tt)
        else pure tt

  -- The head's height `h` goes down while the level below it is empty.
  unfoldable pub shrink_head : ℕ → Cmd E (Unit {0})
  shrink_head zero = pure tt
  shrink_head (suc zero) = pure tt
  shrink_head (suc (suc k)) = do
    s ← get
    top_next ← load_next s.head (suc k)
    let rest = shrink_head (suc k)
    if link_eq top_next (clean s.tail)
        then (do store_height s.head (suc k); store_height s.tail (suc k); rest)
        else pure tt

  -- The hit counts of one node, at `count` levels from `lvl` on.
  unfoldable pub halve_hits : Ptr → ℕ → ℕ → Cmd E (Unit {0})
  halve_hits node lvl zero = pure tt
  halve_hits node lvl (suc count) = do
    old_val ← load_hits node lvl
    store_hits node lvl ((old_val + 1) % size_mod / 2)
    halve_hits node (lvl + 1) count

  -- The nodes behind `node`.
  unfoldable pub halve_all : ℕ → Ptr → Cmd E (Unit {0})
  halve_all zero node = λ _. out_of_fuel
  halve_all (suc f) node = do
    l ← load_next node 0
    s ← get
    if unmark l == s.tail then pure tt else do
      height ← load_height (unmark l)
      halve_hits (unmark l) 0 (height + 1)
      halve_all f (unmark l)

  -- `_skip_adjust_hit_counts_`
  unfoldable pub adjust_hit_counts : ℕ → Cmd E (Unit {0})
  adjust_hit_counts fuel = do
    s ← get
    top ← load_height s.head
    total_hits ← load_hits s.head top
    if ltb total_hits ((size_mod - 1) / 2)
        then pure tt
        else do halve_hits s.head 0 (top + 1); halve_all fuel s.head

  -- The node is handed to the reclamation, or freed.
  unfoldable pub dispose : Ptr → Cmd E (Unit {0})
  dispose node = do
    s ← get
    if s.ebr then put (record s { retired = node ∷ s.retired }) else free_node node

  -- From the marks on.
  unfoldable pub take_out : ℕ → ℕ → Ptr → Cmd E Status
  take_out tries fuel node = do
    height ← load_height node
    mark_levels fuel node height
    won ← mark_bottom fuel node
    if won
        then (do
          unlink_fully tries fuel node
          unlink_back node
          s ← get
          put (record s { length = (s.length + (size_mod - 1)) % size_mod })
          h ← load_height s.head
          shrink_head h
          dispose node
          adjust_hit_counts fuel
          pure done)
        else pure done

  -- The removal of a node that the search has found: a snapshot's copy first.
  unfoldable pub remove_found : ℕ → ℕ → Ptr → Cmd E Status
  remove_found tries fuel node = do
    s ← get
    np ← if ltb 0 s.pres_era then preserve_node node else pure skipped
    s ← get
    elim np [
      | failed status ↦ pure status
      | _ ↦ (do
        put (record s {
          cur_era = if ltb 0 s.pres_era then (s.cur_era + 1) % size_mod else s.cur_era;
        })
        take_out tries fuel node)
    ]

  -- skip_remove_node_
  unfoldable pub remove_node : ℕ → ℕ → Ptr → Cmd E Status
  remove_node tries fuel query = if query == null then pure einval else do
    (len, path) ← locate tries fuel query clear_path
    if path.found == null then pure enoent else remove_found tries fuel path.found
