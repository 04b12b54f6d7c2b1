-- ===== src/Snapshot.antt =====
-- SKIPLIST_DECL_SNAPSHOTS of include/sl.h, over `_skip_preserve_node_` (Preserve): skip_snapshot_,
-- skip_release_snapshots_ and skip_restore_snapshot_.
pub mod Kept
use skiplist.Base.{
  ℕ, zero, suc, ◌+◌, ◌*◌, ◌%◌, Bool, true, false, ◌||◌, List, [], ◌∷◌, ◌++◌, leb, ltb, length,
  Option, none, some, ◌==◌, if◌then◌else◌,
}
use skiplist.Store.{
  Ptr, Link, null, clean, marked, Callbacks, size_mod, fault, out_of_fuel, Cmd, pure, ◌>>=◌, ◌>>◌,
  get, put, unmark, link_eq, load_next, store_next, store_prev, load_era,
}
use skiplist.Node.{calloc, free_node}
use skiplist.Insert.{insert, insert_dup}
use skiplist.Remove.{remove_node}

-- An array that grows: its capacity and what is in it.
abbrev pub Growing : Type 0
Growing = ℕ × List Ptr

module _ {E : Type 0} ⦃c : Callbacks E⦄ where
  -- skip_snapshot_
  unfoldable pub snapshot : Cmd E ℕ
  snapshot = do
    s ← get
    put (record s {
      pres_era = (s.cur_era + 1) % size_mod;
      cur_era = ((s.cur_era + 1) % size_mod + 1) % size_mod;
    })
    s ← get
    pure s.pres_era

  -- The nodes of the list of the preserved ones.
  unfoldable pub free_preserved : ℕ → Link → Cmd E (Unit {0})
  free_preserved zero l = λ _. out_of_fuel
  free_preserved (suc f) l = elim l [
    | marked p ↦ λ _. fault
    | clean p ↦
        if p == null then pure tt else do next ← load_next p 0; free_node p; free_preserved f next
  ]

  -- skip_release_snapshots_
  unfoldable pub release_snapshots : ℕ → Cmd E (Unit {0})
  release_snapshots fuel = do
    s ← get
    if s.pres_era == 0 then pure tt else do
      free_preserved fuel (clean s.pres)
      s ← get
      put (record s { pres = null; pres_era = 0 })

  -- One more in the array, which doubles when it is full; none when there is no memory.
  unfoldable pub push : Growing → Ptr → Cmd E (Option Growing)
  push (cap, items) node =
      if leb cap (length items)
      then (do
        block ← calloc
        pure (if block == null then none else some (cap * 2 % size_mod, items ++ node ∷ [])))
      else pure (some (cap, items ++ node ∷ []))

  -- (a) the nodes behind `node` that are newer than `era`
  unfoldable pub collect_newer : ℕ → ℕ → Ptr → Growing → Cmd E (Option Growing)
  collect_newer zero era node a = λ _. out_of_fuel
  collect_newer (suc f) era node a = do
    l ← load_next node 0
    s ← get
    if unmark l == s.tail then pure (some a) else do
      e ← load_era (unmark l)
      more ← if ltb era e then push a (unmark l) else pure (some a)
      elim more [ none ↦ pure none | some a' ↦ collect_newer f era (unmark l) a' ]

  unfoldable pub remove_all : ℕ → ℕ → List Ptr → Cmd E (Unit {0})
  remove_all tries fuel [] = pure tt
  remove_all tries fuel (node ∷ nodes) = do
    _ ← remove_node tries fuel node
    remove_all tries fuel nodes

  -- The preserved nodes from a pointer on, in those to discard and those to restore.
  unfoldable pub sort_preserved :
      ℕ → ℕ → Link → Growing → Growing → Cmd E (Option (Growing × Growing))
  sort_preserved zero era l discard restore = λ _. out_of_fuel
  sort_preserved (suc f) era l discard restore = elim l [
    | marked p ↦ λ _. fault
    | clean p ↦ if p == null then pure (some (discard, restore)) else do
      next_node ← load_next p 0
      e ← load_era p
      if ltb era e
          then (do
            more ← push discard p
            elim more [ none ↦ pure none | some d ↦ sort_preserved f era next_node d restore ])
          else (do
            more ← push restore p
            elim more [ none ↦ pure none | some r ↦ sort_preserved f era next_node discard r ])
  ]

  -- A node leaves the list of the preserved ones, behind `p`.
  unfoldable pub unlink_behind : ℕ → Ptr → Ptr → Cmd E (Unit {0})
  unlink_behind zero p node = λ _. out_of_fuel
  unlink_behind (suc f) p node = do
    l ← load_next p 0
    elim l [
      | marked q ↦ λ _. fault
      | clean q ↦
          if q == null
          then pure tt
          else if q == node
          then (do next ← load_next node 0; store_next p 0 next)
          else unlink_behind f q node
    ]

  unfoldable pub unlink_preserved : ℕ → Ptr → Cmd E (Unit {0})
  unlink_preserved fuel node = do
    s ← get
    if s.pres == null
        then pure tt
        else if s.pres == node
        then (do
          next ← load_next node 0
          elim next [ marked q ↦ λ _. fault | clean q ↦ put (record s { pres = q }) ])
        else unlink_behind fuel s.pres node

  unfoldable pub discard_all : ℕ → List Ptr → Cmd E (Unit {0})
  discard_all fuel [] = pure tt
  discard_all fuel (node ∷ nodes) = do
    unlink_preserved fuel node
    free_node node
    discard_all fuel nodes

  -- A preserved node goes back into the list, as a duplicate when next[1] says so.
  unfoldable pub reinsert : ℕ → ℕ → Ptr → Cmd E (Unit {0})
  reinsert tries fuel node = do
    unlink_preserved fuel node
    store_prev node null
    flag ← load_next node 1
    if link_eq flag (clean null)
        then (do _ ← insert tries fuel node; pure tt)
        else (do store_next node 1 (clean null); _ ← insert_dup tries fuel node; pure tt)

  unfoldable pub restore_all : ℕ → ℕ → List Ptr → Cmd E (Unit {0})
  restore_all tries fuel [] = pure tt
  restore_all tries fuel (node ∷ nodes) = do reinsert tries fuel node; restore_all tries fuel nodes

  -- From (b) on: what is done with the preserved nodes.
  unfoldable pub restore_preserved : ℕ → ℕ → ℕ → ℕ → Cmd E Bool
  restore_preserved tries fuel era cur_era = do
    to_discard ← calloc
    to_restore ← calloc
    if (to_discard == null) || (to_restore == null) then pure false else do
      s ← get
      sorted ← sort_preserved fuel era (clean s.pres) (16, []) (16, [])
      elim sorted [
        | none ↦ pure false
        | some lists ↦ (do
          discard_all fuel lists.0.1
          restore_all tries fuel lists.1.1
          s ← get
          put (record s { pres_era = if s.pres == null then 0 else cur_era })
          pure true)
      ]

  -- skip_restore_snapshot_: `false` when there is no memory for its arrays.
  unfoldable pub restore_snapshot : ℕ → ℕ → ℕ → Cmd E Bool
  restore_snapshot tries fuel era = do
    s ← get
    if (era == 0) || leb s.cur_era era then pure true else do
      block ← calloc
      if block == null then pure false else do
        to_remove ← collect_newer fuel era s.head (16, [])
        elim to_remove [
          | none ↦ pure false
          | some a ↦ (do remove_all tries fuel a.1; restore_preserved tries fuel era s.cur_era)
        ]
