-- ===== src/Update.antt =====
-- skip_update_ of include/sl.h.
pub mod Correct
use skiplist.Base.{ℕ, ◌+◌, ◌%◌, Bool, true, false, ltb, ◌==◌, if◌then◌else◌}
use skiplist.Store.{
  Ptr, null, Callbacks, size_mod, Store, Cmd, pure, ok, fault, ◌>>=◌, ◌>>◌, get, put, update,
  load_entry,
}
use skiplist.Search.{clear_path}
use skiplist.Lookup.{lookup_with_splay}
use skiplist.Insert.{Status, done, enoent, callback}
use skiplist.Preserve.{Preserved, skipped, preserved, failed, preserve_node}

module _ {E : Type 0} ⦃c : Callbacks E⦄ where
  -- The user's block on the node's entry.
  unfoldable pub change_entry : Ptr → ℕ → Cmd E (Unit {0})
  change_entry node value = do
    e ← load_entry node
    s ← get
    put (record s { entry = update s.entry node (c.update_entry e value) })

  -- With a snapshot the node gets the new era.
  unfoldable pub stamp_era : Ptr → Cmd E (Unit {0})
  stamp_era node = do
    s ← get
    put (
        if ltb 0 s.pres_era
        then record s {
          cur_era = (s.cur_era + 1) % size_mod;
          era = update s.era node ((s.cur_era + 1) % size_mod);
        }
        else s)

  -- The update of the node that the search has found: a snapshot's copy first.
  unfoldable pub update_found : Ptr → ℕ → Cmd E Status
  update_found node value = do
    s ← get
    np ← if ltb 0 s.pres_era then preserve_node node else pure skipped
    elim np [
      | failed status ↦ pure status
      | _ ↦ (do stamp_era node; change_entry node value; pure done)
    ]

  -- skip_update_
  unfoldable pub update_node : ℕ → ℕ → Ptr → ℕ → Cmd E Status
  update_node tries fuel query value = do
    (node, path) ← lookup_with_splay tries fuel query clear_path
    if node == null then pure enoent else update_found node value
