-- ===== src/Access.antt =====
-- SKIPLIST_DECL_ACCESS of include/sl.h: a list of keys with values.
pub mod Frame
pub mod Fresh
pub mod Get
pub mod Put
use skiplist.Base.{ℕ, Bool, true, false, not, ◌||◌, ◌==◌, if◌then◌else◌}
use skiplist.Store.{
  Ptr, null, Callbacks, Store, Cmd, pure, ◌>>=◌, ◌>>◌, get, put, update, load_entry,
}
use skiplist.Insert.{Status, done, enomem, insert, insert_dup}
use skiplist.Node.{alloc_node, free_node}
use skiplist.Position.{Op, position_eq, position}
use skiplist.Remove.{remove_node}
use skiplist.Update.{update_node}

-- The blocks and fields that the macro takes: `qblk` on an entry, the fields `key` and `value`, `rblk`,
-- and the zero of the value's type; `cast` is the pointer that skip_set_ makes of a value.
pub record Fields (E K V : Type 0) : Type 0 where
  pub query_entry : E → K → E
  pub with_key : E → K → E
  pub with_value : E → V → E
  pub value_of : E → V
  pub zero_value : V
  pub cast : V → ℕ

module _ {E K V : Type 0} ⦃c : Callbacks E⦄ (fields : Fields E K V) where
  -- The query of a function, a variable at the address `q` while the function runs.
  unfoldable pub begin_query : Ptr → K → Cmd E (Unit {0})
  begin_query q key = do
    s ← get
    put (record s {
      live = update s.live q true;
      entry = update s.entry q (fields.query_entry (s.entry q) key);
    })

  unfoldable pub end_query : Ptr → Cmd E (Unit {0})
  end_query q = do s ← get; put (record s { live = update s.live q false })

  -- skip_get_
  unfoldable pub get_value : ℕ → ℕ → Ptr → K → Cmd E V
  get_value tries fuel q key = do
    begin_query q key
    node ← position_eq tries fuel q
    v ←
        if node == null
        then pure fields.zero_value
        else (do e ← load_entry node; pure (fields.value_of e))
    end_query q
    pure v

  -- skip_contains_
  unfoldable pub contains : ℕ → ℕ → Ptr → K → Cmd E Bool
  contains tries fuel q key = do
    begin_query q key
    node ← position_eq tries fuel q
    end_query q
    pure (not (node == null))

  -- skip_pos_
  unfoldable pub pos : ℕ → ℕ → Ptr → Op → K → Cmd E Ptr
  pos tries fuel q op key = do
    begin_query q key
    node ← position tries fuel op q
    end_query q
    s ← get
    pure (if (node == s.head) || (node == s.tail) then null else node)

  -- The node with the key and the value, and its insertion by `ins`; it is freed when that fails.
  unfoldable pub add_with : (Ptr → Cmd E Status) → K → V → Cmd E Status
  add_with ins key value = do
    node ← alloc_node
    if node == null then pure enomem else do
      e ← load_entry node
      s ← get
      put (record s {
        entry = update s.entry node (fields.with_value (fields.with_key e key) value);
      })
      rc ← ins node
      elim rc [ done ↦ pure done | refused ↦ (do free_node node; pure refused) ]

  -- skip_put_
  unfoldable pub put_value : ℕ → ℕ → K → V → Cmd E Status
  put_value tries fuel key value = add_with (insert tries fuel) key value

  -- skip_dup_
  unfoldable pub dup_value : ℕ → ℕ → K → V → Cmd E Status
  dup_value tries fuel key value = add_with (insert_dup tries fuel) key value

  -- skip_set_
  unfoldable pub set_value : ℕ → ℕ → Ptr → K → V → Cmd E Status
  set_value tries fuel q key value = do
    begin_query q key
    rc ← update_node tries fuel q (fields.cast value)
    end_query q
    pure rc

  -- skip_del_
  unfoldable pub del : ℕ → ℕ → Ptr → K → Cmd E Status
  del tries fuel q key = do begin_query q key; rc ← remove_node tries fuel q; end_query q; pure rc
