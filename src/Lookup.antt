-- ===== src/Lookup.antt =====
-- `_skip_lookup_` of include/sl.h, the search with an early exit, and `_skip_lookup_with_splay_`.
pub mod Walk
pub mod Levels
pub mod Agree
pub mod Find
use Prim.Native.Nat.{Ordering}
use skiplist.Base.{ℕ, zero, suc, ◌+◌, ◌%◌, ◌^◌, Bool, true, false, ◌==◌, if◌then◌else◌}
use skiplist.Store.{
  Ptr, null, clean, marked, Callbacks, Cmd, pure, ◌>>=◌, ◌>>◌, get, put, out_of_fuel, update,
  load_next, load_height, add_hit,
}
use skiplist.Search.{SkipPath, compare_nodes}

-- How the walk along a level ends: behind `pred`, with `equal` when it stopped at the match, or
-- with the early exit of the whole function, at a node and its predecessor.
pub data Look : Type 0 where
  passed : Ptr → Bool → Ptr → Look
  leave : Ptr → Ptr → Look
  again : Look

module _ {E : Type 0} ⦃c : Callbacks E⦄ where
  -- The loop along level `i`.
  unfoldable pub lookup_walk : ℕ → Ptr → ℕ → Ptr → Ptr → Ptr → Cmd E Look
  lookup_walk zero n i pred curr match = λ _. out_of_fuel
  lookup_walk (suc f) n i pred curr match = do
    s ← get
    if curr == s.tail then pure (passed pred false match) else do
      succ ← load_next curr i
      elim succ [
        | marked q ↦ lookup_walk f n i pred q match
        | clean q ↦ (do
          cmp ← if curr == match then pure Ordering.eq else compare_nodes curr n
          elim cmp [
            | Ordering.eq ↦
                if s.has_dups then pure (passed pred true curr) else pure (leave curr pred)
            | Ordering.lt ↦ lookup_walk f n i curr q match
            | Ordering.gt ↦ pure (passed pred false match)
          ])
      ]

  -- The levels below `lvl`, from the top one down.
  unfoldable pub lookup_levels : ℕ → Ptr → ℕ → Ptr → Bool → Ptr → Cmd E Look
  lookup_levels fuel n zero pred equal match = pure (passed pred equal match)
  lookup_levels fuel n (suc i) pred equal match = do
    first ← load_next pred i
    elim first [
      | marked p ↦ pure again
      | clean p ↦ (do
        look ← lookup_walk fuel n i pred p match
        elim look [
          | again ↦ pure again
          | leave node p' ↦ pure (leave node p')
          | passed p' equal' match' ↦ lookup_levels fuel n i p' equal' match'
        ])
    ]

  -- `_skip_lookup_`: `tries` bounds the retries, `fuel` each level's walk.
  unfoldable pub lookup : ℕ → ℕ → Ptr → SkipPath → Cmd E (Ptr × SkipPath)
  lookup zero fuel n path = λ _. out_of_fuel
  lookup (suc tries) fuel n path = if n == null then pure (null, path) else do
    s ← get
    len ← load_height s.head
    look ← lookup_levels fuel n len s.head false null
    elim look [
      | again ↦ lookup tries fuel n path
      | leave node p ↦ pure (node, record path { found = node; pred = update path.pred 0 p })
      | passed p equal match ↦
          if equal
          then pure (match, record path { found = match; pred = update path.pred 0 p })
          else pure (null, record path { found = null; pred = update path.pred 0 p })
    ]

  -- The hits of a lookup that finds a node, and the counter of the accesses, a uint32_t.
  unfoldable pub lookup_with_splay : ℕ → ℕ → Ptr → SkipPath → Cmd E (Ptr × SkipPath)
  lookup_with_splay tries fuel n path = do
    (found, path') ← lookup tries fuel n path
    if found == null then pure (null, path') else do
      s ← get
      hh ← load_height s.head
      add_hit found 0
      add_hit s.head hh
      s ← get
      put (record s { splay_counter = (s.splay_counter + 1) % 2 ^ 32 })
      pure (found, path')
