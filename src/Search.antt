-- ===== src/Search.antt =====
-- The searches of include/sl.h: `_skip_compare_nodes_`, `_skip_locate_`, `_skip_lookup_`, as they
-- are compiled with SKIPLIST_SINGLE_THREADED, and without SKIPLIST_SPLAY_REBALANCE.
pub mod Compare
pub mod Descend
pub mod Locate
pub mod Match
pub mod Seek
use Prim.Native.Nat.{Ordering}
use skiplist.Base.{ℕ, zero, suc, ◌||◌, ◌==◌, if◌then◌else◌}
use skiplist.Store.{
  Ptr, null, Link, clean, marked, Callbacks, Cmd, pure, ◌>>=◌, ◌>>◌, get, out_of_fuel, load_next,
  cas_next, load_entry, load_height, add_hit, update,
}

-- `_skiplist_path_`: `found` is path[0].node; `pred i` and `succ i` are the node and succ of
-- path[i + 1].
pub record SkipPath : Type 0 where
  pub found : Ptr
  pub pred : ℕ → Ptr
  pub succ : ℕ → Ptr

abbrev pub record_level : SkipPath → ℕ → Ptr → Ptr → SkipPath
record_level path i p c = record path { pred = update path.pred i p; succ = update path.succ i c }

-- `_SKIP_PATH_CLEAR` clears path[0] alone; the rest is not read before it is written.
abbrev pub clear_path : SkipPath
clear_path = record { found = null; pred = λ _. null; succ = λ _. null }

-- How a walk ends: at a place, or with the jump to the function's retry label.
pub data Walk (A : Type 0) : Type 0 where
  arrived : A → Walk A
  retry : Walk A

module _ {E : Type 0} ⦃c : Callbacks E⦄ where
  unfoldable pub compare_nodes : Ptr → Ptr → Cmd E Ordering
  unfolding load_entry
  compare_nodes a b = do
    s ← get
    if a == b
        then pure Ordering.eq
        else if a == null
        then pure Ordering.lt
        else if b == null
        then pure Ordering.gt
        else if (a == s.head) || (b == s.tail)
        then pure Ordering.lt
        else if (a == s.tail) || (b == s.head)
        then pure Ordering.gt
        else (do x ← load_entry a; y ← load_entry b; pure (c.compare_entries x y))

  -- `succ`: the tail's is NULL, any other node's is read.
  abbrev pub load_succ : Ptr → ℕ → Cmd E Link
  load_succ p i = do s ← get; if p == s.tail then pure (clean null) else load_next p i

  -- The loop of `_skip_locate_` along level `i`, from `pred` and its successor `curr`. A marked
  -- successor means that `curr` is deleted: it is unlinked, and the walk goes on behind it.
  unfoldable pub seek : ℕ → Ptr → ℕ → Ptr → Ptr → Cmd E (Walk (Ptr × Ptr))
  seek zero n i pred curr = λ _. out_of_fuel
  seek (suc f) n i pred curr = do
    succ ← load_succ curr i
    elim succ [
      | marked p ↦ (do
        won ← cas_next pred i (clean curr) (clean p)
        if won then seek f n i pred p else pure retry)
      | clean p ↦ (do
        s ← get
        cmp ← compare_nodes curr n
        elim cmp [
          | Ordering.lt ↦ seek f n i curr (if p == null then s.tail else p)
          | _ ↦ pure (arrived (pred, curr))
        ])
    ]

  -- The levels below `lvl`, from the top one down.
  unfoldable pub descend : ℕ → Ptr → ℕ → Ptr → Ptr → SkipPath → Cmd E (Walk (Ptr × SkipPath))
  descend fuel n zero pred curr path = pure (arrived (curr, path))
  descend fuel n (suc i) pred curr path = do
    first ← load_next pred i
    elim first [
      | marked p ↦ pure retry
      | clean p ↦ (do
        w ← seek fuel n i pred p
        elim w [
          | retry ↦ pure retry
          | arrived (q, r) ↦ descend fuel n i q r (record_level path i q r)
        ])
    ]

  -- The test for a match at level 0, and the hit counts.
  unfoldable pub match_found : Ptr → ℕ → Ptr → SkipPath → Cmd E (ℕ × SkipPath)
  match_found n len curr path = do
    s ← get
    if curr == s.tail then pure (len, record path { found = null }) else do
      cmp ← compare_nodes curr n
      elim cmp [
        | Ordering.eq ↦ (do
          add_hit curr 0
          h ← load_height s.head
          add_hit s.head h
          pure (len, record path { found = curr }))
        | _ ↦ pure (len, record path { found = null })
      ]

  -- `_skip_locate_`: the first number of fuel bounds the retries, the second each level's walk.
  unfoldable pub locate : ℕ → ℕ → Ptr → SkipPath → Cmd E (ℕ × SkipPath)
  locate zero fuel n path = λ _. out_of_fuel
  locate (suc tries) fuel n path = if n == null then pure (0, path) else do
    s ← get
    len ← load_height s.head
    w ← descend fuel n len s.head null path
    elim w [
      | retry ↦ locate tries fuel n path
      | arrived (curr, path') ↦ match_found n len curr path'
    ]
