-- ===== src/Unlink.antt =====
-- `_skip_unlink_fully_` of include/sl.h: a marked node is taken out of the list at every level.
pub mod Around
pub mod Level
pub mod Sweep
use Prim.Native.Nat.{Ordering}
use skiplist.Base.{ℕ, zero, suc, ◌+◌, Bool, true, false, not, ◌||◌, ltb, ◌==◌, if◌then◌else◌}
use skiplist.Store.{
  Ptr, null, clean, marked, unmark, Callbacks, Cmd, pure, ◌>>=◌, ◌>>◌, get, out_of_fuel, load_next,
  cas_next, load_height,
}
use skiplist.Search.{compare_nodes}

module _ {E : Type 0} ⦃c : Callbacks E⦄ where
  -- The sweep along one level, from `pred` and the node behind it: whether to sweep again.
  unfoldable pub sweep_level : ℕ → Ptr → ℕ → Ptr → Ptr → Cmd E Bool
  sweep_level zero node lvl pred curr = λ _. out_of_fuel
  sweep_level (suc f) node lvl pred curr = do
    s ← get
    if (curr == s.tail) || (curr == null)
        then pure false
        else if curr == node
        then (do
          nsucc ← load_next node lvl
          won ← cas_next pred lvl (clean node) (clean (unmark nsucc))
          pure (not won))
        else do
          csucc ← load_next curr lvl
          elim csucc [
            | marked q ↦ (do
              won ← cas_next pred lvl (clean curr) (clean q)
              elim won [ true ↦ sweep_level f node lvl pred q | false ↦ pure true ])
            | clean q ↦ (do
              cmp ← compare_nodes curr node
              elim cmp [ Ordering.gt ↦ pure false | _ ↦ sweep_level f node lvl curr q ])
          ]

  -- The levels below `count`, from the top one down.
  unfoldable pub sweep : ℕ → Ptr → ℕ → Cmd E Bool
  sweep f node zero = pure false
  sweep f node (suc lvl) = do
    s ← get
    first ← load_next s.head lvl
    retry ← sweep_level f node lvl s.head (unmark first)
    rest ← sweep f node lvl
    pure (retry || rest)

  -- The scan of one level for the node, by pointer.
  unfoldable pub reaches : ℕ → Ptr → ℕ → Ptr → Cmd E Bool
  reaches zero node lvl curr = λ _. out_of_fuel
  reaches (suc f) node lvl curr = do
    s ← get
    if (curr == s.tail) || (curr == null)
        then pure false
        else if curr == node
        then pure true
        else do
          cmp ← compare_nodes curr node
          elim cmp [
            | Ordering.gt ↦ pure false
            | _ ↦ (do l ← load_next curr lvl; reaches f node lvl (unmark l))
          ]

  -- The verification, down to the first level where the node is found.
  unfoldable pub still_linked : ℕ → Ptr → ℕ → Cmd E Bool
  still_linked f node zero = pure false
  still_linked f node (suc lvl) = do
    s ← get
    first ← load_next s.head lvl
    found ← reaches f node lvl (unmark first)
    elim found [ true ↦ pure true | false ↦ still_linked f node lvl ]

  -- `tries` bounds the sweeps, `f` the walks.
  unfoldable pub unlink_fully_from : ℕ → ℕ → Ptr → ℕ → Cmd E (Unit {0})
  unlink_fully_from zero f node nh = λ _. out_of_fuel
  unlink_fully_from (suc tries) f node nh = do
    s ← get
    head_height ← load_height s.head
    let hh = if ltb head_height nh then nh else head_height
    retry ← sweep f node (hh + 1)
    found ← if retry then pure true else still_linked f node (hh + 1)
    elim found [ true ↦ unlink_fully_from tries f node nh | false ↦ pure tt ]

  unfoldable pub unlink_fully : ℕ → ℕ → Ptr → Cmd E (Unit {0})
  unlink_fully tries f node = do nh ← load_height node; unlink_fully_from tries f node nh
