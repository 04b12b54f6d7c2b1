-- ===== src/Iterate.antt =====
-- Reading a list of include/sl.h: its length, its ends, the steps of a cursor, and the array of its
-- nodes.
pub mod Ends
pub mod Array
pub mod Validated
use skiplist.Base.{
  ℕ, zero, suc, ◌+◌, ◌%◌, List, [], ◌∷◌, Bool, true, false, ◌||◌, leb, Option, none, some, ◌==◌,
  if◌then◌else◌,
}
use skiplist.Store.{
  Ptr, Link, null, clean, unmark, link_eq, Callbacks, fault, size_mod, out_of_fuel, Cmd, pure,
  ◌>>=◌, ◌>>◌, get, update, load_next, load_prev, cas_prev,
}
use skiplist.Node.{calloc}

-- the words of a block that `calloc` has cleared
abbrev pub cleared : ℕ → List ℕ
cleared zero = []
cleared (suc count) = null ∷ cleared count

-- The block with the word `i` set; nothing when the block is too short.
abbrev pub set_word : ℕ → ℕ → List ℕ → Option (List ℕ)
set_word i v [] = none
set_word zero v (w ∷ words) = some (v ∷ words)
set_word (suc i) v (w ∷ words) = elim (set_word i v words) [
  | none ↦ none
  | some rest ↦ some (w ∷ rest)
]

module _ {E : Type 0} ⦃c : Callbacks E⦄ where
  -- skip_length_
  unfoldable pub length_of : Cmd E ℕ
  length_of = do s ← get; pure s.length

  -- skip_is_empty_
  unfoldable pub is_empty : Cmd E Bool
  is_empty = do s ← get; pure (s.length == 0)

  -- skip_head_
  unfoldable pub first_node : Cmd E Link
  first_node = do
    s ← get
    first ← load_next s.head 0
    pure (if link_eq first (clean s.tail) then clean null else first)

  -- skip_tail_
  unfoldable pub last_node : Cmd E Ptr
  last_node = do s ← get; last ← load_prev s.tail; pure (if last == s.head then null else last)

  -- skip_next_node_
  unfoldable pub next_node : Ptr → Cmd E Link
  next_node n = if n == null then pure (clean null) else do
    next ← load_next n 0
    s ← get
    pure (if link_eq next (clean s.tail) then clean null else next)

  -- skip_prev_node_
  unfoldable pub prev_node : Ptr → Cmd E Ptr
  prev_node n =
      if n == null
      then pure null
      else do prev ← load_prev n; s ← get; pure (if prev == s.head then null else prev)

  -- The scan of skip_prev_validated_ from a node on; the head when it does not meet `node`.
  unfoldable pub scan_prev : ℕ → Ptr → Ptr → Cmd E Ptr
  scan_prev zero node scan = λ _. out_of_fuel
  scan_prev (suc f) node scan = do
    l ← load_next scan 0
    s ← get
    if (unmark l == s.tail) || (unmark l == null)
        then pure s.head
        else if unmark l == node
        then pure scan
        else scan_prev f node (unmark l)

  -- Whether the node's hint `prev` leads to it.
  unfoldable pub leads_to : Ptr → Ptr → Cmd E Bool
  leads_to prev node = do l ← load_next prev 0; pure (link_eq l (clean node))

  -- skip_prev_validated_
  unfoldable pub prev_validated : ℕ → Ptr → Cmd E Ptr
  prev_validated fuel node = if node == null then pure null else do
    s ← get
    if node == s.head then pure null else do
      prev ← load_prev node
      first ← if prev == s.head then leads_to s.head node else pure false
      if first then pure null else do
        valid ← if (prev == null) || (prev == s.tail) then pure false else leads_to prev node
        if valid then pure (if prev == s.head then null else prev) else do
          found_prev ← scan_prev fuel node s.head
          _ ← cas_prev node prev found_prev
          pure (if found_prev == s.head then null else found_prev)

  -- A write into the block that `calloc` has returned; one outside of it is a fault.
  unfoldable pub store_word : ℕ → ℕ → List ℕ → Cmd E (List ℕ)
  store_word i v block = elim (set_word i v block) [ none ↦ λ _. fault | some words ↦ pure words ]

  -- The loop of skip_to_array_ behind `node`, the `nth` one. `nodes` is one word into the block.
  unfoldable pub fill_array : ℕ → ℕ → ℕ → Ptr → List ℕ → Cmd E (List ℕ)
  fill_array zero len nth node block = λ _. out_of_fuel
  fill_array (suc f) len nth node block = do
    l ← load_next node 0
    s ← get
    if unmark l == s.tail then pure block else if leb len nth then pure block else do
      words ← store_word (nth + 1) (unmark l) block
      fill_array f len (nth + 1) (unmark l) words

  -- skip_to_array_: the words of its block, which `calloc` has cleared, or none when there is no memory
  -- for it. The pointer that it returns is that to the second word.
  unfoldable pub to_array : ℕ → Cmd E (Option (List ℕ))
  to_array fuel = do
    len ← length_of
    p ← calloc
    if p == null then pure none else do
      s ← get
      counted ← store_word 0 len (cleared ((len + 1) % size_mod))
      block ← fill_array fuel len 0 s.head counted
      pure (some block)
