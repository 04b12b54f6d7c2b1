-- ===== src/Iterate/Ends.antt =====
-- What the reads of a list give: its length, its first and last node, the neighbours of a node.
use skiplist.Base.{
  Bool-cases, inl, inr, ◌<◌, ◌≡◌, ap, List, [], ◌∷◌, ◌++◌, arith, All-left, All-right, length,
  last_or, head_or, ◌==◌, ==_ne, if◌then◌else◌,
}
use skiplist.Store.{Ptr, null, clean, Callbacks, size_mod, Store, ok}
use skiplist.Store.Access.{load_next-ok, load_prev-ok}
use skiplist.Chain.{IsInner, IsList}
use skiplist.Chain.Edges.{
  head_or-null, last_or-null, length-short, BackLinks-tail, Links-zero, Links-behind, prev-head,
}
use skiplist.Chain.Levels.{Links-first}
use skiplist.Iterate.{length_of, is_empty, first_node, last_node, next_node, prev_node}

clean_or_null :
    (p t : Ptr) → (if p == t then clean null else clean p) ≡ clean (if p == t then null else p)
clean_or_null p t = elim (Bool-cases (p == t)) [ inl e ↦ rw e | inr e ↦ rw e ]

module _ {E : Type 0} ⦃c : Callbacks E⦄ (s : Store E) where
  -- On a well-formed list of fewer than 2 ^ 64 nodes the length is their number, the list is empty
  -- when there is none, and skip_head_ and skip_tail_ give the first and the last, or NULL.
  pub ends_lem :
      (zs : List Ptr)
      → IsList s zs
      → length zs < size_mod
      → (length_of s ≡ ok (length zs) s)
        × (is_empty s ≡ ok (length zs == 0) s)
        × (first_node s ≡ ok (clean (head_or null zs)) s)
        × (last_node s ≡ ok (last_or null zs) s)
  unfolding length_of is_empty first_node last_node
  ends_lem zs is short =
      let counted = length-short s zs is short in
      (
        ap (λ n. ok n s) counted,
        ap (λ n. ok (n == 0) s) counted,
        rw (
          load_next-ok s s.head is.ends.head_live 0 (omega arith),
          Links-first s.next s.tail 0 s.head zs (Links-zero s [] zs is),
          clean_or_null (head_or s.tail zs) s.tail,
          head_or-null s zs is.inner,
        ),
        rw (
          load_prev-ok s s.tail is.ends.tail_live,
          BackLinks-tail s.prev s.tail s.head zs is.back,
          last_or-null s zs is.inner,
        ),
      )

  -- From a node of a well-formed list skip_next_node_ gives the one behind it, and skip_prev_node_ the
  -- one before it, or NULL at the end.
  pub steps_lem :
      (xs : List Ptr) (n : Ptr) (ys : List Ptr)
      → IsList s (xs ++ n ∷ ys)
      → (next_node n s ≡ ok (clean (head_or null ys)) s) × (prev_node n s ≡ ok (last_or null xs) s)
  unfolding next_node prev_node
  steps_lem xs n ys is =
      let inner = All-right (IsInner s) xs (n ∷ ys) is.inner in
      (
        rw (
          ==_ne inner.0.ne_null,
          load_next-ok s n inner.0.live 0 (omega arith),
          Links-first s.next s.tail 0 n ys (Links-behind s xs (n ∷ ys) is).1,
          clean_or_null (head_or s.tail ys) s.tail,
          head_or-null s ys inner.1,
        ),
        rw (
          ==_ne inner.0.ne_null,
          load_prev-ok s n inner.0.live,
          prev-head s xs (n ∷ ys) is,
          last_or-null s xs (All-left (IsInner s) xs (n ∷ ys) is.inner),
        ),
      )
