-- ===== src/Remove/Back.antt =====
-- The backward pointers when a node is removed, and what becomes of the node.
use skiplist.Base.{
  ◌≡◌, ◌≢◌, ◌⊎◌, ap, sym, ◌∙◌, List, [], ◌∷◌, ◌++◌, arith, head_or, true, false, Bool, ==_self,
  ==_ne, if◌then◌else◌, Bool-cases, inl, inr,
}
use skiplist.Store.{Ptr, marked, unmark, Callbacks, Store, ok, update}
use skiplist.Store.Access.{load_next-ok, load_prev-ok, cas_prev-won}
use skiplist.Chain.{IsInner}
use skiplist.Chain.Levels.{BackLinks}
use skiplist.Chain.Splice.{BackLinks-at}
use skiplist.Node.{free_node}
use skiplist.Remove.{unlink_back, dispose}

pub BackLinks-behind :
    (prev : Ptr → Ptr) (tail p n : Ptr) (xs ys : List Ptr)
    → BackLinks prev tail p (xs ++ n ∷ ys)
    → prev (head_or tail ys) ≡ n
BackLinks-behind prev tail p n [] ys links = BackLinks-at prev tail n [] ys links.1
BackLinks-behind prev tail p n (x ∷ xs) ys links = BackLinks-behind prev tail x n xs ys links.1

module _ {E : Type 0} ⦃c : Callbacks E⦄ (s : Store E) (n : Ptr) (live : s.live n ≡ true) where
  -- The successor's pointer goes to the node's predecessor.
  pub unlink_back_lem :
      (b : Ptr)
      → s.live s.tail ≡ true
      → s.next n 0 ≡ marked b
      → (b ≡ s.tail) ⊎ IsInner s b
      → s.prev b ≡ n
      → unlink_back n s ≡ ok tt (record s { prev = update s.prev b (s.prev n) })
  unfolding unlink_back
  unlink_back_lem b tail_live own (inl e) back =
      let first : unmark (s.next n 0) ≡ s.tail = ap unmark own ∙ e in
      let back' : s.prev s.tail ≡ n = ap s.prev (sym e) ∙ back in
      rw
        (
          load_next-ok s n live 0 (omega arith),
          first,
          ==_self s.tail,
          load_prev-ok s n live,
          cas_prev-won s s.tail tail_live n (s.prev n) back',
        )
        (ap (λ p. ok tt (record s { prev = update s.prev p (s.prev n) })) (sym e))
  unlink_back_lem b tail_live own (inr i) back = rw (
    load_next-ok s n live 0 (omega arith),
    own,
    ==_ne i.ne_tail,
    ==_ne i.ne_null,
    load_prev-ok s n live,
    cas_prev-won s b i.live n (s.prev n) back,
  )

  -- the store without the node: it is retired, or freed
  abbrev pub live_without : Ptr → Bool
  live_without = if s.ebr then s.live else update s.live n false

  abbrev pub disposed : Store E
  disposed = record s { live = live_without; retired = if s.ebr then n ∷ s.retired else s.retired }

  pub dispose_lem : dispose n s ≡ ok tt disposed
  unfolding dispose free_node
  dispose_lem = elim (Bool-cases s.ebr) [ inl on ↦ rw on | inr off ↦ rw (off, live) ]

  pub live_without_other : (q : Ptr) → q ≢ n → live_without q ≡ s.live q
  live_without_other q d = ground arith
