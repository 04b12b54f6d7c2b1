-- ===== src/Iterate/Array.antt =====
-- The array of the nodes that skip_to_array_ gives.
use native.Mathlib.Nat.{mod-eq_of_lt}
use skiplist.Base.{
  ℕ, zero, suc, ◌+◌, ◌%◌, ◌≤◌, ◌<◌, ◌≡◌, ◌≢◌, ◌⊎◌, inl, inr, Bool-cases, sym, ap, ◌∙◌, refl, List,
  [], ◌∷◌, ◌++◌, true, false, arith, All, length, length-append, append_assoc, leb, ◌==◌, ==_ne,
  ==_self, ==_iff, none, some,
}
use skiplist.Store.{Ptr, null, Callbacks, size_mod, Store, ok}
use skiplist.Store.Access.{load_next-ok}
use skiplist.Chain.{IsInner, IsList}
use skiplist.Chain.Levels.{Links}
use skiplist.Chain.Edges.{length-short, Links-zero}
use skiplist.Iterate.{cleared, set_word, store_word, length_of, fill_array, to_array}

-- A write to the first word behind those that are set.
set_word-append :
    (front words : List ℕ) (w v : ℕ)
    → set_word (length front) v (front ++ w ∷ words) ≡ some (front ++ v ∷ words)
set_word-append [] words w v = refl
set_word-append (x ∷ front) words w v = rw (set_word-append front words w v)

module _ {E : Type 0} ⦃c : Callbacks E⦄ (s : Store E) where
  store_word-ok :
      (i v : ℕ) (block words : List ℕ)
      → set_word i v block ≡ some words
      → store_word i v block s ≡ ok words s
  unfolding store_word
  store_word-ok i v block words e = rw (store_word, e)

  -- The words `front` are set, and those for the nodes `zs` are left.
  fill_array_lem :
      (zs : List Ptr) (front : List ℕ) (fuel len nth : ℕ) (p : Ptr)
      → length zs ≤ fuel
      → nth + length zs ≤ len
      → length front ≡ nth + 1
      → s.live p ≡ true
      → All (IsInner s) zs
      → Links s.next s.tail 0 p zs
      → fill_array (suc fuel) len nth p (front ++ cleared (length zs)) s ≡ ok (front ++ zs) s
  unfolding fill_array
  fill_array_lem [] front fuel len nth p enough room at_nth live inner links =
      rw (load_next-ok s p live 0 (omega arith), links, ==_self s.tail)
  fill_array_lem (z ∷ zs) front zero len nth p enough room at_nth live inner links =
      absurd (omega (arith, enough))
  fill_array_lem (z ∷ zs) front (suc fuel) len nth p enough room at_nth live inner links =
      let more : leb len nth ≡ false = ground arith in
      let rest = cleared (length zs) in
      let written : store_word (nth + 1) z (front ++ null ∷ rest) s
          ≡ ok ((front ++ z ∷ []) ++ rest) s =
        store_word-ok (nth + 1) z (front ++ null ∷ rest) ((front ++ z ∷ []) ++ rest) (
          ap (λ i. set_word i z (front ++ null ∷ rest)) (sym at_nth)
          ∙ set_word-append front rest null z
          ∙ ap (λ l. some l) (sym (append_assoc front (z ∷ []) rest))) in
      rw (load_next-ok s p live 0 (omega arith), links.0, ==_ne inner.0.ne_tail, more, written)
        (fill_array_lem zs (front ++ z ∷ []) fuel len (nth + 1) z (omega arith) (omega arith)
            (omega (arith, at_nth, length-append front (z ∷ []))) inner.0.live inner.1 links.1
          ∙ ap (λ l. ok l s) (append_assoc front (z ∷ []) zs))

module _ {E : Type 0} ⦃c : Callbacks E⦄ (s : Store E) where
  -- On a well-formed list of fewer than 2 ^ 64 - 1 nodes, with fuel for all, skip_to_array_ gives NULL when
  -- the allocator does. Else every write is inside of its block, whose words are then the number of the nodes
  -- and the nodes in the order of the list, with no word behind the last node.
  pub to_array_lem :
      (zs : List Ptr) (fuel : ℕ) (block : Ptr) (rest : List Ptr)
      → IsList s zs
      → length zs ≤ fuel
      → length zs + 1 < size_mod
      → s.supply ≡ block ∷ rest
      → ((block ≡ null) × (to_array (suc fuel) s ≡ ok none (record s { supply = rest })))
        ⊎ ((block ≢ null)
            × (to_array (suc fuel) s ≡ ok (some (length zs ∷ zs)) (record s { supply = rest })))
  unfolding to_array length_of store_word
  to_array_lem zs fuel block rest is enough short given = elim (Bool-cases (block == null)) [
    | inl gone ↦ inl ((==_iff block null).0 gone, rw (given, gone))
    | inr here ↦
        let counted = length-short s zs is (omega (arith, short)) in
        let t = record s { supply = rest } in
        let words : (s.length + 1) % size_mod ≡ suc (length zs) =
          ap (λ n. (n + 1) % size_mod) counted ∙ mod-eq_of_lt short ∙ omega arith in
        let run : fill_array (suc fuel) s.length 0 s.head (s.length ∷ cleared (length zs)) t
            ≡ ok (s.length ∷ zs) t =
          fill_array_lem t zs (s.length ∷ []) fuel s.length 0 s.head enough (omega (arith, counted))
            refl is.ends.head_live is.inner (Links-zero s [] zs is) in
        inr (ground arith, rw (given, here, words, run) (ap (λ n. ok (some (n ∷ zs)) t) counted))
  ]
