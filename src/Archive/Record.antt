-- ===== src/Archive/Record.antt =====
-- What becomes of one record of an archive.
use skiplist.Base.{
  ℕ, suc, ◌≤◌, ◌≡◌, ◌≢◌, ◌⊎◌, refl, inl, inr, ◌==◌, List, [], ◌∷◌, length, Bool-cases, ==_iff,
  ==_ne, ==_self, arith,
}
use skiplist.Store.{Ptr, Callbacks, Store, ok, load_entry}
use skiplist.Chain.{IsOrder}
use skiplist.Insert.{done, eexist, enomem, callback}
use skiplist.Node.{alloc_node, free_node}
use skiplist.Life.Init.{alloc_node_lem}
use skiplist.Life.Node.{with_node, taken_back}
use skiplist.Session.{entries, IsApart, IsReady}
use skiplist.Session.Place.{Spent, Entered, Kept, place_lem, taken_back-IsReady, same_entries}
use skiplist.Archive.Files.{Blocks, load_record}

module _ {E : Type 0} ⦃c : Callbacks E⦄ (blocks : Blocks E) (order : IsOrder c) (s : Store E)
    (zs : List Ptr) (ready : IsReady s zs) (buf : List ℕ) (tries fuel : ℕ)
    (enough : length zs ≤ fuel) where
  -- what the user's block makes of the record
  abbrev pub answer : ℕ
  answer = (blocks.read_entry buf c.blank_entry).0

  abbrev pub read : E
  read = (blocks.read_entry buf c.blank_entry).1

  abbrev pub Loaded : Ptr → List Ptr → Type 0
  Loaded n rest =
      ((answer ≢ 0)
        × ((s' : Store E) × (load_record blocks (suc tries) (suc fuel) buf s
              ≡ ok (callback answer) s')
            × IsReady s' zs
            × (entries s' zs ≡ entries s zs)
            × Spent s rest s'))
      ⊎ ((answer ≡ 0)
          × ((s' : Store E) × (load_record blocks (suc tries) (suc fuel) buf s ≡ ok done s')
              × Entered s zs rest read s'))
      ⊎ ((answer ≡ 0)
          × ((s' : Store E) × (load_record blocks (suc tries) (suc fuel) buf s ≡ ok eexist s')
              × Kept s zs rest read s'))

  loaded : (n : Ptr) (rest : List Ptr) → s.supply ≡ n ∷ rest → Loaded n rest
  unfolding load_record load_entry free_node
  loaded n rest given =
      let apart : IsApart s zs n = (rw given at ready.apart).0 in
      let got = alloc_node_lem s n rest given apart.0 in
      elim (Bool-cases (answer == 0)) [
        | inl good ↦ elim (place_lem order s zs ready n rest given read tries fuel enough) [
          | inl (s', run, placed) ↦ inr (
              inl (
                (==_iff answer 0).0 good,
                (s', rw (got, ==_ne apart.0, ==_self n, good, run), placed),
              ))
          | inr (s', t, run, freed, was) ↦ inr (
              inr (
                (==_iff answer 0).0 good,
                (t, rw (got, ==_ne apart.0, ==_self n, good, run, freed), was),
              ))
        ]
        | inr bad ↦ inl (
          (ground arith),
          (
            taken_back s n rest read (with_node s n rest read).hits,
            rw (got, ==_ne apart.0, ==_self n, bad, ==_self n),
            taken_back-IsReady order s zs ready n rest given read (with_node s n rest read).hits,
            same_entries order s zs ready n rest given read,
            (refl, refl, refl),
          ),
        )
      ]

  -- A record that has been read, on a list with fresh memory: without any it returns ENOMEM. Else the
  -- user's block refuses it and its errno is returned, or its entry has its place in the list, or EEXIST is
  -- returned as an equal entry is there; a refused node is freed, and the list as it was.
  pub load_record_lem :
      ((s.supply ≡ []) × (load_record blocks (suc tries) (suc fuel) buf s ≡ ok enomem s))
      ⊎ ((n : Ptr) × (rest : List Ptr) × (s.supply ≡ n ∷ rest) × Loaded n rest)
  unfolding load_record alloc_node
  load_record_lem = go s.supply refl
    where
      go :
          (l : List Ptr)
          → s.supply ≡ l
          → ((s.supply ≡ []) × (load_record blocks (suc tries) (suc fuel) buf s ≡ ok enomem s))
            ⊎ ((n : Ptr) × (rest : List Ptr) × (s.supply ≡ n ∷ rest) × Loaded n rest)
      go [] e = inl (e, rw e)
      go (n ∷ rest) e = inr (n, rest, e, loaded n rest e)
