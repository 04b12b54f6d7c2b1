-- ===== src/Tests/Life.antt =====
-- The theorems on the life cycle, the reads and the snapshots of a list, at small lists of numbers.
use skiplist.Base.{
  Bool-cases, leb, ℕ, true, false, ◌≡◌, ◌≢◌, ◌⊎◌, inl, inr, refl, [], ◌∷◌, ◌==◌, All, NotIn, none,
  some, arith, if◌then◌else◌,
}
use skiplist.Store.{Ptr, null, clean, Store, ok, update}
use skiplist.Chain.{IsList}
use skiplist.Insert.{done, enomem}
use skiplist.Iterate.{
  length_of, is_empty, first_node, last_node, next_node, prev_node, prev_validated, to_array,
}
use skiplist.Iterate.Ends.{ends_lem, steps_lem}
use skiplist.Iterate.Array.{to_array_lem}
use skiplist.Iterate.Validated.{prev_validated_lem}
use skiplist.Life.{init, release}
use skiplist.Life.Init.{too_few, init_lem}
use skiplist.Life.Release.{Released, release_lem}
use skiplist.Snapshot.{release_snapshots}
use skiplist.Snapshot.Kept.{Keeps, release_snapshots_lem}
use skiplist.Examples.{numbers, two_nodes, two_nodes-IsList}

-- three blocks of memory to give
abbrev supplied : Store ℕ
supplied = record two_nodes { supply = 7 ∷ 8 ∷ 9 ∷ [] }

init_lem_example :
    ((too_few (7 ∷ 8 ∷ 9 ∷ []) ≡ true) × ((s' : Store ℕ) × (init 1 supplied ≡ ok enomem s')))
    ⊎ ((too_few (7 ∷ 8 ∷ 9 ∷ []) ≡ false)
        × ((s' : Store ℕ) × (init 1 supplied ≡ ok done s')
            × IsList s' []
            × (s'.prng ≡ 1)
            × (s'.has_dups ≡ false)))
init_lem_example =
    init_lem 1 supplied ((omega arith, (omega arith, tt)), ((omega arith, tt), (tt, tt)))

release_lem_example :
    (s' : Store ℕ) × (release 3 two_nodes ≡ ok tt s') × Released two_nodes (3 ∷ 4 ∷ []) s'
release_lem_example =
    release_lem two_nodes (3 ∷ 4 ∷ []) two_nodes-IsList 2 (omega arith) (omega arith)

ends_lem_example :
    (length_of two_nodes ≡ ok 2 two_nodes)
    × (is_empty two_nodes ≡ ok false two_nodes)
    × (first_node two_nodes ≡ ok (clean 3) two_nodes)
    × (last_node two_nodes ≡ ok 4 two_nodes)
ends_lem_example = ends_lem two_nodes (3 ∷ 4 ∷ []) two_nodes-IsList (omega arith)

steps_lem_example :
    (next_node 3 two_nodes ≡ ok (clean 4) two_nodes) × (prev_node 3 two_nodes ≡ ok 0 two_nodes)
steps_lem_example = steps_lem two_nodes [] 3 (4 ∷ []) two_nodes-IsList

abbrev supplied_block : ℕ
supplied_block = 7

to_array_lem_example :
    ((supplied_block ≡ null)
      × (to_array 3 supplied ≡ ok none (record supplied { supply = 8 ∷ 9 ∷ [] })))
    ⊎ ((supplied_block ≢ null)
        × (to_array 3 supplied
            ≡ ok (some (2 ∷ 3 ∷ 4 ∷ [])) (record supplied { supply = 8 ∷ 9 ∷ [] })))
to_array_lem_example =
    to_array_lem supplied (3 ∷ 4 ∷ []) 2 supplied_block (8 ∷ 9 ∷ []) two_nodes-IsList (omega arith)
      (omega arith) refl

prev_validated_lem_example :
    prev_validated 2 4 (record two_nodes { prev = update two_nodes.prev 4 1 }) ≡ ok 3 two_nodes
prev_validated_lem_example =
    prev_validated_lem two_nodes (3 ∷ []) 4 [] two_nodes-IsList 1 1 (omega arith)
      (inr (inr (inl refl)))

-- The copy of node 4 in node 5 is kept.
abbrev with_copy : Store ℕ
with_copy = record two_nodes {
  next = λ p i. if p == 5 then clean 0 else two_nodes.next p i;
  pres = 5;
  pres_era = 1;
  cur_era = 2;
}

with_copy-IsList : IsList with_copy (3 ∷ 4 ∷ [])
with_copy-IsList = record {
  ends = two_nodes-IsList.ends;
  inner = two_nodes-IsList.inner;
  distinct = two_nodes-IsList.distinct;
  links = λ i k. elim (Bool-cases (i == 0)) [
    | inl low ↦ let zero : i ≡ 0 = ground arith in rw zero (refl, (refl, refl))
    | inr high ↦ let none : leb i 0 ≡ false = ground arith in rw (none, high)
  ];
  back = two_nodes-IsList.back;
  low = two_nodes-IsList.low;
  sorted = two_nodes-IsList.sorted;
  strict = two_nodes-IsList.strict;
  counted = two_nodes-IsList.counted;
}

with_copy-Keeps : Keeps with_copy (3 ∷ 4 ∷ []) (5 ∷ [])
with_copy-Keeps = record {
  chained = (refl, refl);
  live = ((refl, omega arith), tt);
  distinct = (tt, tt);
  apart = ((omega arith, omega arith, (omega arith, (omega arith, tt))), tt);
}

release_snapshots_lem_example :
    (s' : Store ℕ) × (release_snapshots 2 with_copy ≡ ok tt s')
    × IsList s' (3 ∷ 4 ∷ [])
    × Keeps s' (3 ∷ 4 ∷ []) []
    × (s'.pres_era ≡ 0)
    × All (λ p. s'.live p ≡ false) (5 ∷ [])
    × ((q : Ptr) → NotIn q (5 ∷ []) → s'.live q ≡ with_copy.live q)
release_snapshots_lem_example =
    release_snapshots_lem with_copy (3 ∷ 4 ∷ []) (5 ∷ []) with_copy-IsList with_copy-Keeps 1
      (omega arith) (omega arith)
