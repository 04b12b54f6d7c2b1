-- ===== src/Tests/Access.antt =====
-- The theorems on the access by key, at a list of pairs.
use skiplist.Base.{ℕ, refl, [], ◌∷◌, arith}
use skiplist.Store.{Store}
use skiplist.Chain.{IsList}
use skiplist.Access.Put.{prepared}
use skiplist.Access.Get.{Asked, Answered, get_lem}
use skiplist.Examples.Pairs.{pairs, pairs-IsOrder, pair_fields, two_pairs, two_pairs-IsList}

get_lem_example :
    (s' : Store (ℕ × ℕ)) × IsList s' (3 ∷ 4 ∷ [])
    × Asked pair_fields pairs-IsOrder two_pairs
        (3 ∷ 4 ∷ [])
        two_pairs-IsList
        6
        (omega arith)
        (omega arith)
        (omega arith)
        (omega arith, (omega arith, tt))
        9
        0
        2
        (omega arith)
        s'
    × Answered pair_fields pairs-IsOrder two_pairs
        (3 ∷ 4 ∷ [])
        two_pairs-IsList
        6
        (omega arith)
        (omega arith)
        (omega arith)
        (omega arith, (omega arith, tt))
        9
        0
        2
        (omega arith)
        s'
get_lem_example =
    get_lem pair_fields pairs-IsOrder two_pairs (3 ∷ 4 ∷ []) two_pairs-IsList 6 (omega arith)
      (omega arith) (omega arith) (omega arith, (omega arith, tt)) 9 0 2 (omega arith)

-- memory for one node
abbrev supplied_pairs : Store (ℕ × ℕ)
supplied_pairs = record two_pairs { supply = 7 ∷ [] }

-- the list of pairs with the node of key 7 and value 8, before its insertion
abbrev with_seven : Store (ℕ × ℕ)
with_seven =
    prepared pair_fields pairs-IsOrder supplied_pairs (3 ∷ 4 ∷ []) two_pairs-IsList 7 [] refl
      (omega arith) (omega arith) (omega arith) (omega arith, (omega arith, tt))
      (omega arith, omega arith) 7 8 0 2 (omega arith)
