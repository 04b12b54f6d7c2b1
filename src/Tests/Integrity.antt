-- ===== src/Tests/Integrity.antt =====
-- The integrity check of a list of two nodes, and of two lists that are none.
use skiplist.Base.{ℕ, ◌≡◌, refl, arith, [], ◌∷◌, ◌==◌, if◌then◌else◌}
use skiplist.Store.{Store, ok, load_next, load_prev, load_height}
use skiplist.Search.{compare_nodes}
use skiplist.Integrity.{
  integrity_check, head_above, head_levels, reach_tail, check_chains, node_above, node_levels,
  check_order, check_node, check_nodes,
}
use skiplist.Integrity.Sound.{integrity_check_lem}
use skiplist.Examples.{numbers, numbers-IsOrder, two_nodes, two_nodes-IsList}

integrity_check_lem_example : integrity_check 0 two_nodes ≡ ok 0 two_nodes
integrity_check_lem_example =
    integrity_check_lem numbers-IsOrder two_nodes (3 ∷ 4 ∷ []) two_nodes-IsList refl (omega arith) 0

abbrev miscounted : Store ℕ
miscounted = record two_nodes { length = 3 }

integrity_check-miscounted : integrity_check 0 miscounted ≡ ok 1 miscounted
unfolding integrity_check head_above head_levels reach_tail check_chains node_above node_levels
    check_order check_node check_nodes load_next load_prev load_height compare_nodes
integrity_check-miscounted = refl

abbrev unsorted : Store ℕ
unsorted = record two_nodes { entry = λ p. if p == 3 then 9 else 5 }

-- Each of the two nodes is wrong next to the other, in two comparisons.
integrity_check-unsorted : integrity_check 0 unsorted ≡ ok 4 unsorted
unfolding integrity_check head_above head_levels reach_tail check_chains node_above node_levels
    check_order check_node check_nodes load_next load_prev load_height compare_nodes
integrity_check-unsorted = refl
