-- ===== src/Tests.antt =====
-- Each theorem with conditions, at a small list of numbers.
pub mod Access
pub mod Integrity
pub mod Life
pub mod Archive
pub mod Pool
pub mod Session
use Prim.Native.Nat.{Ordering}
use skiplist.Base.{ℕ, ◌+◌, ◌≤◌, true, false, ◌≡◌, ◌≢◌, ◌⊎◌, refl, [], ◌∷◌, All, arith}
use skiplist.Store.{Store, ok, out_of_fuel}
use skiplist.Search.{SkipPath, clear_path, locate}
use skiplist.Search.Locate.{located, located_path, locate_lem}
use skiplist.Lookup.{lookup, lookup_with_splay}
use skiplist.Lookup.Find.{touched, lookup_lem, lookup_with_splay_lem}
use skiplist.Lookup.Agree.{lookup-locate}
use skiplist.Position.{Op, position}
use skiplist.Position.Place.{position_lem}
use skiplist.Remove.{remove_node}
use skiplist.Remove.Correct.{Removed, remove_lem}
use skiplist.Chain.Place.{Cut}
use skiplist.Search.Match.{NoEqual}
use skiplist.Update.{update_node}
use skiplist.Update.Correct.{Updated, update_lem}
use skiplist.Examples.Pairs.{pairs, pairs-IsOrder, two_pairs, two_pairs-IsList, inner_pair}
use skiplist.Random.{scramble, xorshift32, toss}
use skiplist.Random.Toss.{IsSeed, Tossed, xorshift32_lem, xorshift32_stuck, toss-Tossed}
use skiplist.Insert.{done, eexist, enoent, insert, insert_dup}
use skiplist.Insert.Correct.{Inserted, Refused, insert_lem, insert_dup_lem}
use skiplist.Reclaim.Safety.{freed-unheld, pinned-current}
use skiplist.Archive.{read_le32, write_le32, read_le64, write_le64}
use skiplist.Archive.Words.{read_le32-write_le32, read_le64-write_le64}
use skiplist.Examples.Run.{freeing_run}
use skiplist.Examples.{numbers, numbers-IsOrder, two_nodes, two_nodes-IsList, inner}

insert_lem_example :
    (s' : Store ℕ) × (((insert 1 3 5 two_nodes ≡ ok done s')
        × Inserted two_nodes (3 ∷ 4 ∷ []) 5 s'
        × All
            (λ y. numbers.compare_entries (two_nodes.entry y) (two_nodes.entry 5) ≢ Ordering.eq)
            (3 ∷ 4 ∷ []))
      ⊎ ((insert 1 3 5 two_nodes ≡ ok eexist s') × Refused two_nodes (3 ∷ 4 ∷ []) 5 s'))
insert_lem_example =
    insert_lem numbers-IsOrder two_nodes (3 ∷ 4 ∷ []) two_nodes-IsList 5 (inner 5 (omega arith))
      (omega arith, (omega arith, tt)) (omega arith, omega arith) 0 2 (omega arith)

insert_dup_lem_example :
    (s' : Store ℕ) × (insert_dup 1 3 6 two_nodes ≡ ok done s')
    × Inserted two_nodes (3 ∷ 4 ∷ []) 6 s'
insert_dup_lem_example =
    insert_dup_lem numbers-IsOrder two_nodes (3 ∷ 4 ∷ []) two_nodes-IsList 6 (inner 6 (omega arith))
      (omega arith, (omega arith, tt)) (omega arith, omega arith) 0 2 (omega arith)

at_five : Cut two_nodes (3 ∷ []) (4 ∷ []) 5
at_five = record { before = (refl, tt); rest = (λ e. cc, tt) }

locate_lem_example :
    locate 1 2 5 clear_path two_nodes
    ≡ ok (1, located_path two_nodes (3 ∷ []) (4 ∷ []) 5 clear_path) (located two_nodes (4 ∷ []) 5)
locate_lem_example =
    locate_lem numbers-IsOrder two_nodes (3 ∷ []) (4 ∷ []) two_nodes-IsList 5
      (inner 5 (omega arith)) at_five 2 (omega arith) 0 clear_path

at_six : Cut two_nodes (3 ∷ []) (4 ∷ []) 6
at_six = record { before = (refl, tt); rest = (λ e. cc, tt) }

lookup_lem_example :
    (path' : SkipPath) × (lookup 1 2 6 clear_path two_nodes ≡ ok (4, path') two_nodes)
    × (path'.found ≡ 4)
lookup_lem_example =
    lookup_lem numbers-IsOrder two_nodes (3 ∷ []) (4 ∷ []) two_nodes-IsList 6
      (inner 6 (omega arith)) at_six 2 (omega arith) 0 clear_path

lookup-locate_example :
    (len : ℕ) × (p : SkipPath) × (s' : Store ℕ) × (path' : SkipPath) × (locate 1 3 6 clear_path
        two_nodes
      ≡ ok (len, p) s')
    × (lookup 1 3 6 clear_path two_nodes ≡ ok (p.found, path') two_nodes)
    × (path'.found ≡ p.found)
    × (s' ≡ record two_nodes { hits = s'.hits })
lookup-locate_example =
    lookup-locate numbers-IsOrder two_nodes (3 ∷ 4 ∷ []) two_nodes-IsList 6 (inner 6 (omega arith))
      0 2 (omega arith) clear_path

lookup_with_splay_lem_example :
    (path' : SkipPath) × (lookup_with_splay 1 2 6 clear_path two_nodes
      ≡ ok
          (4, path')
          (touched numbers-IsOrder two_nodes
            (3 ∷ [])
            (4 ∷ [])
            two_nodes-IsList
            6
            (inner 6 (omega arith))
            at_six
            2
            (omega arith)))
lookup_with_splay_lem_example =
    lookup_with_splay_lem numbers-IsOrder two_nodes (3 ∷ []) (4 ∷ []) two_nodes-IsList 6
      (inner 6 (omega arith)) at_six 2 (omega arith) 0 clear_path

position_lem_example :
    (s' : Store ℕ) × (position 1 3 Op.gt 6 two_nodes ≡ ok 0 s')
    × (s' ≡ record two_nodes { hits = s'.hits; splay_counter = s'.splay_counter })
position_lem_example =
    position_lem numbers-IsOrder two_nodes (3 ∷ []) (4 ∷ []) [] two_nodes-IsList 6
      (inner 6 (omega arith)) (record { before = (refl, tt); equal = (refl, tt); behind = tt }) 0 2
      (omega arith) Op.gt

remove_lem_example :
    ((remove_node 1 3 6 two_nodes ≡ ok enoent two_nodes) × NoEqual two_nodes 6 (3 ∷ 4 ∷ []))
    ⊎ ((s' : Store ℕ) × (remove_node 1 3 6 two_nodes ≡ ok done s')
        × Removed two_nodes (3 ∷ 4 ∷ []) 6 s')
remove_lem_example =
    remove_lem numbers-IsOrder two_nodes (3 ∷ 4 ∷ []) two_nodes-IsList 6 (inner 6 (omega arith))
      refl 0 1 (omega arith)

update_lem_example :
    ((update_node 1 3 6 8 two_pairs ≡ ok enoent two_pairs) × NoEqual two_pairs 6 (3 ∷ 4 ∷ []))
    ⊎ ((s' : Store (ℕ × ℕ)) × (update_node 1 3 6 8 two_pairs ≡ ok done s')
        × Updated two_pairs (3 ∷ 4 ∷ []) 6 8 s')
update_lem_example =
    update_lem pairs-IsOrder two_pairs (3 ∷ 4 ∷ []) two_pairs-IsList 6 (inner_pair 6 (omega arith))
      refl 8 (λ e. (λ d. refl, λ d. refl)) 0 2 (omega arith)

xorshift32_lem_example :
    (xorshift32 1 two_nodes ≡ ok (scramble 1) (record two_nodes { prng = scramble 1 }))
    × IsSeed (scramble 1)
xorshift32_lem_example = xorshift32_lem 0 two_nodes (omega arith, omega arith)

xorshift32_stuck_example : xorshift32 5 (record two_nodes { prng = 0 }) ≡ out_of_fuel
xorshift32_stuck_example = xorshift32_stuck 5 (record two_nodes { prng = 0 }) refl

toss-Tossed_example : Tossed two_nodes 4 (toss 1 4 two_nodes)
toss-Tossed_example = toss-Tossed 0 4 two_nodes (omega arith, omega arith)

freed-unheld_example :
    (freeing_run.0.unlinked 7 ≡ true) × ((t : ℕ) → freeing_run.0.held t 7 ≡ false)
freed-unheld_example = freed-unheld freeing_run.0 freeing_run.1 7 refl

pinned-current_example :
    (freeing_run.0.local_epoch 0 ≤ freeing_run.0.global_epoch)
    × (freeing_run.0.global_epoch ≤ freeing_run.0.local_epoch 0 + 1)
pinned-current_example = pinned-current freeing_run.0 freeing_run.1 0 refl

read_le32-write_le32_example : read_le32 (write_le32 0x12345678) ≡ 0x12345678
read_le32-write_le32_example = read_le32-write_le32 0x12345678 (omega arith)

read_le64-write_le64_example : read_le64 (write_le64 0xfedcba9876543210) ≡ 0xfedcba9876543210
read_le64-write_le64_example = read_le64-write_le64 0xfedcba9876543210 (omega arith)
