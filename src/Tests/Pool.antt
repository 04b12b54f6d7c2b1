-- ===== src/Tests/Pool.antt =====
-- Witnesses for the pool: three slots of 64 bytes.
use skiplist.Base.{
  ℕ, ◌*◌, ◌%◌, ◌^◌, ◌≤◌, ◌<◌, ◌≡◌, ◌≢◌, ◌↔◌, ◌⊎◌, ◌-◌, ◌==◌, if◌then◌else◌, refl, true, false,
  arith, [], ◌∷◌,
}
use skiplist.Store.{Ptr, null, size_mod}
use skiplist.Insert.{Status, done, einval, enomem}
use skiplist.Pool.{
  Pool, int32_max, round_up, slot_ptr, index_of, pool_init, claim, pool_alloc, pool_is_from,
  pool_destroy,
}
use skiplist.Pool.Slots.{IsPool, pool_is_from_iff}
use skiplist.Pool.Init.{pool_init_lem}
use skiplist.Pool.Claim.{pool_alloc_lem, advanced, taken}
use skiplist.Pool.Owners.{Owners, Step, Reach, IsOwners, Reach-IsOwners}
use skiplist.Pool.Destroy.{pool_destroy_lem}

abbrev three_slots : Pool
three_slots = record {
  capacity = 3;
  slot_size = 64;
  slots = 1024;
  states = 512;
  slot_state = λ i. 0;
  cursor = 0;
  attached = true;
  memory = λ p. 0;
  allocated = λ p. true;
}

three_slots-IsPool : IsPool three_slots
three_slots-IsPool = record {
  some_slots = omega arith;
  some_bytes = omega arith;
  room = omega arith;
  few = omega arith;
  placed = omega arith;
  kept = omega arith;
}

pool_is_from_iff_example :
    (pool_is_from three_slots 1152 ≡ true)
    ↔ ((i : ℕ) × i < 3 × slot_ptr three_slots i ≡ 1152 × index_of three_slots 1152 ≡ i)
pool_is_from_iff_example = pool_is_from_iff three_slots three_slots-IsPool 1152

-- A node that does not start at a slot is not from the pool.
pool_is_from-inside : pool_is_from three_slots 1153 ≡ false
unfolding pool_is_from index_of
pool_is_from-inside = refl

-- When the sum of cursor and probe wraps around, a slot can be missed: the third one is free here.
alloc-wrap :
    (pool_alloc 64
      (record three_slots { cursor = 2 ^ 64 - 1; slot_state = λ i. if i == 2 then 0 else 1 })).0
    ≡ null
unfolding pool_alloc claim slot_ptr
alloc-wrap = refl

abbrev one_owned : Owners
one_owned = record {
  pool = (pool_alloc 64 three_slots).1;
  owned = (pool_alloc 64 three_slots).0 ∷ [];
}

one_owned-Reach : Reach 64 one_owned
unfolding pool_alloc claim slot_ptr
one_owned-Reach =
    Reach.later (Reach.start three_slots three_slots-IsPool (λ i low. refl))
      (Step.take (omega arith))

Reach-IsOwners_example : IsOwners one_owned
Reach-IsOwners_example = Reach-IsOwners 64 one_owned-Reach

pool_destroy_lem_example :
    ((pool_destroy one_owned.pool ≡ one_owned.pool) × (one_owned.owned ≢ []))
    ⊎ (((pool_destroy one_owned.pool).slots ≡ null)
        × ((pool_destroy one_owned.pool).capacity ≡ 0)
        × ((pool_destroy one_owned.pool).allocated 1024 ≡ false)
        × ((pool_destroy one_owned.pool).allocated 512 ≡ false)
        × ((q : Ptr)
            → q ≢ 1024
            → q ≢ 512
            → (pool_destroy one_owned.pool).allocated q ≡ one_owned.pool.allocated q)
        × (one_owned.owned ≡ []))
unfolding pool_alloc claim
pool_destroy_lem_example = pool_destroy_lem one_owned Reach-IsOwners_example refl

abbrev three : ℕ
three = 3

abbrev set_up : Status × Pool
set_up = pool_init 60 1024 512 3 three_slots

pool_init_lem_example :
    ((set_up.0 ≡ einval)
      × (set_up.1 ≡ three_slots)
      × ((three ≡ 0) ⊎ (int32_max < three) ⊎ (size_mod ≤ three * round_up 60)))
    ⊎ ((set_up.0 ≡ enomem)
        × (set_up.1.slots ≡ null)
        × ((three_slots.slots ≡ null) ⊎ (three_slots.states ≡ null))
        × ((three_slots.slots ≡ null) ⊎ (set_up.1.allocated 1024 ≡ false)))
    ⊎ ((set_up.0 ≡ done)
        × IsPool set_up.1
        × (set_up.1.capacity ≡ three)
        × (60 ≤ set_up.1.slot_size)
        × (set_up.1.slot_size % 64 ≡ 0)
        × ((i : ℕ) → set_up.1.slot_state i ≡ 0)
        × (set_up.1.allocated 1024 ≡ true)
        × (set_up.1.allocated 512 ≡ true))
pool_init_lem_example = pool_init_lem 60 (omega arith) (omega arith) 1024 512 3 three_slots

pool_alloc_lem_example :
    ((pool_alloc 64 three_slots ≡ (null, advanced three_slots))
      × ((i : ℕ) → i < 3 → three_slots.slot_state i ≢ 0))
    ⊎ ((i : ℕ) × i < 3
        × three_slots.slot_state i ≡ 0
        × slot_ptr three_slots i ≢ null
        × pool_alloc 64 three_slots ≡ (slot_ptr three_slots i, taken 64 i (advanced three_slots)))
pool_alloc_lem_example = pool_alloc_lem 64 three_slots three_slots-IsPool (omega arith)
