-- ===== src/Pool/Init.antt =====
-- What the initialisation of a pool returns, on every branch.
use native.Mathlib.Nat.{div-lt_iff_lt-mul}
use skiplist.Base.{
  ℕ, ◌+◌, ◌*◌, ◌/◌, ◌%◌, ◌≤◌, ◌<◌, ◌≡◌, ◌⊎◌, inl, inr, refl, Bool, true, false, ◌||◌, arith, ltb,
  ◌==◌, Bool-cases, ==_iff, ltb→lt,
}
use skiplist.Store.{Ptr, null, size_mod, update}
use skiplist.Insert.{done, einval, enomem}
use skiplist.Pool.{Pool, size_max, int32_max, round_up, pool_init}
use skiplist.Pool.Slots.{IsPool}

given_back :
    (slab : Ptr) (allocated : Ptr → Bool)
    → update (update allocated slab true) slab false slab ≡ false
given_back slab allocated = ground arith

given_out :
    (p states : Ptr) (allocated : Ptr → Bool)
    → update (update allocated p true) states true p ≡ true
given_out p states allocated = ground arith

given_last : (p : Ptr) (allocated : Ptr → Bool) → update allocated p true p ≡ true
given_last p allocated = ground arith

module _ (raw_size : ℕ) (some : 0 < raw_size) (fits : raw_size + 63 < size_mod) where
  pub round_up_lem :
      raw_size ≤ round_up raw_size × round_up raw_size < raw_size + 64 × round_up raw_size % 64 ≡ 0
  round_up_lem = (omega arith, omega arith, omega arith)

  module _ (slab states : Ptr) (capacity : ℕ) (pool : Pool) where
    abbrev too_large : Bool
    too_large = ltb (size_max / round_up raw_size) capacity || ltb int32_max capacity

    too_many : too_large ≡ true → (int32_max < capacity) ⊎ (size_mod ≤ capacity * round_up raw_size)
    too_many e = elim (Bool-cases (ltb int32_max capacity)) [
      | inl d ↦ inl (ltb→lt _ _ d)
      | inr d ↦ inr (
          ground (
            arith,
            div-lt_iff_lt-mul {k = round_up raw_size} {x = size_max} {y = capacity} (omega arith),
          ))
    ]

    enough : too_large ≡ false → capacity * round_up raw_size < size_mod
    enough e = ground (
      arith,
      div-lt_iff_lt-mul {k = round_up raw_size} {x = size_max} {y = capacity} (omega arith),
    )

    -- The initialisation of a pool for nodes of `raw_size` bytes ends in one of three ways. It returns EINVAL
    -- and leaves the pool as it was for no slot, for more than an int32_t indexes, or for more bytes than a
    -- size_t counts. It returns ENOMEM and a pool without a slab when one of the two allocations fails, and
    -- has then given back the slab if it had one. Else it returns 0 and a pool that is set up, with both
    -- blocks, room for a node in every slot and every slot free.
    pub pool_init_lem :
        let result = pool_init raw_size slab states capacity pool in
        ((result.0 ≡ einval)
          × (result.1 ≡ pool)
          × ((capacity ≡ 0) ⊎ (int32_max < capacity) ⊎ (size_mod ≤ capacity * round_up raw_size)))
        ⊎ ((result.0 ≡ enomem)
            × (result.1.slots ≡ null)
            × ((slab ≡ null) ⊎ (states ≡ null))
            × ((slab ≡ null) ⊎ (result.1.allocated slab ≡ false)))
        ⊎ ((result.0 ≡ done)
            × IsPool result.1
            × (result.1.capacity ≡ capacity)
            × (raw_size ≤ result.1.slot_size)
            × (result.1.slot_size % 64 ≡ 0)
            × ((i : ℕ) → result.1.slot_state i ≡ 0)
            × (result.1.allocated slab ≡ true)
            × (result.1.allocated states ≡ true))
    unfolding pool_init
    pool_init_lem = elim (Bool-cases (capacity == 0)) [
      | inl e ↦ inl (rw e, rw e, inl ((==_iff _ _).0 e))
      | inr some_capacity ↦ elim (Bool-cases too_large) [
        | inl e ↦ inl (rw (some_capacity, e), rw (some_capacity, e), inr (too_many e))
        | inr e ↦ elim (Bool-cases (slab == null)) [
          | inl d ↦ inr (
              inl (
                rw (some_capacity, e, d),
                rw (some_capacity, e, d) ((==_iff _ _).0 d),
                inl ((==_iff _ _).0 d),
                inl ((==_iff _ _).0 d),
              ))
          | inr placed ↦ elim (Bool-cases (states == null)) [
            | inl d ↦ inr (
                inl (
                  rw (some_capacity, e, placed, d),
                  rw (some_capacity, e, placed, d),
                  inr ((==_iff _ _).0 d),
                  inr (rw (some_capacity, e, placed, d) (given_back slab pool.allocated)),
                ))
            | inr stated ↦ inr (
                inr (
                  rw (some_capacity, e, placed, stated)
                    (
                      refl,
                      record {
                        some_slots = ground arith;
                        some_bytes = omega (arith, round_up_lem);
                        room = enough e;
                        few = ground arith;
                        placed = ground arith;
                        kept = ground arith;
                      },
                      refl,
                      round_up_lem.0,
                      round_up_lem.2,
                      λ i. refl,
                      given_out slab states pool.allocated,
                      given_last states (update pool.allocated slab true),
                    )))
          ]
        ]
      ]
    ]
