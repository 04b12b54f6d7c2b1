-- ===== src/Pool/Slots.antt =====
-- The slots of a pool and their indices.
use native.Mathlib.Nat.{mul-mod_left, mul-div_left, div-lt_iff_lt-mul, div-add-mod', mod-eq_of_lt}
use skiplist.Base.{
  ℕ, ◌+◌, ◌-◌, ◌*◌, ◌/◌, ◌%◌, ◌^◌, ◌≤◌, ◌<◌, ◌≡◌, ◌≢◌, ◌↔◌, sym, ap, ◌∙◌, Bool, true, false, not,
  ◌||◌, arith, ltb, leb, ◌==◌, lt→leb, ==_iff, Bool-cases, inl, inr,
}
use skiplist.Store.{Ptr, null, size_mod}
use skiplist.Pool.{Pool, int32_max, slot_ptr, index_of, is_negative, pool_is_from}

-- A pool that has been set up: its slots are indexed by an int32_t, and their bytes by a size_t.
pub record IsPool (pool : Pool) : Type 0 where
  pub some_slots : 0 < pool.capacity
  pub some_bytes : 0 < pool.slot_size
  pub room : pool.capacity * pool.slot_size < size_mod
  pub few : pool.capacity ≤ int32_max
  pub placed : pool.slots ≢ null
  pub kept : pool.states ≢ null

module _ (pool : Pool) (is : IsPool pool) where
  pub offset-lt : (i : ℕ) → i < pool.capacity → i * pool.slot_size < pool.capacity * pool.slot_size
  offset-lt i low = grind (arith, is.some_bytes)

  pub slot_ptr_lem : (i : ℕ) → i < pool.capacity → slot_ptr pool i ≡ pool.slots + i * pool.slot_size
  unfolding slot_ptr
  slot_ptr_lem i low = omega (arith, offset-lt i low, is.room)

  pub slot_ptr-ne-null : (i : ℕ) → i < pool.capacity → slot_ptr pool i ≢ null
  slot_ptr-ne-null i low = omega (arith, slot_ptr_lem i low, is.placed)

  -- The index of a slot's node is the slot's.
  pub index_of-slot_ptr : (i : ℕ) → i < pool.capacity → index_of pool (slot_ptr pool i) ≡ i
  unfolding index_of
  index_of-slot_ptr i low = rw (
    slot_ptr_lem i low,
    before,
    behind,
    offset,
    mul-mod_left i pool.slot_size,
    mul-div_left i is.some_bytes,
    mod-eq_of_lt small,
  )
    where
      before : ltb (pool.slots + i * pool.slot_size) pool.slots ≡ false
      before = ground arith

      behind :
          leb
            (pool.slots + pool.capacity * pool.slot_size % size_mod)
            (pool.slots + i * pool.slot_size)
          ≡ false
      behind = lt→leb _ _ (omega (arith, offset-lt i low, is.room))

      offset : pool.slots + i * pool.slot_size - pool.slots ≡ i * pool.slot_size
      offset = omega arith

      small : i < 2 ^ 32
      small = omega (arith, is.few)

  outside : Ptr → Bool
  outside node =
      ltb node pool.slots || leb (pool.slots + pool.capacity * pool.slot_size % size_mod) node

  inside :
      (node : Ptr)
      → outside node ≡ false
      → pool.slots ≤ node × node - pool.slots < pool.capacity * pool.slot_size
  unfolding outside
  inside node e = let whole = mod-eq_of_lt is.room in (ground arith, ground arith)

  -- A node that the pool takes for its own stands in one of its slots.
  pub slot_of :
      (node : Ptr)
      → pool_is_from pool node ≡ true
      → (i : ℕ) × i < pool.capacity × slot_ptr pool i ≡ node
  unfolding pool_is_from index_of outside
  slot_of node found = elim (Bool-cases (outside node)) [
    | inl e ↦ ground arith
    | inr e ↦ elim (Bool-cases ((node - pool.slots) % pool.slot_size == 0)) [
      | inl d ↦
          let low = inside node e in
          let exact = div-add-mod' (node - pool.slots) pool.slot_size in
          let slot = (div-lt_iff_lt-mul is.some_bytes).1 low.1 in
          (
            (node - pool.slots) / pool.slot_size,
            slot,
            slot_ptr_lem _ slot ∙ omega (arith, exact, low.0, (==_iff _ _).0 d),
          )
      | inr d ↦ ground arith
    ]
  ]

  -- In a pool that has been set up, a node belongs to the pool when it is the node of one of its slots, and
  -- it then has that slot's index.
  pub pool_is_from_iff :
      (node : Ptr)
      → (pool_is_from pool node ≡ true)
        ↔ ((i : ℕ) × i < pool.capacity × slot_ptr pool i ≡ node × index_of pool node ≡ i)
  unfolding pool_is_from
  pool_is_from_iff node = (
    λ found.
        let slot = slot_of node found in
        (slot.0, slot.1, slot.2, ap (index_of pool) (sym slot.2) ∙ index_of-slot_ptr slot.0 slot.1),
    λ slot. not_negative (slot.1, slot.3, is.few),
  )
    where
      not_negative :
          {i : ℕ}
          → (i < pool.capacity) × (index_of pool node ≡ i) × (pool.capacity ≤ int32_max)
          → not (is_negative (index_of pool node)) ≡ true
      not_negative {i} (low, e, few) = rw (e, lt→leb (2 ^ 31) i (omega (arith, low, few)))
