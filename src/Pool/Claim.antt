-- ===== src/Pool/Claim.antt =====
-- The slot that an allocation takes.
use native.Mathlib.Nat.{mod-lt, mod-eq_of_lt, div-add-mod', mul-add-mod_self_right}
use skiplist.Base.{
  ℕ, zero, suc, ◌+◌, ◌-◌, ◌*◌, ◌/◌, ◌%◌, ◌≤◌, ◌<◌, ◌≡◌, ◌≢◌, ◌⊎◌, inl, inr, refl, subst, ap, ◌∙◌,
  arith, leb, ◌==◌, Bool-cases, ==_iff,
}
use skiplist.Store.{null, size_mod, update}
use skiplist.Pool.{Pool, clear, slot_ptr, claim, pool_alloc}
use skiplist.Pool.Slots.{IsPool, slot_ptr-ne-null}

-- The pool whose slot `i` has been handed out, and its bytes cleared.
abbrev pub taken : ℕ → ℕ → Pool → Pool
taken raw_size i pool = record pool {
  slot_state = update pool.slot_state i 1;
  memory = clear pool.memory (slot_ptr pool i) raw_size;
}

-- The pool whose cursor has moved on.
abbrev pub advanced : Pool → Pool
advanced pool = record pool { cursor = (pool.cursor + 1) % size_mod }

module _ (raw_size start : ℕ) (pool : Pool) (some : 0 < pool.capacity) where
  abbrev probe : ℕ → ℕ
  probe t = (start + t) % size_mod % pool.capacity

  used_all :
      (t count : ℕ)
      → ((k : ℕ) → k < count → pool.slot_state (probe (t + 1 + k)) ≢ 0)
      → pool.slot_state (probe t) ≢ 0
      → (k : ℕ) → k < suc count
      → pool.slot_state (probe (t + k)) ≢ 0
  used_all t count used now zero low = subst (λ k. pool.slot_state (probe k) ≢ 0) (omega arith) now
  used_all t count used now (suc k) low =
      subst (λ k. pool.slot_state (probe k) ≢ 0) (omega arith) (used k (omega arith))

  claim_lem :
      (t count : ℕ)
      → ((claim raw_size start t count pool ≡ (null, pool))
          × ((k : ℕ) → k < count → pool.slot_state (probe (t + k)) ≢ 0))
        ⊎ ((i : ℕ) × i < pool.capacity
            × pool.slot_state i ≡ 0
            × claim raw_size start t count pool ≡ (slot_ptr pool i, taken raw_size i pool))
  unfolding claim
  claim_lem t zero = inl (refl, λ k low. absurd (omega arith))
  claim_lem t (suc count) = elim (Bool-cases (pool.slot_state (probe t) == 0)) [
    | inl e ↦ inr (probe t, mod-lt _ some, (==_iff _ _).0 e, rw e)
    | inr e ↦ elim (claim_lem (t + 1) count) [
      | inl (d, used) ↦ inl (rw e d, used_all t count used (ground arith))
      | inr (i, low, free, d) ↦ inr (i, low, free, rw e d)
    ]
  ]

  probe_at :
      (k q j : ℕ)
      → start + k < size_mod
      → start + k ≡ q * pool.capacity + j
      → j < pool.capacity
      → probe k ≡ j
  probe_at k q j within e low =
      rw (mod-eq_of_lt within, e, mul-add-mod_self_right q pool.capacity j, mod-eq_of_lt low)

  -- Every slot is probed, when the cursor does not wrap on the way.
  probe-surjective :
      start + pool.capacity ≤ size_mod
      → (j : ℕ) → j < pool.capacity
      → (k : ℕ) × k < pool.capacity × probe k ≡ j
  probe-surjective within j low =
      let exact = div-add-mod' start pool.capacity in
      let rest = mod-lt start some in
      let q = start / pool.capacity in
      elim (Bool-cases (leb (start % pool.capacity) j)) [
        | inl e ↦
            let k = j - start % pool.capacity in
            let before : start % pool.capacity ≤ j = ground arith in
            (
              k,
              omega (arith, low),
              probe_at k q j (omega (arith, low)) (omega (arith, exact, before)) low,
            )
        | inr e ↦
            let k = j + pool.capacity - start % pool.capacity in
            let behind : j < start % pool.capacity = ground arith in
            (
              k,
              omega (arith, behind, rest),
              probe_at k (q + 1) j (omega (arith, behind, rest))
                  (omega (arith, exact, behind, rest)) low,
            )
      ]

-- An allocation takes a free slot, or none.
pub alloc_cases :
    (raw_size : ℕ) (pool : Pool)
    → 0 < pool.capacity
    → (pool_alloc raw_size pool ≡ (null, advanced pool))
      ⊎ ((i : ℕ) × i < pool.capacity
          × pool.slot_state i ≡ 0
          × pool_alloc raw_size pool ≡ (slot_ptr pool i, taken raw_size i (advanced pool)))
unfolding pool_alloc slot_ptr
alloc_cases raw_size pool some =
    elim (claim_lem raw_size pool.cursor (advanced pool) some 0 pool.capacity) [
      | inl (e, _) ↦ inl e
      | inr found ↦ inr found
    ]

-- With a cursor that does not wrap around on the way, an allocation from a pool that has been set up takes
-- a free slot, marks it used, clears its node's bytes and returns the node, or it returns NULL and every
-- slot is used. Nothing else of the pool changes but its cursor.
pub pool_alloc_lem :
    (raw_size : ℕ) (pool : Pool)
    → IsPool pool
    → pool.cursor + pool.capacity ≤ size_mod
    → ((pool_alloc raw_size pool ≡ (null, advanced pool))
        × ((i : ℕ) → i < pool.capacity → pool.slot_state i ≢ 0))
      ⊎ ((i : ℕ) × i < pool.capacity
          × pool.slot_state i ≡ 0
          × slot_ptr pool i ≢ null
          × pool_alloc raw_size pool ≡ (slot_ptr pool i, taken raw_size i (advanced pool)))
unfolding pool_alloc slot_ptr
pool_alloc_lem raw_size pool is within =
    elim (claim_lem raw_size pool.cursor (advanced pool) is.some_slots 0 pool.capacity) [
      | inl (e, used) ↦ inl (
        e,
        λ i low.
            let probed = probe-surjective raw_size pool.cursor pool is.some_slots within i low in
            subst (λ j. pool.slot_state j ≢ 0)
              (ap (λ k. (pool.cursor + k) % size_mod % pool.capacity) (omega arith) ∙ probed.2)
              (used probed.0 probed.1),
      )
      | inr (i, low, free, e) ↦ inr (i, low, free, slot_ptr-ne-null pool is i low, e)
    ]
