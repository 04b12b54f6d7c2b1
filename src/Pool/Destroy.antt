-- ===== src/Pool/Destroy.antt =====
-- skip_pool_destroy_ and the nodes that are still out.
use skiplist.Base.{
  ℕ, zero, suc, ◌<◌, ◌≡◌, ◌≢◌, ◌⊎◌, inl, inr, ap, ◌∙◌, Bool, true, false, arith, ◌==◌, ◌&&◌,
  if◌then◌else◌, Bool-cases, ==_iff, List, [], ◌∷◌, refl, All,
}
use skiplist.Store.{Ptr, null}
use skiplist.Pool.{Pool, any_used, give_back, pool_destroy}
use skiplist.Pool.Owners.{Owners, IsOwners, Used}

any_used-true : (f : ℕ → ℕ) (count : ℕ) → any_used f count ≡ true → (i : ℕ) × i < count × f i ≢ 0
unfolding any_used
any_used-true f zero e = ground arith
any_used-true f (suc count) e = elim (Bool-cases (f count == 0)) [
  | inl d ↦
      let (i, low, used) = any_used-true f count (ground arith) in (i, omega (arith, low), used)
  | inr d ↦ (count, omega arith, ground arith)
]

any_used-false : (f : ℕ → ℕ) (count : ℕ) → any_used f count ≡ false → (i : ℕ) → i < count → f i ≡ 0
unfolding any_used
any_used-false f zero e i low = absurd (omega arith)
any_used-false f (suc count) e i low =
    let first : f count ≡ 0 = ground arith in
    elim (Bool-cases (i == count)) [
      | inl d ↦ ap f ((==_iff i count).0 d) ∙ first
      | inr d ↦ any_used-false f count (ground arith) i (ground arith)
    ]

none_owned :
    (pool : Pool) (zs : List Ptr)
    → All (Used pool) zs
    → ((i : ℕ) → i < pool.capacity → pool.slot_state i ≡ 0)
    → zs ≡ []
none_owned pool [] used free = refl
none_owned pool (z ∷ zs) used free = let (i, low, _, taken) = used.0 in absurd (taken (free i low))

give_back_self : (p : Ptr) (allocated : Ptr → Bool) → p ≢ null → give_back p allocated p ≡ false
give_back_self p allocated some = ground arith

give_back_free :
    (p q : Ptr) (allocated : Ptr → Bool) → allocated q ≡ false → give_back p allocated q ≡ false
give_back_free p q allocated e = ground arith

give_back_other :
    (p q : Ptr) (allocated : Ptr → Bool) → q ≢ p → give_back p allocated q ≡ allocated q
give_back_other p q allocated apart = ground arith

-- the pool behind the destruction
abbrev destroyed : Pool → Pool
destroyed pool = record pool {
  slots = null;
  states = null;
  capacity = 0;
  allocated = give_back pool.states (give_back pool.slots pool.allocated);
}

pool_destroy-free :
    (pool : Pool)
    → any_used pool.slot_state pool.capacity ≡ false
    → pool_destroy pool ≡ destroyed pool
unfolding pool_destroy
pool_destroy-free pool e =
    let unused : (pool.attached && any_used pool.slot_state pool.capacity) ≡ false = ground arith in
    ap (λ b. if b then pool else destroyed pool) unused

-- The destruction of a pool that is attached to a list leaves the pool as it is while a node is owned. When
-- none is, it frees the slab and the block of the states, no other block, and forgets its slots.
pub pool_destroy_lem :
    (s : Owners)
    → IsOwners s
    → s.pool.attached ≡ true
    → ((pool_destroy s.pool ≡ s.pool) × (s.owned ≢ []))
      ⊎ (((pool_destroy s.pool).slots ≡ null)
          × ((pool_destroy s.pool).capacity ≡ 0)
          × ((pool_destroy s.pool).allocated s.pool.slots ≡ false)
          × ((pool_destroy s.pool).allocated s.pool.states ≡ false)
          × ((q : Ptr)
              → q ≢ s.pool.slots
              → q ≢ s.pool.states
              → (pool_destroy s.pool).allocated q ≡ s.pool.allocated q)
          × (s.owned ≡ []))
unfolding pool_destroy
pool_destroy_lem s inv attached = elim (Bool-cases (any_used s.pool.slot_state s.pool.capacity)) [
  | inl e ↦
      let (i, low, used) = any_used-true s.pool.slot_state s.pool.capacity e in
      inl (rw (attached, e), λ d. used (inv.free i low (rw d tt)))
  | inr e ↦
      let e' = pool_destroy-free s.pool e in
      inr (
        ap (λ pool. pool.slots) e',
        ap (λ pool. pool.capacity) e',
        ap (λ pool. pool.allocated s.pool.slots) e'
            ∙ give_back_free s.pool.states s.pool.slots _
                (give_back_self s.pool.slots _ inv.is.placed),
        ap (λ pool. pool.allocated s.pool.states) e' ∙ give_back_self s.pool.states _ inv.is.kept,
        λ q here there.
            ap (λ pool. pool.allocated q) e'
            ∙ give_back_other s.pool.states q _ there
            ∙ give_back_other s.pool.slots q _ here,
        none_owned s.pool s.owned inv.used (any_used-false s.pool.slot_state s.pool.capacity e),
      )
]
