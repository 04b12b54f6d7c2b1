-- ===== src/Pool/Owners.antt =====
-- Who has a pool's nodes: the calls of skip_pool_alloc_ and skip_pool_free_ as steps, and what they keep.
use skiplist.Base.{
  ℕ, ◌^◌, ◌<◌, ◌≡◌, ◌≢◌, inl, inr, refl, sym, ap, subst, ◌∙◌, false, arith, ◌==◌, Bool-cases, ==_ne,
  ==_self, lt→leb, List, [], ◌∷◌, ◌++◌, All, All-map, All-pair, All-append, All-right, All-insert,
  All-remove, Ordered-remove, Ordered-middle, NotIn, Distinct,
}
use skiplist.Store.{Ptr, null, update}
use skiplist.Pool.{Pool, slot_ptr, index_of, pool_alloc, pool_free, pool_is_from, release_cb}
use skiplist.Pool.Slots.{IsPool, slot_ptr-ne-null, index_of-slot_ptr, pool_is_from_iff}
use skiplist.Pool.Claim.{advanced, taken, alloc_cases}

-- A pool and the nodes that it has handed out and not had back.
pub record Owners : Type 0 where
  pub pool : Pool
  pub owned : List Ptr

pub data Step (raw_size : ℕ) (s : Owners) : Owners → Type 0 where
  take :
      (pool_alloc raw_size s.pool).0 ≢ null
      → Step raw_size s (record {
        pool = (pool_alloc raw_size s.pool).1;
        owned = (pool_alloc raw_size s.pool).0 ∷ s.owned;
      })
  fail :
      (pool_alloc raw_size s.pool).0 ≡ null
      → Step raw_size s (record s { pool = (pool_alloc raw_size s.pool).1 })
  -- a node that is owned goes back, by skip_pool_free_ or by the list's hook
  give :
      (xs ys : List Ptr) (n : Ptr)
      → s.owned ≡ xs ++ n ∷ ys
      → Step raw_size s (record { pool = pool_free n s.pool; owned = xs ++ ys })
  release :
      (xs ys : List Ptr) (n : Ptr)
      → s.owned ≡ xs ++ n ∷ ys
      → Step raw_size s (record { pool = (release_cb n s.pool).1; owned = xs ++ ys })
  -- a node from elsewhere that the list's hook frees
  pass :
      (n : Ptr)
      → pool_is_from s.pool n ≡ false
      → Step raw_size s (record s { pool = (release_cb n s.pool).1 })

pub data Reach (raw_size : ℕ) : Owners → Type 0 where
  start :
      (pool : Pool)
      → IsPool pool
      → ((i : ℕ) → i < pool.capacity → pool.slot_state i ≡ 0)
      → Reach raw_size (record { pool = pool; owned = [] })
  later : {s s' : Owners} → Reach raw_size s → Step raw_size s s' → Reach raw_size s'

-- The node of a slot that is used.
abbrev pub Used : Pool → Ptr → Type 0
Used pool n = (i : ℕ) × i < pool.capacity × slot_ptr pool i ≡ n × pool.slot_state i ≢ 0

-- Each owned node has a used slot of its own, and a slot whose node is not owned is free.
pub record IsOwners (s : Owners) : Type 0 where
  pub is : IsPool s.pool
  pub used : All (Used s.pool) s.owned
  pub distinct : Distinct s.owned
  pub free :
      (i : ℕ) → i < s.pool.capacity → NotIn (slot_ptr s.pool i) s.owned → s.pool.slot_state i ≡ 0

pub slot_ptr-injective :
    (pool : Pool)
    → IsPool pool
    → (i j : ℕ) → i < pool.capacity
    → j < pool.capacity
    → slot_ptr pool i ≡ slot_ptr pool j
    → i ≡ j
slot_ptr-injective pool is i j low low' e =
    sym (index_of-slot_ptr pool is i low) ∙ ap (index_of pool) e ∙ index_of-slot_ptr pool is j low'

pub IsPool-with :
    (pool : Pool) (slot_state : ℕ → ℕ) (memory : Ptr → ℕ) (cursor : ℕ)
    → IsPool pool
    → IsPool (record pool { slot_state = slot_state; memory = memory; cursor = cursor })
IsPool-with pool slot_state memory cursor is = record {
  some_slots = is.some_slots;
  some_bytes = is.some_bytes;
  room = is.room;
  few = is.few;
  placed = is.placed;
  kept = is.kept;
}

update-used : (f : ℕ → ℕ) (i j : ℕ) → f j ≢ 0 → update f i 1 j ≢ 0
update-used f i j used = elim (Bool-cases (j == i)) [
  | inl e ↦ rw e (omega arith)
  | inr e ↦ rw e used
]

-- A slot that is free is handed out.
IsOwners-taken :
    (s : Owners) (memory : Ptr → ℕ) (cursor i : ℕ)
    → IsOwners s
    → i < s.pool.capacity
    → s.pool.slot_state i ≡ 0
    → IsOwners (record {
      pool = record s.pool {
        slot_state = update s.pool.slot_state i 1;
        memory = memory;
        cursor = cursor;
      };
      owned = slot_ptr s.pool i ∷ s.owned;
    })
unfolding slot_ptr
IsOwners-taken s memory cursor i inv low free = record {
  is = IsPool-with s.pool (update s.pool.slot_state i 1) memory cursor inv.is;
  used = (
    (i, low, refl, rw (==_self i) (omega arith)),
    All-map (Used s.pool) s.owned
        (λ n (j, low, e, used). (j, low, e, update-used s.pool.slot_state i j used)) inv.used,
  );
  distinct = (
    All-map (Used s.pool) s.owned
        (λ n (j, low', e, used) d. used (
          subst (λ k. s.pool.slot_state k ≡ 0)
            (slot_ptr-injective s.pool inv.is i j low low' (d ∙ sym e)) free))
        inv.used,
    inv.distinct,
  );
  free = λ j low' out. rw (==_ne (λ e. out.0 (ap (slot_ptr s.pool) e))) (inv.free j low' out.1);
}

module _ (pool : Pool) (xs ys : List Ptr) (n : Ptr)
    (inv : IsOwners (record { pool = pool; owned = xs ++ n ∷ ys })) where
  others : All (λ y. (y ≢ n) × Used pool y) (xs ++ ys)
  others =
      All-pair (λ y. y ≢ n) (Used pool) (xs ++ ys)
        (let (before, after) = Ordered-middle ◌≢◌ xs ys n inv.distinct in
          All-append (λ y. y ≢ n) xs ys before (All-map (λ y. n ≢ y) ys (λ y d e. d (sym e)) after))
        (All-remove (Used pool) xs ys n inv.used)

  given : Used pool n
  given = (All-right (Used pool) xs (n ∷ ys) inv.used).0

  abbrev freed : Pool
  freed = record pool { slot_state = update pool.slot_state given.0 0 }

  pool_free-given : pool_free n pool ≡ freed
  unfolding pool_free
  pool_free-given = rw (
    ap (index_of pool) (sym given.2) ∙ index_of-slot_ptr pool inv.is given.0 given.1,
    lt→leb (2 ^ 31) given.0 (omega (arith, given.1, inv.is.few)),
  )

  -- A slot whose node is owned becomes free.
  IsOwners-given : IsOwners (record { pool = pool_free n pool; owned = xs ++ ys })
  unfolding slot_ptr
  IsOwners-given = rw pool_free-given (record {
    is = IsPool-with pool (update pool.slot_state given.0 0) pool.memory pool.cursor inv.is;
    used =
        All-map (λ y. (y ≢ n) × Used pool y) (xs ++ ys)
          (λ y (d, (j, low, e, used)).
            (j, low, e, rw (==_ne (λ k. d (sym e ∙ ap (slot_ptr pool) k ∙ given.2))) used))
          others;
    distinct = Ordered-remove ◌≢◌ xs ys n inv.distinct;
    free = λ j low out. elim (Bool-cases (j == given.0)) [
      | inl e ↦ rw e
      | inr e ↦ rw e (
          inv.free j low (
            All-insert (λ y. slot_ptr pool j ≢ y) xs ys n out
              (ground (arith, slot_ptr-injective pool inv.is j given.0 low given.1))))
    ];
  })

  release_cb-given : (release_cb n pool).1 ≡ pool_free n pool
  unfolding release_cb
  release_cb-given =
      let index =
        ap (index_of pool) (sym given.2) ∙ index_of-slot_ptr pool inv.is given.0 given.1 in
      rw ((pool_is_from_iff pool inv.is n).1 (given.0, given.1, given.2, index))

module _ (raw_size : ℕ) where
  step-IsOwners : {s s' : Owners} → IsOwners s → Step raw_size s s' → IsOwners s'
  unfolding release_cb slot_ptr
  step-IsOwners {s} inv (Step.take got) = elim (alloc_cases raw_size s.pool inv.is.some_slots) [
    | inl e ↦ absurd (got (ap (λ r. r.0) e))
    | inr (i, low, free, e) ↦
        subst (λ r. IsOwners (record { pool = r.1; owned = r.0 ∷ s.owned })) (sym e)
          (IsOwners-taken s (taken raw_size i (advanced s.pool)).memory (advanced s.pool).cursor i
            inv low free)
  ]
  step-IsOwners {s} inv (Step.fail nothing) = elim (alloc_cases raw_size s.pool inv.is.some_slots) [
    | inl e ↦
        subst (λ r. IsOwners (record { pool = r.1; owned = s.owned })) (sym e)
          (record {
            is = IsPool-with s.pool s.pool.slot_state s.pool.memory (advanced s.pool).cursor inv.is;
            used = inv.used;
            distinct = inv.distinct;
            free = inv.free;
          })
    | inr (i, low, free, e) ↦
        absurd (slot_ptr-ne-null s.pool inv.is i low (sym (ap (λ r. r.0) e) ∙ nothing))
  ]
  step-IsOwners {s} inv (Step.give xs ys n e) =
      IsOwners-given s.pool xs ys n
        (subst (λ zs. IsOwners (record { pool = s.pool; owned = zs })) e inv)
  step-IsOwners {s} inv (Step.release xs ys n e) =
      let here = subst (λ zs. IsOwners (record { pool = s.pool; owned = zs })) e inv in
      rw (release_cb-given s.pool xs ys n here) (IsOwners-given s.pool xs ys n here)
  step-IsOwners {s} inv (Step.pass n e) = rw e inv

  -- However the calls of skip_pool_alloc_, skip_pool_free_ and the list's hook follow one another from a pool
  -- that has been set up with every slot free, as long as a node of the pool is given back by who owns it:
  -- the nodes that are owned stand in slots of their own, which are used, and every other slot is free.
  pub Reach-IsOwners : {s : Owners} → Reach raw_size s → IsOwners s
  Reach-IsOwners (Reach.start pool is free) = record {
    is = is;
    used = tt;
    distinct = tt;
    free = λ i low out. free i low;
  }
  Reach-IsOwners (Reach.later before step) = step-IsOwners (Reach-IsOwners before) step
