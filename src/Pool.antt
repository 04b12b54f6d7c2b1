-- ===== src/Pool.antt =====
-- SKIPLIST_DECL_POOL of include/sl.h: the slots of a slab, each with a state word of its own. A slot's
-- node has its levels right behind it, so the pointer `sle_levels` is no part of the model.
pub mod Slots
pub mod Init
pub mod Claim
pub mod Owners
pub mod Destroy
use skiplist.Base.{
  ℕ, zero, suc, ◌+◌, ◌-◌, ◌*◌, ◌/◌, ◌%◌, ◌^◌, Bool, true, false, not, ◌&&◌, ◌||◌, Option, none,
  some, ltb, leb, ◌==◌, if◌then◌else◌,
}
use skiplist.Store.{Ptr, null, size_mod, update}
use skiplist.Insert.{Status, done, einval, enomem}

-- _skip_pool_t, with what lies behind its pointers: `slot_state` at `states`, the bytes of memory, and
-- the blocks that the allocator has given out and not had back.
pub record Pool : Type 0 where
  pub capacity : ℕ
  pub slot_size : ℕ
  pub slots : Ptr
  pub states : Ptr
  pub slot_state : ℕ → ℕ
  pub cursor : ℕ
  pub attached : Bool
  pub memory : Ptr → ℕ
  pub allocated : Ptr → Bool

abbrev pub size_max : ℕ
size_max = 2 ^ 64 - 1

abbrev pub int32_max : ℕ
int32_max = 2 ^ 31 - 1

-- `raw_size` rounded up to a multiple of 64
abbrev pub round_up : ℕ → ℕ
round_up raw_size = (raw_size + 63) % size_mod / 64 * 64

-- `memset` of `count` bytes from `p` on
abbrev pub clear : (Ptr → ℕ) → Ptr → ℕ → Ptr → ℕ
clear memory p count q = if leb p q && ltb q (p + count) then 0 else memory q

-- `free` and `_skip_aligned_free`: of NULL they do nothing.
abbrev pub give_back : Ptr → (Ptr → Bool) → Ptr → Bool
give_back p allocated = if p == null then allocated else update allocated p false

-- _skip_pool_slot_ptr_
unfoldable pub slot_ptr : Pool → ℕ → Ptr
slot_ptr pool i = pool.slots + i * pool.slot_size % size_mod

-- An int32_t is its bit pattern.
abbrev pub minus_one : ℕ
minus_one = 2 ^ 32 - 1

abbrev pub is_negative : ℕ → Bool
is_negative i = leb (2 ^ 31) i

-- _skip_pool_index_of_
unfoldable pub index_of : Pool → Ptr → ℕ
index_of pool node =
    if ltb node pool.slots || leb (pool.slots + pool.capacity * pool.slot_size % size_mod) node
    then minus_one
    else if not ((node - pool.slots) % pool.slot_size == 0)
    then minus_one
    else (node - pool.slots) / pool.slot_size % 2 ^ 32

-- skip_pool_init_, with the size of a node and its levels and what the two allocations return
unfoldable pub pool_init : ℕ → Ptr → Ptr → ℕ → Pool → Status × Pool
pool_init raw_size slab states capacity pool =
    let slot_size = round_up raw_size in
    let sized = record pool { capacity = capacity; slot_size = slot_size; slots = slab } in
    if capacity == 0
    then (einval, pool)
    else if ltb (size_max / slot_size) capacity || ltb int32_max capacity
    then (einval, pool)
    else if slab == null
    then (enomem, sized)
    else if states == null
    then (
      enomem,
      record sized {
        slots = null;
        states = null;
        allocated = give_back slab (update pool.allocated slab true);
      },
    )
    else (
      done,
      record sized {
        states = states;
        slot_state = λ i. 0;
        allocated = update (update pool.allocated slab true) states true;
        memory = clear pool.memory slab (slot_size * capacity % size_mod);
        cursor = 0;
        attached = false;
      },
    )

-- The probes of skip_pool_alloc_ from `start`, `count` of them from the `t`th on: a free slot that is
-- taken and cleared, or NULL.
unfoldable pub claim : ℕ → ℕ → ℕ → ℕ → Pool → Ptr × Pool
claim raw_size start t zero pool = (null, pool)
claim raw_size start t (suc count) pool =
    let i = (start + t) % size_mod % pool.capacity in
    let rest = claim raw_size start (t + 1) count pool in
    if pool.slot_state i == 0
    then (
      slot_ptr pool i,
      record pool {
        slot_state = update pool.slot_state i 1;
        memory = clear pool.memory (slot_ptr pool i) raw_size;
      },
    )
    else rest

-- skip_pool_alloc_
unfoldable pub pool_alloc : ℕ → Pool → Ptr × Pool
pool_alloc raw_size pool =
    claim raw_size pool.cursor 0 pool.capacity
      (record pool { cursor = (pool.cursor + 1) % size_mod })

-- skip_pool_alloc_node_
unfoldable pub pool_alloc_node : ℕ → Pool → (Status × Ptr) × Pool
pool_alloc_node raw_size pool =
    let taken = pool_alloc raw_size pool in
    (if taken.0 == null then (enomem, null) else (done, taken.0), taken.1)

-- skip_pool_free_
unfoldable pub pool_free : Ptr → Pool → Pool
pool_free node pool =
    let idx = index_of pool node in
    if is_negative idx then pool else record pool { slot_state = update pool.slot_state idx 0 }

-- skip_pool_is_from_
unfoldable pub pool_is_from : Pool → Ptr → Bool
pool_is_from pool node = not (is_negative (index_of pool node))

-- whether one of the first `count` slots is in use
unfoldable pub any_used : (ℕ → ℕ) → ℕ → Bool
any_used slot_state zero = false
any_used slot_state (suc count) = not (slot_state count == 0) || any_used slot_state count

-- skip_pool_destroy_
unfoldable pub pool_destroy : Pool → Pool
pool_destroy pool =
    if pool.attached && any_used pool.slot_state pool.capacity then pool else record pool {
      slots = null;
      states = null;
      capacity = 0;
      allocated = give_back pool.states (give_back pool.slots pool.allocated);
    }

-- _skip_pool_release_cb_, with the node that it hands to `free`, if it does
unfoldable pub release_cb : Ptr → Pool → Option Ptr × Pool
release_cb node pool =
    if pool_is_from pool node then (none, pool_free node pool) else (some node, pool)

-- skip_pool_attach_: whether the list has the hook, and the pool
unfoldable pub attach : Option Pool → Bool × Option Pool
attach none = (false, none)
attach (some pool) = (true, some (record pool { attached = true }))

-- skip_pool_free_node_, with the user's callback, which acts on a state of the user's
unfoldable pub pool_free_node :
    {U : Type 0} → (Ptr → U → U) → Ptr → U → Pool → U × (Option Ptr × Pool)
pool_free_node free_entry node user pool = (free_entry node user, release_cb node pool)
