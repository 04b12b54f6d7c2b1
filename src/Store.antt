-- ===== src/Store.antt =====
-- The memory that the generated functions of include/sl.h work on, with the struct `decl` of one
-- list, and the accesses of the code to it. An access to memory that is not allocated, or to a level
-- that a node does not have, is a fault.
pub mod Access
use Prim.Native.Nat.{Ordering}
use skiplist.Base.{ℕ, ◌+◌, ◌%◌, ◌^◌, Bool, true, false, ◌&&◌, List, ltb, ◌==◌, if◌then◌else◌}

abbrev pub Ptr : Type 0
Ptr = ℕ

abbrev pub null : Ptr
null = 0

-- A forward pointer: `marked` has the low bit set, the flag of logical deletion.
pub data Link : Type 0 where
  clean : Ptr → Link
  marked : Ptr → Link

abbrev pub unmark : Link → Ptr
unmark (clean p) = p
unmark (marked p) = p

abbrev pub is_marked : Link → Bool
is_marked (clean p) = false
is_marked (marked p) = true

abbrev pub link_eq : Link → Link → Bool
link_eq (clean p) (clean q) = p == q
link_eq (marked p) (marked q) = p == q
link_eq _ _ = false

-- The blocks of code that SKIPLIST_DECL takes, on the user's part of a node. `archive_entry` returns
-- its `rc`, an int as its bit pattern, and the copy. `blank_entry` is the user's part of a node that `calloc` has cleared.
pub record Callbacks (E : Type 0) : Type 0 where
  pub compare_entries : E → E → Ordering
  pub update_entry : E → ℕ → E
  pub archive_entry : E → ℕ × E
  pub blank_entry : E

-- SKIPLIST_MAX_HEIGHT
abbrev pub max_height : ℕ
max_height = 64

abbrev pub size_mod : ℕ
size_mod = 2 ^ 64

-- The fields of the nodes, each as a function of the node's address, and those of the list.
-- `supply` holds what the coming calls of `calloc` return, and `retired` the nodes handed to
-- `slh_ebr_retire`.
pub record Store (E : Type 0) : Type 0 where
  pub live : Ptr → Bool
  pub entry : Ptr → E
  pub era : Ptr → ℕ
  pub height : Ptr → ℕ
  pub prev : Ptr → Ptr
  pub next : Ptr → ℕ → Link
  pub hits : Ptr → ℕ → ℕ
  pub supply : List Ptr
  pub retired : List Ptr
  pub length : ℕ
  pub ebr : Bool
  pub prng : ℕ
  pub splay_counter : ℕ
  pub has_dups : Bool
  pub head : Ptr
  pub tail : Ptr
  pub cur_era : ℕ
  pub pres_era : ℕ
  pub pres : Ptr

pub data Run (E A : Type 0) : Type 0 where
  ok : A → Store E → Run E A
  fault : Run E A
  out_of_fuel : Run E A

abbrev pub Cmd : Type 0 → Type 0 → Type 0
Cmd E A = Store E → Run E A

module _ {E : Type 0} where
  abbrev pub pure : {A : Type 0} → A → Cmd E A
  pure = ok

  abbrev pub and_then : {A B : Type 0} → Run E A → (A → Cmd E B) → Run E B
  and_then (ok a s) k = k a s
  and_then fault k = fault
  and_then out_of_fuel k = out_of_fuel

  infixl 5 ◌>>=◌ ◌>>◌
  abbrev pub ◌>>=◌ : {A B : Type 0} → Cmd E A → (A → Cmd E B) → Cmd E B
  m >>= k = λ s. and_then (m s) k

  abbrev pub ◌>>◌ : {B : Type 0} → Cmd E (Unit {0}) → Cmd E B → Cmd E B
  m >> n = m >>= λ _. n

  abbrev pub get : Cmd E (Store E)
  get s = ok s s

  abbrev pub put : Store E → Cmd E (Unit {0})
  put s = λ _. ok tt s

-- writes to a function at one place
abbrev pub update {ℓ} : {A : Type ℓ} → (Ptr → A) → Ptr → A → Ptr → A
update f p v q = if q == p then v else f q

abbrev pub update₂ {ℓ} : {A : Type ℓ} → (Ptr → ℕ → A) → Ptr → ℕ → A → Ptr → ℕ → A
update₂ f p i v q j = if (q == p) && (j == i) then v else f q j

module _ {E : Type 0} where
  -- whether `p->sle_levels[i]` lies in an allocated node
  abbrev pub in_bounds : Store E → Ptr → ℕ → Bool
  in_bounds s p i = s.live p && ltb i max_height

  unfoldable pub load_next : Ptr → ℕ → Cmd E Link
  load_next p i s = if in_bounds s p i then ok (s.next p i) s else fault

  unfoldable pub store_next : Ptr → ℕ → Link → Cmd E (Unit {0})
  store_next p i l s =
      if in_bounds s p i then ok tt (record s { next = update₂ s.next p i l }) else fault

  -- `_skip_atomic_cas_strong` on a forward pointer
  unfoldable pub cas_next : Ptr → ℕ → Link → Link → Cmd E Bool
  unfolding load_next store_next
  cas_next p i expected desired = do
    l ← load_next p i
    if link_eq expected l then (do store_next p i desired; pure true) else pure false

  unfoldable pub load_entry : Ptr → Cmd E E
  load_entry p s = if s.live p then ok (s.entry p) s else fault

  unfoldable pub load_era : Ptr → Cmd E ℕ
  load_era p s = if s.live p then ok (s.era p) s else fault

  unfoldable pub load_height : Ptr → Cmd E ℕ
  load_height p s = if s.live p then ok (s.height p) s else fault

  unfoldable pub store_height : Ptr → ℕ → Cmd E (Unit {0})
  store_height p h s = if s.live p then ok tt (record s { height = update s.height p h }) else fault

  unfoldable pub load_prev : Ptr → Cmd E Ptr
  load_prev p s = if s.live p then ok (s.prev p) s else fault

  unfoldable pub store_prev : Ptr → Ptr → Cmd E (Unit {0})
  store_prev p q s = if s.live p then ok tt (record s { prev = update s.prev p q }) else fault

  -- `_skip_atomic_cas_strong` on a backward pointer
  unfoldable pub cas_prev : Ptr → Ptr → Ptr → Cmd E Bool
  unfolding load_prev store_prev
  cas_prev p expected desired = do
    q ← load_prev p
    if expected == q then (do store_prev p desired; pure true) else pure false

  unfoldable pub store_hits : Ptr → ℕ → ℕ → Cmd E (Unit {0})
  store_hits p i n s =
      if in_bounds s p i then ok tt (record s { hits = update₂ s.hits p i n }) else fault

  -- `_skip_atomic_fetch_add` on a hit counter
  unfoldable pub add_hit : Ptr → ℕ → Cmd E (Unit {0})
  add_hit p i s =
      if in_bounds s p i
      then ok tt (record s { hits = update₂ s.hits p i ((s.hits p i + 1) % size_mod) })
      else fault

  unfoldable pub load_hits : Ptr → ℕ → Cmd E ℕ
  load_hits p i s = if in_bounds s p i then ok (s.hits p i) s else fault
