-- ===== src/Reclaim.antt =====
-- Epoch-based reclamation of include/sl.h, SKIPLIST_DECL_EBR: the registration of threads, pin and
-- unpin, retire, the advance of the epoch and drain, as the steps of threads that interleave in any
-- order. A step is one access to shared memory, or one section under a lock of a retire list. Memory is
-- sequentially consistent. The epoch stays below 2 ^ 64.
pub mod Advance
pub mod Drain
pub mod Evolve
pub mod Invariant
pub mod Moved
pub mod Outside
pub mod Pinned
pub mod Retire
pub mod Safety
pub mod Quiet
use skiplist.Base.{
  ℕ, ◌+◌, ◌-◌, ◌%◌, ◌≤◌, ◌<◌, ◌≡◌, ◌≢◌, ◌⊎◌, Bool, true, false, ◌||◌, List, [], ◌∷◌, ltb, ◌==◌,
  if◌then◌else◌,
}
use skiplist.Store.{Ptr, size_mod, update, update₂}

-- SKIPLIST_EBR_MAX_THREADS
abbrev pub max_threads : ℕ
max_threads = 128

-- Where the thread of a slot stands.
pub data Pc : Type 0 where
  -- the slot has no thread; skip_ebr_register_ has claimed it, reset its epoch, reset its flag
  vacant claimed cleared registered : Pc
  -- between the calls, not pinned, and inside skip_ebr_unregister_
  idle leaving : Pc
  -- skip_ebr_pin_: the flag is set, the epoch is loaded
  announced : Pc
  loaded : ℕ → Pc
  pinned : Pc
  -- skip_ebr_retire_ of a node that is unlinked; its epoch is loaded
  retiring : Ptr → Pc
  stamped : Ptr → ℕ → Pc
  -- _skip_ebr_try_advance_: the start, cur_epoch, tc and i of the loop, the flag of i seen
  advancing : Pc
  checked : ℕ → Pc
  scanning : ℕ → ℕ → ℕ → Pc
  seen : ℕ → ℕ → ℕ → Pc
  -- the epoch is now this one
  reclaiming : ℕ → Pc

-- The EBR state, with each thread's place. The retire lists hold the node and the epoch of its
-- bucket. `unlinked`, `held` and `freed` are what the program around does: the nodes taken out of
-- the list, the nodes a thread has a pointer to, and those given to skip_free_node_.
pub record Ebr : Type 0 where
  pub global_epoch : ℕ
  pub local_epoch : ℕ → ℕ
  pub active : ℕ → Bool
  pub in_use : ℕ → Bool
  pub thread_count : ℕ
  pub retire_lists : ℕ → List (Ptr × ℕ)
  pub pc : ℕ → Pc
  pub unlinked : Ptr → Bool
  pub held : ℕ → Ptr → Bool
  pub freed : Ptr → Bool

abbrev pub lists : Ptr → List (Ptr × ℕ) → Bool
lists x [] = false
lists x (r ∷ rs) = (r.0 == x) || lists x rs

-- skip_ebr_init_, over a list whose nodes nobody has reached
abbrev pub init : Ebr
init = record {
  global_epoch = 1;
  local_epoch = λ t. 0;
  active = λ t. false;
  in_use = λ t. false;
  thread_count = 0;
  retire_lists = λ b. [];
  pc = λ t. Pc.vacant;
  unlinked = λ x. false;
  held = λ t x. false;
  freed = λ x. false;
}

pub data Step (s : Ebr) : Ebr → Type 0 where
  claim :
      (t : ℕ)
      → t < max_threads
      → s.in_use t ≡ false
      → Step s (record s { in_use = update s.in_use t true; pc = update s.pc t Pc.claimed })
  reset_epoch :
      (t : ℕ)
      → s.pc t ≡ Pc.claimed
      → Step s (record s { local_epoch = update s.local_epoch t 0; pc = update s.pc t Pc.cleared })
  reset_active :
      (t : ℕ)
      → s.pc t ≡ Pc.cleared
      → Step s (record s { active = update s.active t false; pc = update s.pc t Pc.registered })
  -- the swap that ends the loop on thread_count, or none when it is high enough
  raise :
      (t : ℕ)
      → s.pc t ≡ Pc.registered
      → Step s (record s {
        thread_count = if ltb s.thread_count (t + 1) then t + 1 else s.thread_count;
        pc = update s.pc t Pc.idle;
      })
  leave :
      (t : ℕ)
      → s.pc t ≡ Pc.idle
      → Step s (record s { active = update s.active t false; pc = update s.pc t Pc.leaving })
  release :
      (t : ℕ)
      → s.pc t ≡ Pc.leaving
      → Step s (record s { in_use = update s.in_use t false; pc = update s.pc t Pc.vacant })
  announce :
      (t : ℕ)
      → s.pc t ≡ Pc.idle
      → s.in_use t ≡ true
      → Step s (record s { active = update s.active t true; pc = update s.pc t Pc.announced })
  load_epoch :
      (t : ℕ)
      → s.pc t ≡ Pc.announced
      → Step s (record s { pc = update s.pc t (Pc.loaded s.global_epoch) })
  publish_epoch :
      (t ge : ℕ)
      → s.pc t ≡ Pc.loaded ge
      → Step s (record s { local_epoch = update s.local_epoch t ge; pc = update s.pc t Pc.pinned })
  -- a pinned thread reaches a node that is still in the list
  reach :
      (t : ℕ) (x : Ptr)
      → s.pc t ≡ Pc.pinned
      → s.unlinked x ≡ false
      → Step s (record s { held = update₂ s.held t x true; pc = update s.pc t Pc.pinned })
  -- a pinned thread takes a node out of the list at all its levels, and retires it
  unlink :
      (t : ℕ) (x : Ptr)
      → s.pc t ≡ Pc.pinned
      → s.unlinked x ≡ false
      → Step s
          (record s { unlinked = update s.unlinked x true; pc = update s.pc t (Pc.retiring x) })
  stamp :
      (t : ℕ) (x : Ptr)
      → s.pc t ≡ Pc.retiring x
      → Step s (record s { pc = update s.pc t (Pc.stamped x s.global_epoch) })
  -- malloc returns NULL: the node leaks
  leak :
      (t : ℕ) (x : Ptr) (e : ℕ)
      → s.pc t ≡ Pc.stamped x e
      → Step s (record s { pc = update s.pc t Pc.pinned })
  push :
      (t : ℕ) (x : Ptr) (e : ℕ)
      → s.pc t ≡ Pc.stamped x e
      → Step s (record s {
        retire_lists = update s.retire_lists (e % 3) ((x, e) ∷ s.retire_lists (e % 3));
        pc = update s.pc t Pc.advancing;
      })
  load_global :
      (t : ℕ)
      → s.pc t ≡ Pc.advancing
      → Step s (record s { pc = update s.pc t (Pc.checked s.global_epoch) })
  load_count :
      (t cur : ℕ)
      → s.pc t ≡ Pc.checked cur
      → Step s (record s { pc = update s.pc t (Pc.scanning cur s.thread_count 0) })
  skip_inactive :
      (t cur tc i : ℕ)
      → s.pc t ≡ Pc.scanning cur tc i
      → i < tc
      → s.active i ≡ false
      → Step s (record s { pc = update s.pc t (Pc.scanning cur tc (i + 1)) })
  see_active :
      (t cur tc i : ℕ)
      → s.pc t ≡ Pc.scanning cur tc i
      → i < tc
      → s.active i ≡ true
      → Step s (record s { pc = update s.pc t (Pc.seen cur tc i) })
  stay_behind :
      (t cur tc i : ℕ)
      → s.pc t ≡ Pc.seen cur tc i
      → s.local_epoch i < cur
      → Step s (record s { pc = update s.pc t Pc.pinned })
  caught_up :
      (t cur tc i : ℕ)
      → s.pc t ≡ Pc.seen cur tc i
      → cur ≤ s.local_epoch i
      → Step s (record s { pc = update s.pc t (Pc.scanning cur tc (i + 1)) })
  -- the swap of the epoch, lost and won
  lose :
      (t cur tc i : ℕ)
      → s.pc t ≡ Pc.scanning cur tc i
      → tc ≤ i
      → s.global_epoch ≢ cur
      → Step s (record s { pc = update s.pc t Pc.pinned })
  advance :
      (t cur tc i : ℕ)
      → s.pc t ≡ Pc.scanning cur tc i
      → tc ≤ i
      → s.global_epoch ≡ cur
      → cur + 1 < size_mod
      → Step s (record s { global_epoch = cur + 1; pc = update s.pc t (Pc.reclaiming (cur + 1)) })
  too_early :
      (t k : ℕ)
      → s.pc t ≡ Pc.reclaiming k
      → k < 2
      → Step s (record s { pc = update s.pc t Pc.pinned })
  reclaim :
      (t k : ℕ)
      → s.pc t ≡ Pc.reclaiming k
      → 2 ≤ k
      → Step s (record s {
        retire_lists = update s.retire_lists ((k - 2) % 3) [];
        freed = λ x. s.freed x || lists x (s.retire_lists ((k - 2) % 3));
        pc = update s.pc t Pc.pinned;
      })
  -- skip_ebr_drain_ at one of its lists, when no thread is between pin and unpin
  drain :
      (b : ℕ)
      → b < 3
      → ((t : ℕ) → (s.pc t ≡ Pc.idle) ⊎ (s.pc t ≡ Pc.vacant))
      → Step s (record s {
        retire_lists = update s.retire_lists b [];
        freed = λ x. s.freed x || lists x (s.retire_lists b);
      })
  -- the thread gives up its pointers
  unpin :
      (t : ℕ)
      → s.pc t ≡ Pc.pinned
      → s.in_use t ≡ true
      → Step s (record s {
        active = update s.active t false;
        held = update s.held t (λ x. false);
        pc = update s.pc t Pc.idle;
      })

pub data Reach : Ebr → Type 0 where
  start : Reach init
  later : {s s' : Ebr} → Reach s → Step s s' → Reach s'
