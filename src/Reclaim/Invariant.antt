-- ===== src/Reclaim/Invariant.antt =====
-- What holds of the EBR state in every run.
use skiplist.Base.{ℕ, ◌+◌, ◌%◌, ◌≤◌, ◌<◌, ◌≡◌, ◌⊎◌, Bool, true, false, All}
use skiplist.Store.{Ptr}
use skiplist.Reclaim.{Pc, Ebr}

-- The thread has loaded an epoch for its pin, or it is pinned.
abbrev pub engaged : Pc → Bool
engaged Pc.vacant = false
engaged Pc.claimed = false
engaged Pc.cleared = false
engaged Pc.registered = false
engaged Pc.idle = false
engaged Pc.leaving = false
engaged Pc.announced = false
engaged _ = true

-- The flag of the thread is set.
abbrev pub flagged : Pc → Bool
flagged Pc.announced = true
flagged p = engaged p

-- The thread is counted in thread_count.
abbrev pub counted : Pc → Bool
counted Pc.idle = true
counted Pc.leaving = true
counted p = flagged p

-- The epoch of the thread's pin.
abbrev pub view : Pc → ℕ → ℕ
view (Pc.loaded ge) l = ge
view _ l = l

module _ (s : Ebr) where
  abbrev pub view_of : ℕ → ℕ
  view_of t = view (s.pc t) (s.local_epoch t)

  -- The node `x` may go once the epoch `e` is two behind.
  abbrev pub Doomed : Ptr → ℕ → Type 0
  Doomed x e = record {
    past : e ≤ s.global_epoch;
    gone : s.unlinked x ≡ true;
    early : (t : ℕ) → s.held t x ≡ true → view_of t ≤ e;
  }

  -- A thread that has passed the threads below `i`, of `tc`, with `cur` as the epoch.
  abbrev pub Scanned : ℕ → ℕ → ℕ → Type 0
  Scanned cur tc i = record {
    past : cur ≤ s.global_epoch;
    ready :
        s.global_epoch ≡ cur
        → (t : ℕ) → (t < i) ⊎ (tc ≤ t)
        → engaged (s.pc t) ≡ true
        → cur ≤ view_of t;
  }

  abbrev pub Duty : ℕ → Pc → Type 0
  Duty t (Pc.loaded ge) = s.local_epoch t ≤ ge
  Duty t (Pc.retiring x) = s.unlinked x ≡ true
  Duty t (Pc.stamped x e) = Doomed x e
  Duty t (Pc.checked cur) = cur ≤ s.global_epoch
  Duty t (Pc.scanning cur tc i) = Scanned cur tc i
  Duty t (Pc.seen cur tc i) = Scanned cur tc i
  Duty t (Pc.reclaiming k) = (k ≤ s.global_epoch) × (k ≡ s.local_epoch t + 1)
  Duty t _ = Unit

  abbrev pub Inv : Type 0
  Inv = record {
    current :
        (t : ℕ)
        → engaged (s.pc t) ≡ true
        → (view_of t ≤ s.global_epoch) × (s.global_epoch ≤ view_of t + 1);
    past : (t : ℕ) → s.local_epoch t ≤ s.global_epoch;
    below : (t : ℕ) → counted (s.pc t) ≡ true → t < s.thread_count;
    owned : (t : ℕ) → s.in_use t ≡ false → s.pc t ≡ Pc.vacant;
    flags : (t : ℕ) → flagged (s.pc t) ≡ true → s.active t ≡ true;
    holders : (t : ℕ) (x : Ptr) → s.held t x ≡ true → engaged (s.pc t) ≡ true;
    duties : (t : ℕ) → Duty t (s.pc t);
    filed : (b : ℕ) → All (λ r. (r.1 % 3 ≡ b) × Doomed r.0 r.1) (s.retire_lists b);
    safe : (x : Ptr) → s.freed x ≡ true → (s.unlinked x ≡ true) × ((t : ℕ) → s.held t x ≡ false);
  }
