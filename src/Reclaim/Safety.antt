-- ===== src/Reclaim/Safety.antt =====
-- No node is freed while a thread holds a pointer to it.
use skiplist.Base.{
  ℕ, ◌+◌, ◌≤◌, ◌≡◌, inl, inr, true, false, arith, ap, subst, refl, sym, ◌∙◌, ltb, Bool-cases, ◌≢◌,
}
use skiplist.Store.{Ptr, update}
use skiplist.Reclaim.{Pc, Ebr, init, Step, Reach}
use skiplist.Reclaim.Invariant.{engaged, view, view_of, Doomed, Scanned, Duty, Inv}
use skiplist.Reclaim.Quiet.{quiet, engaged-flagged, engaged-counted}
use skiplist.Reclaim.Outside.{
  claim-Inv, reset_epoch-Inv, reset_active-Inv, raise-Inv, leave-Inv, release-Inv, announce-Inv,
}
use skiplist.Reclaim.Pinned.{load_epoch-Inv, publish_epoch-Inv}
use skiplist.Reclaim.Retire.{reach-Inv, unlink-Inv, push-Inv, reclaim-Inv}
use skiplist.Reclaim.Drain.{drain-Inv}
use skiplist.Reclaim.Advance.{unpin-Inv, advance-Inv}

pub init-Inv : Inv init
init-Inv = record {
  current = λ t e. absurd cc;
  past = λ t. omega arith;
  below = λ t e. absurd cc;
  owned = λ t e. refl;
  flags = λ t e. absurd cc;
  holders = λ t x e. absurd cc;
  duties = λ t. tt;
  filed = λ b. tt;
  safe = λ x e. absurd cc;
}

module _ (s : Ebr) (inv : Inv s) (t : ℕ) where
  -- A quiet step from a known place.
  quietly :
      (p p' : Pc)
      → s.pc t ≡ p
      → engaged p ≡ true
      → view p (s.local_epoch t) ≡ s.local_epoch t
      → engaged p' ≡ true
      → view p' (s.local_epoch t) ≡ s.local_epoch t
      → (Duty s t p → Duty s t p')
      → Inv (record s { pc = update s.pc t p' })
  quietly p p' at on v on' v' own =
      quiet s inv t (rw at on) (rw at v) p' on' v' (own (subst (Duty s t) at (inv.duties t)))

  -- The scan has passed one thread more.
  passed :
      (cur tc i : ℕ)
      → (s.global_epoch ≡ cur → engaged (s.pc i) ≡ true → cur ≤ view_of s i)
      → Scanned s cur tc i
      → Scanned s cur tc (i + 1)
  passed cur tc i last d = record {
    past = d.past;
    ready = λ now u k on. elim k [
      | inr high ↦ d.ready now u (inr high) on
      | inl low ↦ elim (Bool-cases (ltb u i)) [
        | inl below ↦ d.ready now u (inl (ground arith)) on
        | inr it ↦ let here : u ≡ i = ground arith in rw here (last now (rw here at on))
      ]
    ];
  }

  counted_all : (cur : ℕ) → cur ≤ s.global_epoch → Scanned s cur s.thread_count 0
  counted_all cur h = record {
    past = h;
    ready =
        λ now u k on. let low = inv.below u (engaged-counted (s.pc u) on) in absurd (ground arith);
  }

  inactive_passed :
      (cur tc i : ℕ) → s.active i ≡ false → Scanned s cur tc i → Scanned s cur tc (i + 1)
  inactive_passed cur tc i off =
      passed cur tc i (λ now on. let flag = inv.flags i (engaged-flagged (s.pc i) on) in absurd cc)

  local-view : (u : ℕ) (p : Pc) → Duty s u p → s.local_epoch u ≤ view p (s.local_epoch u)
  local-view u (Pc.loaded ge) d = d
  local-view u Pc.vacant d = omega arith
  local-view u Pc.claimed d = omega arith
  local-view u Pc.cleared d = omega arith
  local-view u Pc.registered d = omega arith
  local-view u Pc.idle d = omega arith
  local-view u Pc.leaving d = omega arith
  local-view u Pc.announced d = omega arith
  local-view u Pc.pinned d = omega arith
  local-view u (Pc.retiring x) d = omega arith
  local-view u (Pc.stamped x e) d = omega arith
  local-view u Pc.advancing d = omega arith
  local-view u (Pc.checked cur) d = omega arith
  local-view u (Pc.scanning cur tc i) d = omega arith
  local-view u (Pc.seen cur tc i) d = omega arith
  local-view u (Pc.reclaiming k) d = omega arith

  active_passed :
      (cur tc i : ℕ) → cur ≤ s.local_epoch i → Scanned s cur tc i → Scanned s cur tc (i + 1)
  active_passed cur tc i low =
      passed cur tc i (λ now on. let up = local-view i (s.pc i) (inv.duties i) in omega arith)

  stamped-Doomed : (x : Ptr) → s.unlinked x ≡ true → Doomed s x s.global_epoch
  stamped-Doomed x gone = record {
    past = omega arith;
    gone = gone;
    early = λ u h. (inv.current u (inv.holders u x h)).0;
  }

taken : (p : Pc) → p ≢ Pc.vacant → {q : Pc} → q ≡ p → q ≢ Pc.vacant
taken p d e k = d (sym e ∙ k)

pub Step-Inv : (s s' : Ebr) → Inv s → Step s s' → Inv s'
Step-Inv s _ inv (Step.claim t low free) = claim-Inv s inv t (ap engaged (inv.owned t free))
Step-Inv s _ inv (Step.reset_epoch t at) =
    reset_epoch-Inv s inv t (ap engaged at) (taken Pc.claimed (λ e. cc) at)
Step-Inv s _ inv (Step.reset_active t at) =
    reset_active-Inv s inv t (ap engaged at) (taken Pc.cleared (λ e. cc) at)
Step-Inv s _ inv (Step.raise t at) =
    raise-Inv s inv t (ap engaged at) (taken Pc.registered (λ e. cc) at)
Step-Inv s _ inv (Step.leave t at) = leave-Inv s inv t (ap engaged at) at
Step-Inv s _ inv (Step.release t at) = release-Inv s inv t (ap engaged at)
Step-Inv s _ inv (Step.announce t at used) = announce-Inv s inv t (ap engaged at) at
Step-Inv s _ inv (Step.load_epoch t at) = load_epoch-Inv s inv t at
Step-Inv s _ inv (Step.publish_epoch t ge at) = publish_epoch-Inv s inv t ge at
Step-Inv s _ inv (Step.reach t x at linked) = reach-Inv s inv t at x linked
Step-Inv s _ inv (Step.unlink t x at linked) = unlink-Inv s inv t at x linked
Step-Inv s _ inv (Step.stamp t x at) =
    quietly s inv t (Pc.retiring x) (Pc.stamped x s.global_epoch) at refl refl refl refl
      (stamped-Doomed s inv t x)
Step-Inv s _ inv (Step.leak t x e at) =
    quietly s inv t (Pc.stamped x e) Pc.pinned at refl refl refl refl (λ d. tt)
Step-Inv s _ inv (Step.push t x e at) = push-Inv s inv t x e at
Step-Inv s _ inv (Step.load_global t at) =
    quietly s inv t Pc.advancing (Pc.checked s.global_epoch) at refl refl refl refl
      (λ d. omega arith)
Step-Inv s _ inv (Step.load_count t cur at) =
    quietly s inv t (Pc.checked cur) (Pc.scanning cur s.thread_count 0) at refl refl refl refl
      (counted_all s inv t cur)
Step-Inv s _ inv (Step.skip_inactive t cur tc i at low off) =
    quietly s inv t (Pc.scanning cur tc i) (Pc.scanning cur tc (i + 1)) at refl refl refl refl
      (inactive_passed s inv t cur tc i off)
Step-Inv s _ inv (Step.see_active t cur tc i at low on) =
    quietly s inv t (Pc.scanning cur tc i) (Pc.seen cur tc i) at refl refl refl refl (λ d. d)
Step-Inv s _ inv (Step.stay_behind t cur tc i at low) =
    quietly s inv t (Pc.seen cur tc i) Pc.pinned at refl refl refl refl (λ d. tt)
Step-Inv s _ inv (Step.caught_up t cur tc i at low) =
    quietly s inv t (Pc.seen cur tc i) (Pc.scanning cur tc (i + 1)) at refl refl refl refl
      (active_passed s inv t cur tc i low)
Step-Inv s _ inv (Step.lose t cur tc i at end other) =
    quietly s inv t (Pc.scanning cur tc i) Pc.pinned at refl refl refl refl (λ d. tt)
Step-Inv s _ inv (Step.advance t cur tc i at end now small) =
    advance-Inv s inv t cur tc i at end now
Step-Inv s _ inv (Step.too_early t k at low) =
    quietly s inv t (Pc.reclaiming k) Pc.pinned at refl refl refl refl (λ d. tt)
Step-Inv s _ inv (Step.reclaim t k at two) = reclaim-Inv s inv t k at two
Step-Inv s _ inv (Step.drain b low quiet) = drain-Inv s inv b quiet
Step-Inv s _ inv (Step.unpin t at used) = unpin-Inv s inv t at

Reach-Inv : (s : Ebr) → Reach s → Inv s
Reach-Inv _ Reach.start = init-Inv
Reach-Inv s' (Reach.later {s} run step) = Step-Inv s s' (Reach-Inv s run) step

-- In every state that the threads reach, in any interleaving, a node that has been freed is out of
-- the list, and no thread holds a pointer to it.
pub freed-unheld :
    (s : Ebr)
    → Reach s
    → (x : Ptr) → s.freed x ≡ true
    → (s.unlinked x ≡ true) × ((t : ℕ) → s.held t x ≡ false)
freed-unheld s run = (Reach-Inv s run).safe

-- In every such state the epoch of a pinned thread is the present one or the one before.
pub pinned-current :
    (s : Ebr)
    → Reach s
    → (t : ℕ) → s.pc t ≡ Pc.pinned
    → (s.local_epoch t ≤ s.global_epoch) × (s.global_epoch ≤ s.local_epoch t + 1)
pinned-current s run t at =
    let inv = Reach-Inv s run in
    let (low, high) = inv.current t (ap engaged at) in
    let same : view_of s t ≡ s.local_epoch t = ap (λ p. view p (s.local_epoch t)) at in
    (omega arith, omega arith)
