-- ===== src/Reclaim/Moved.antt =====
-- Steps that leave the epoch as it is.
use skiplist.Base.{
  ℕ, ◌+◌, ◌%◌, ◌≤◌, ◌<◌, ◌≡◌, ◌≢◌, ◌⊎◌, inl, inr, Bool, true, false, List, All, arith, refl, ap,
  sym, ◌∙◌, ==_self, ==_ne,
}
use skiplist.Store.{Ptr, update}
use skiplist.Reclaim.{Pc, Ebr}
use skiplist.Reclaim.Invariant.{engaged, flagged, counted, view, view_of, Doomed, Duty, Inv}
use skiplist.Reclaim.Evolve.{Evolves, duties-Evolves}
use skiplist.Reclaim.Quiet.{pointwise}

module _ (s : Ebr) (inv : Inv s) (t : ℕ) (p' : Pc) (local' : ℕ → ℕ) (active' in_use' : ℕ → Bool)
    (n' : ℕ) (lists' : ℕ → List (Ptr × ℕ)) (unlinked' : Ptr → Bool) (held' : ℕ → Ptr → Bool)
    (freed' : Ptr → Bool) where
  abbrev pub after : Ebr
  after = record {
    global_epoch = s.global_epoch;
    local_epoch = local';
    active = active';
    in_use = in_use';
    thread_count = n';
    retire_lists = lists';
    pc = update s.pc t p';
    unlinked = unlinked';
    held = held';
    freed = freed';
  }

  -- What the thread `t` itself changes, and that it changes nothing of the others.
  abbrev pub Move : Type 0
  Move = record {
    same_local : (u : ℕ) → u ≢ t → local' u ≡ s.local_epoch u;
    same_active : (u : ℕ) → u ≢ t → active' u ≡ s.active u;
    same_in_use : (u : ℕ) → u ≢ t → in_use' u ≡ s.in_use u;
    more : s.thread_count ≤ n';
    view_at :
        engaged p' ≡ true
        → ((engaged (s.pc t) ≡ true) × (view p' (local' t) ≡ view_of s t))
          ⊎ ((engaged (s.pc t) ≡ false) × (view p' (local' t) ≡ s.global_epoch));
    past_at : local' t ≤ s.global_epoch;
    below_at : counted p' ≡ true → t < n';
    owned_at : in_use' t ≡ false → p' ≡ Pc.vacant;
    flags_at : flagged p' ≡ true → active' t ≡ true;
    gone : (x : Ptr) → s.unlinked x ≡ true → unlinked' x ≡ true;
    holds_at : (x : Ptr) → held' t x ≡ true → engaged p' ≡ true;
    holds : (u : ℕ) (x : Ptr) → held' u x ≡ true → (s.held u x ≡ true) ⊎ (s.unlinked x ≡ false);
    same_held : (u : ℕ) (x : Ptr) → u ≢ t → held' u x ≡ s.held u x;
  }

  module _ (m : Move) where
    pub after-Evolves : Evolves s after
    after-Evolves = record {
      epoch = omega arith;
      views =
          pointwise
            (λ u p.
              engaged p ≡ true
              → ((engaged (s.pc u) ≡ true) × (view p (local' u) ≡ view_of s u))
                ⊎ ((engaged (s.pc u) ≡ false)
                    × (view p (local' u) ≡ s.global_epoch)
                    × (s.global_epoch ≡ s.global_epoch)))
            s.pc t p' (λ e. elim (m.view_at e) [ inl k ↦ inl k | inr k ↦ inr (k.0, k.1, refl) ])
            (λ u d e. inl (e, ap (view (s.pc u)) (m.same_local u d)));
      gone = m.gone;
      holds = λ u x e. (
        pointwise (λ v p. held' v x ≡ true → engaged p ≡ true) s.pc t p' (m.holds_at x)
            (λ v d h. inv.holders v x (sym (m.same_held v x d) ∙ h)) u e,
        m.holds u x e,
      );
    }

    abbrev Filed : Type 0
    Filed = (b : ℕ) → All (λ r. (r.1 % 3 ≡ b) × Doomed after r.0 r.1) (lists' b)

    abbrev Safe : Type 0
    Safe = (x : Ptr) → freed' x ≡ true → (unlinked' x ≡ true) × ((u : ℕ) → held' u x ≡ false)

    current_at :
        engaged p' ≡ true
        → (view p' (local' t) ≤ s.global_epoch) × (s.global_epoch ≤ view p' (local' t) + 1)
    current_at e = elim (m.view_at e) [
      | inl (on, at) ↦
          let (low, high) = inv.current t on in (omega (arith, at, low), omega (arith, at, high))
      | inr (off, at) ↦ (omega arith, omega arith)
    ]

    pub after-Inv : Duty after t p' → Filed → Safe → Inv after
    after-Inv own filed' safe' = record {
      current =
          pointwise
            (λ u p.
              engaged p ≡ true
              → (view p (local' u) ≤ s.global_epoch) × (s.global_epoch ≤ view p (local' u) + 1))
            s.pc t p' current_at (λ u d. rw (m.same_local u d) (inv.current u));
      past =
          pointwise (λ u p. local' u ≤ s.global_epoch) s.pc t p' m.past_at
            (λ u d. rw (m.same_local u d) (inv.past u));
      below =
          pointwise (λ u p. counted p ≡ true → u < n') s.pc t p' m.below_at
            (λ u d e. let low = inv.below u e in omega (arith, m.more));
      owned =
          pointwise (λ u p. in_use' u ≡ false → p ≡ Pc.vacant) s.pc t p' m.owned_at
            (λ u d e. inv.owned u (sym (m.same_in_use u d) ∙ e));
      flags =
          pointwise (λ u p. flagged p ≡ true → active' u ≡ true) s.pc t p' m.flags_at
            (λ u d e. m.same_active u d ∙ inv.flags u e);
      holders = λ u x h. (after-Evolves.holds u x h).0;
      duties =
          duties-Evolves s after inv after-Evolves t (λ u d. (rw (==_ne d), m.same_local u d))
            (rw (==_self t) own);
      filed = filed';
      safe = safe';
    }
