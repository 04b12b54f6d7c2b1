-- ===== src/Reclaim/Outside.antt =====
-- Steps of a thread that is not pinned: registration, the start of a pin, and the end.
use skiplist.Base.{
  ℕ, ◌+◌, ◌≤◌, ◌<◌, ◌≡◌, ◌≢◌, inl, Bool, true, false, arith, ap, refl, ltb, if◌then◌else◌, ==_self,
  ==_ne,
}
use skiplist.Store.{update}
use skiplist.Reclaim.{Pc, Ebr}
use skiplist.Reclaim.Invariant.{engaged, flagged, counted, Duty, Inv}
use skiplist.Reclaim.Evolve.{filed-Evolves}
use skiplist.Reclaim.Moved.{after, Move, after-Evolves, after-Inv}

module _ (s : Ebr) (inv : Inv s) (t : ℕ) (off : engaged (s.pc t) ≡ false) where
  -- The thread is not pinned before nor behind the step.
  rest :
      (p' : Pc) (local' : ℕ → ℕ) (active' in_use' : ℕ → Bool) (n' : ℕ)
      → engaged p' ≡ false
      → ((u : ℕ) → u ≢ t → local' u ≡ s.local_epoch u)
      → ((u : ℕ) → u ≢ t → active' u ≡ s.active u)
      → ((u : ℕ) → u ≢ t → in_use' u ≡ s.in_use u)
      → s.thread_count ≤ n'
      → local' t ≤ s.global_epoch
      → (counted p' ≡ true → t < n')
      → (in_use' t ≡ false → p' ≡ Pc.vacant)
      → (flagged p' ≡ true → active' t ≡ true)
      → ((s'' : Ebr) → Duty s'' t p')
      → Inv (after s inv t p' local' active' in_use' n' s.retire_lists s.unlinked s.held s.freed)
  rest p' local' active' in_use' n' off' same_local same_active same_in_use more past_at below_at
        owned_at flags_at duty =
      let m : Move s inv t p' local' active' in_use' n' s.retire_lists s.unlinked s.held s.freed =
        record {
          same_local = same_local;
          same_active = same_active;
          same_in_use = same_in_use;
          more = more;
          view_at = λ e. absurd cc;
          past_at = past_at;
          below_at = below_at;
          owned_at = owned_at;
          flags_at = flags_at;
          gone = λ x e. e;
          holds_at = λ x e. let on = inv.holders t x e in absurd cc;
          holds = λ u x e. inl e;
          same_held = λ u x d. refl;
        } in
      let s' =
        after s inv t p' local' active' in_use' n' s.retire_lists s.unlinked s.held s.freed in
      after-Inv s inv t p' local' active' in_use' n' s.retire_lists s.unlinked s.held s.freed m
        (duty s')
        (λ b.
          filed-Evolves s s' inv
            (after-Evolves s inv t p' local' active' in_use' n' s.retire_lists s.unlinked s.held
              s.freed m)
            b (s.retire_lists b) (inv.filed b))
        inv.safe

  elsewhere : {A : Type 0} (f : ℕ → A) (v : A) (u : ℕ) → u ≢ t → update f t v u ≡ f u
  elsewhere f v u d = rw (==_ne d)

  here : {A : Type 0} (f : ℕ → A) (v : A) → update f t v t ≡ v
  here f v = rw (==_self t)

  -- The steps of skip_ebr_register_ and skip_ebr_unregister_, and the flag of skip_ebr_pin_.
  pub claim-Inv : Inv (record s { in_use = update s.in_use t true; pc = update s.pc t Pc.claimed })
  claim-Inv =
      rest Pc.claimed s.local_epoch s.active (update s.in_use t true) s.thread_count refl
        (λ u d. refl) (λ u d. refl) (elsewhere s.in_use true) (omega arith) (inv.past t)
        (λ e. absurd cc) (λ e. let k = here s.in_use true in absurd cc) (λ e. absurd cc) (λ s''. tt)

  pub reset_epoch-Inv :
      s.pc t ≢ Pc.vacant
      → Inv (record s { local_epoch = update s.local_epoch t 0; pc = update s.pc t Pc.cleared })
  reset_epoch-Inv taken =
      rest Pc.cleared (update s.local_epoch t 0) s.active s.in_use s.thread_count refl
        (elsewhere s.local_epoch 0) (λ u d. refl) (λ u d. refl) (omega arith)
        (rw (here s.local_epoch 0) (omega arith)) (λ e. absurd cc)
        (λ e. absurd (taken (inv.owned t e))) (λ e. absurd cc) (λ s''. tt)

  pub reset_active-Inv :
      s.pc t ≢ Pc.vacant
      → Inv (record s { active = update s.active t false; pc = update s.pc t Pc.registered })
  reset_active-Inv taken =
      rest Pc.registered s.local_epoch (update s.active t false) s.in_use s.thread_count refl
        (λ u d. refl) (elsewhere s.active false) (λ u d. refl) (omega arith) (inv.past t)
        (λ e. absurd cc) (λ e. absurd (taken (inv.owned t e))) (λ e. absurd cc) (λ s''. tt)

  pub raise-Inv :
      s.pc t ≢ Pc.vacant
      → Inv (record s {
        thread_count = if ltb s.thread_count (t + 1) then t + 1 else s.thread_count;
        pc = update s.pc t Pc.idle;
      })
  raise-Inv taken =
      rest Pc.idle s.local_epoch s.active s.in_use
        (if ltb s.thread_count (t + 1) then t + 1 else s.thread_count) refl (λ u d. refl)
        (λ u d. refl) (λ u d. refl) (ground arith) (inv.past t) (λ e. ground arith)
        (λ e. absurd (taken (inv.owned t e))) (λ e. absurd cc) (λ s''. tt)

  pub leave-Inv :
      s.pc t ≡ Pc.idle
      → Inv (record s { active = update s.active t false; pc = update s.pc t Pc.leaving })
  leave-Inv at =
      rest Pc.leaving s.local_epoch (update s.active t false) s.in_use s.thread_count refl
        (λ u d. refl) (elsewhere s.active false) (λ u d. refl) (omega arith) (inv.past t)
        (λ e. inv.below t (ap counted at)) (λ e. let free = inv.owned t e in absurd cc)
        (λ e. absurd cc) (λ s''. tt)

  pub release-Inv :
      Inv (record s { in_use = update s.in_use t false; pc = update s.pc t Pc.vacant })
  release-Inv =
      rest Pc.vacant s.local_epoch s.active (update s.in_use t false) s.thread_count refl
        (λ u d. refl) (λ u d. refl) (elsewhere s.in_use false) (omega arith) (inv.past t)
        (λ e. absurd cc) (λ e. refl) (λ e. absurd cc) (λ s''. tt)

  pub announce-Inv :
      s.pc t ≡ Pc.idle
      → Inv (record s { active = update s.active t true; pc = update s.pc t Pc.announced })
  announce-Inv at =
      rest Pc.announced s.local_epoch (update s.active t true) s.in_use s.thread_count refl
        (λ u d. refl) (elsewhere s.active true) (λ u d. refl) (omega arith) (inv.past t)
        (λ e. inv.below t (ap counted at)) (λ e. let free = inv.owned t e in absurd cc)
        (λ e. here s.active true) (λ s''. tt)
