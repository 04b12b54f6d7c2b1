-- ===== src/Reclaim/Pinned.antt =====
-- Steps of a thread from the load of its epoch to the end of its pin.
use skiplist.Base.{
  ℕ, ◌≤◌, ◌≡◌, ◌≢◌, ◌⊎◌, inl, inr, Bool, true, false, List, arith, ap, refl, sym, ◌∙◌, ==_self,
  ==_ne,
}
use skiplist.Store.{Ptr, update}
use skiplist.Reclaim.{Pc, Ebr}
use skiplist.Reclaim.Invariant.{engaged, flagged, counted, view, view_of, Inv}
use skiplist.Reclaim.Evolve.{filed-Evolves}
use skiplist.Reclaim.Quiet.{engaged-flagged, engaged-counted}
use skiplist.Reclaim.Moved.{Move, after-Evolves, after-Inv}

module _ (s : Ebr) (inv : Inv s) (t : ℕ) where
  pub load_epoch-Inv :
      s.pc t ≡ Pc.announced → Inv (record s { pc = update s.pc t (Pc.loaded s.global_epoch) })
  load_epoch-Inv at =
      let p' = Pc.loaded s.global_epoch in
      let m : Move s inv t p' s.local_epoch s.active s.in_use s.thread_count s.retire_lists
          s.unlinked s.held s.freed =
        record {
          same_local = λ u d. refl;
          same_active = λ u d. refl;
          same_in_use = λ u d. refl;
          more = omega arith;
          view_at = λ e. inr (ap engaged at, refl);
          past_at = inv.past t;
          below_at = λ e. inv.below t (ap counted at);
          owned_at = λ e. let free = inv.owned t e in absurd cc;
          flags_at = λ e. inv.flags t (ap flagged at);
          gone = λ x e. e;
          holds_at = λ x e. refl;
          holds = λ u x e. inl e;
          same_held = λ u x d. refl;
        } in
      let s' = record s { pc = update s.pc t p' } in
      let ev =
        after-Evolves s inv t p' s.local_epoch s.active s.in_use s.thread_count s.retire_lists
          s.unlinked s.held s.freed m in
      after-Inv s inv t p' s.local_epoch s.active s.in_use s.thread_count s.retire_lists s.unlinked
        s.held s.freed m (inv.past t)
        (λ b. filed-Evolves s s' inv ev b (s.retire_lists b) (inv.filed b)) inv.safe

  -- The thread is pinned before the step, and a step keeps its own epoch.
  module _ (on : engaged (s.pc t) ≡ true) (p' : Pc) (on' : engaged p' ≡ true) (local' : ℕ → ℕ)
      (same_local : (u : ℕ) → u ≢ t → local' u ≡ s.local_epoch u)
      (at : view p' (local' t) ≡ view_of s t) (past_at : local' t ≤ s.global_epoch)
      (lists' : ℕ → List (Ptr × ℕ)) (unlinked' : Ptr → Bool) (held' : ℕ → Ptr → Bool)
      (freed' : Ptr → Bool) (gone : (x : Ptr) → s.unlinked x ≡ true → unlinked' x ≡ true)
      (holds : (u : ℕ) (x : Ptr) → held' u x ≡ true → (s.held u x ≡ true) ⊎ (s.unlinked x ≡ false))
      (same_held : (u : ℕ) (x : Ptr) → u ≢ t → held' u x ≡ s.held u x) where
    pub stays :
        Move s inv t p' local' s.active s.in_use s.thread_count lists' unlinked' held' freed'
    stays = record {
      same_local = same_local;
      same_active = λ u d. refl;
      same_in_use = λ u d. refl;
      more = omega arith;
      view_at = λ e. inl (on, at);
      past_at = past_at;
      below_at = λ e. inv.below t (engaged-counted (s.pc t) on);
      owned_at = λ e. let free = inv.owned t e in let off = ap engaged free in absurd cc;
      flags_at = λ e. inv.flags t (engaged-flagged (s.pc t) on);
      gone = gone;
      holds_at = λ x e. on';
      holds = holds;
      same_held = same_held;
    }

  pub publish_epoch-Inv :
      (ge : ℕ)
      → s.pc t ≡ Pc.loaded ge
      → Inv (record s { local_epoch = update s.local_epoch t ge; pc = update s.pc t Pc.pinned })
  publish_epoch-Inv ge at =
      let on = ap engaged at in
      let local' = update s.local_epoch t ge in
      let ge_view : view_of s t ≡ ge = ap (λ p. view p (s.local_epoch t)) at in
      let own : local' t ≡ ge = rw (==_self t) in
      let m =
        stays on Pc.pinned refl local' (λ u d. rw (==_ne d)) (own ∙ sym ge_view)
          (let low = (inv.current t on).0 in omega (arith, own, ge_view)) s.retire_lists s.unlinked
          s.held s.freed (λ x e. e) (λ u x e. inl e) (λ u x d. refl) in
      let s' = record s { local_epoch = local'; pc = update s.pc t Pc.pinned } in
      let ev =
        after-Evolves s inv t Pc.pinned local' s.active s.in_use s.thread_count s.retire_lists
          s.unlinked s.held s.freed m in
      after-Inv s inv t Pc.pinned local' s.active s.in_use s.thread_count s.retire_lists s.unlinked
        s.held s.freed m tt (λ b. filed-Evolves s s' inv ev b (s.retire_lists b) (inv.filed b))
        inv.safe
