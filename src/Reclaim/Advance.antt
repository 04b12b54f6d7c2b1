-- ===== src/Reclaim/Advance.antt =====
-- The end of a pin, and the swap of the epoch.
use skiplist.Base.{
  ℕ, ◌+◌, ◌≤◌, ◌<◌, ◌≡◌, ◌⊎◌, inl, inr, Bool, true, false, arith, ap, subst, refl, sym, ==_self,
  ==_ne, Bool-cases, ltb,
}
use skiplist.Store.{Ptr, update}
use skiplist.Reclaim.{Pc, Ebr}
use skiplist.Reclaim.Invariant.{engaged, flagged, counted, view, view_of, Scanned, Duty, Inv}
use skiplist.Reclaim.Evolve.{Evolves, duties-Evolves, filed-Evolves}
use skiplist.Reclaim.Quiet.{pointwise}
use skiplist.Reclaim.Moved.{Move, after-Evolves, after-Inv}

module _ (s : Ebr) (inv : Inv s) (t : ℕ) where
  pub unpin-Inv :
      s.pc t ≡ Pc.pinned
      → Inv (record s {
        active = update s.active t false;
        held = update s.held t (λ x. false);
        pc = update s.pc t Pc.idle;
      })
  unpin-Inv at =
      let active' = update s.active t false in
      let held' : ℕ → Ptr → Bool = update s.held t (λ x. false) in
      let own : (x : Ptr) → held' t x ≡ false = λ x. rw (==_self t) in
      let less : (u : ℕ) (x : Ptr) → held' u x ≡ true → s.held u x ≡ true =
        pointwise (λ u h. (x : Ptr) → h x ≡ true → s.held u x ≡ true) s.held t (λ x. false)
          (λ x e. absurd cc) (λ u d x e. e) in
      let m : Move s inv t Pc.idle s.local_epoch active' s.in_use s.thread_count s.retire_lists
          s.unlinked held' s.freed =
        record {
          same_local = λ u d. refl;
          same_active = λ u d. rw (==_ne d);
          same_in_use = λ u d. refl;
          more = omega arith;
          view_at = λ e. absurd cc;
          past_at = inv.past t;
          below_at = λ e. inv.below t (ap counted at);
          owned_at = λ e. let free = inv.owned t e in absurd cc;
          flags_at = λ e. absurd cc;
          gone = λ x e. e;
          holds_at = λ x e. let none = own x in absurd cc;
          holds = λ u x e. inl (less u x e);
          same_held = λ u x d. rw (==_ne d);
        } in
      let s' = record s { active = active'; held = held'; pc = update s.pc t Pc.idle } in
      let ev =
        after-Evolves s inv t Pc.idle s.local_epoch active' s.in_use s.thread_count s.retire_lists
          s.unlinked held' s.freed m in
      after-Inv s inv t Pc.idle s.local_epoch active' s.in_use s.thread_count s.retire_lists
        s.unlinked held' s.freed m tt
        (λ b. filed-Evolves s s' inv ev b (s.retire_lists b) (inv.filed b))
        (λ x f.
          let (gone, none) = inv.safe x f in
          (
            gone,
            λ u. elim (Bool-cases (held' u x)) [
              | inr off ↦ off
              | inl on ↦ let h = less u x on in let no = none u in absurd cc
            ],
          ))

  module _ (cur tc i : ℕ) (at : s.pc t ≡ Pc.scanning cur tc i) (end : tc ≤ i)
      (now : s.global_epoch ≡ cur) where
    abbrev advanced : Ebr
    advanced = record s { global_epoch = cur + 1; pc = update s.pc t (Pc.reclaiming (cur + 1)) }

    scanned : Scanned s cur tc i
    scanned = subst (Duty s t) at (inv.duties t)

    -- All pinned threads have the present epoch.
    ready : (u : ℕ) → engaged (s.pc u) ≡ true → cur ≤ view_of s u
    ready u on = elim (Bool-cases (ltb u i)) [
      | inl low ↦ scanned.ready now u (inl (ground arith)) on
      | inr high ↦ scanned.ready now u (inr (ground arith)) on
    ]

    view_at : view_of s t ≡ s.local_epoch t
    view_at = ap (λ p. view p (s.local_epoch t)) at

    advanced-Evolves : Evolves s advanced
    advanced-Evolves = record {
      epoch = omega arith;
      views =
          pointwise
            (λ u p.
              engaged p ≡ true
              → ((engaged (s.pc u) ≡ true) × (view p (s.local_epoch u) ≡ view_of s u))
                ⊎ ((engaged (s.pc u) ≡ false)
                    × (view p (s.local_epoch u) ≡ s.global_epoch)
                    × (cur + 1 ≡ s.global_epoch)))
            s.pc t (Pc.reclaiming (cur + 1)) (λ e. inl (ap engaged at, sym view_at))
            (λ u d e. inl (e, refl));
      gone = λ x e. e;
      holds = λ u x e. (
        pointwise (λ v p. s.held v x ≡ true → engaged p ≡ true) s.pc t (Pc.reclaiming (cur + 1))
            (λ h. refl) (λ v d h. inv.holders v x h) u e,
        inl e,
      );
    }

    pub advance-Inv : Inv advanced
    advance-Inv =
        let on = ap engaged at in
        let own = ready t on in
        let old = inv.current t on in
        record {
          current =
              pointwise
                (λ u p.
                  engaged p ≡ true
                  → (view p (s.local_epoch u) ≤ cur + 1) × (cur + 1 ≤ view p (s.local_epoch u) + 1))
                s.pc t (Pc.reclaiming (cur + 1))
                (λ e. (omega (arith, own, view_at, old.0), omega (arith, own, view_at)))
                (λ u d e.
                  let low = (inv.current u e).0 in
                  let up = ready u e in (omega arith, omega arith));
          past = λ u. let low = inv.past u in omega arith;
          below =
              pointwise (λ u p. counted p ≡ true → u < s.thread_count) s.pc t
                (Pc.reclaiming (cur + 1)) (λ e. inv.below t (ap counted at)) (λ u d. inv.below u);
          owned =
              pointwise (λ u p. s.in_use u ≡ false → p ≡ Pc.vacant) s.pc t (Pc.reclaiming (cur + 1))
                (λ e. let free = inv.owned t e in absurd cc) (λ u d. inv.owned u);
          flags =
              pointwise (λ u p. flagged p ≡ true → s.active u ≡ true) s.pc t
                (Pc.reclaiming (cur + 1)) (λ e. inv.flags t (ap flagged at)) (λ u d. inv.flags u);
          holders = λ u x h. (advanced-Evolves.holds u x h).0;
          duties =
              duties-Evolves s advanced inv advanced-Evolves t (λ u d. (rw (==_ne d), refl))
                (rw (==_self t) (omega arith, omega (arith, own, view_at, old.0)));
          filed =
              λ b. filed-Evolves s advanced inv advanced-Evolves b (s.retire_lists b) (inv.filed b);
          safe = inv.safe;
        }
