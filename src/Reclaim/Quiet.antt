-- ===== src/Reclaim/Quiet.antt =====
-- Steps of a pinned thread that change nothing but its own place.
use skiplist.Base.{
  ℕ, ◌+◌, ◌≤◌, ◌<◌, ◌≡◌, ◌≢◌, ◌⊎◌, inl, inr, true, false, arith, refl, sym, ◌∙◌, Bool-cases, ◌==◌,
  ==_self, ==_ne,
}
use skiplist.Store.{update}
use skiplist.Reclaim.{Pc, Ebr}
use skiplist.Reclaim.Invariant.{engaged, flagged, counted, view, view_of, Duty, Inv}
use skiplist.Reclaim.Evolve.{Evolves, Duty-Evolves, duties-Evolves, filed-Evolves}

pub engaged-flagged : (p : Pc) → engaged p ≡ true → flagged p ≡ true
engaged-flagged Pc.announced e = refl
engaged-flagged Pc.vacant e = e
engaged-flagged Pc.claimed e = e
engaged-flagged Pc.cleared e = e
engaged-flagged Pc.registered e = e
engaged-flagged Pc.idle e = e
engaged-flagged Pc.leaving e = e
engaged-flagged (Pc.loaded ge) e = e
engaged-flagged Pc.pinned e = e
engaged-flagged (Pc.retiring x) e = e
engaged-flagged (Pc.stamped x k) e = e
engaged-flagged Pc.advancing e = e
engaged-flagged (Pc.checked cur) e = e
engaged-flagged (Pc.scanning cur tc i) e = e
engaged-flagged (Pc.seen cur tc i) e = e
engaged-flagged (Pc.reclaiming k) e = e

pub engaged-counted : (p : Pc) → engaged p ≡ true → counted p ≡ true
engaged-counted Pc.announced e = refl
engaged-counted Pc.idle e = refl
engaged-counted Pc.leaving e = refl
engaged-counted Pc.vacant e = e
engaged-counted Pc.claimed e = e
engaged-counted Pc.cleared e = e
engaged-counted Pc.registered e = e
engaged-counted (Pc.loaded ge) e = e
engaged-counted Pc.pinned e = e
engaged-counted (Pc.retiring x) e = e
engaged-counted (Pc.stamped x k) e = e
engaged-counted Pc.advancing e = e
engaged-counted (Pc.checked cur) e = e
engaged-counted (Pc.scanning cur tc i) e = e
engaged-counted (Pc.seen cur tc i) e = e
engaged-counted (Pc.reclaiming k) e = e

-- A function that is changed at `t` alone.
pub pointwise {ℓ κ} :
    {A : Type κ} (P : ℕ → A → Type ℓ) (pc : ℕ → A) (t : ℕ) (p' : A)
    → P t p'
    → ((u : ℕ) → u ≢ t → P u (pc u))
    → (u : ℕ) → P u (update pc t p' u)
pointwise P pc t p' own same u = elim (Bool-cases (u == t)) [
  | inl e ↦ let it : u ≡ t = ground arith in rw (it, ==_self t) own
  | inr d ↦ rw d (same u (ground arith))
]

module _ (s : Ebr) (inv : Inv s) (t : ℕ) (on : engaged (s.pc t) ≡ true)
    (at : view_of s t ≡ s.local_epoch t) (p' : Pc) (on' : engaged p' ≡ true)
    (at' : view p' (s.local_epoch t) ≡ s.local_epoch t) (own : Duty s t p') where
  abbrev s' : Ebr
  s' = record s { pc = update s.pc t p' }

  quiet-Evolves : Evolves s s'
  quiet-Evolves = record {
    epoch = omega arith;
    views =
        pointwise
          (λ u p.
            engaged p ≡ true
            → ((engaged (s.pc u) ≡ true) × (view p (s.local_epoch u) ≡ view_of s u))
              ⊎ ((engaged (s.pc u) ≡ false)
                  × (view p (s.local_epoch u) ≡ s.global_epoch)
                  × (s.global_epoch ≡ s.global_epoch)))
          s.pc t p' (λ e. inl (on, at' ∙ sym at)) (λ u d e. inl (e, refl));
    gone = λ x e. e;
    holds = λ u x e. (
      pointwise (λ u p. s.held u x ≡ true → engaged p ≡ true) s.pc t p' (λ h. on')
          (λ u d h. inv.holders u x h) u e,
      inl e,
    );
  }

  pub quiet : Inv s'
  quiet = record {
    current =
        pointwise
          (λ u p.
            engaged p ≡ true
            → (view p (s.local_epoch u) ≤ s.global_epoch)
              × (s.global_epoch ≤ view p (s.local_epoch u) + 1))
          s.pc t p'
          (λ e.
            let old = inv.current t on in
            (omega (arith, old.0, at, at'), omega (arith, old.1, at, at')))
          (λ u d. inv.current u);
    past = inv.past;
    below =
        pointwise (λ u p. counted p ≡ true → u < s.thread_count) s.pc t p'
          (λ e. inv.below t (engaged-counted (s.pc t) on)) (λ u d. inv.below u);
    owned =
        pointwise (λ u p. s.in_use u ≡ false → p ≡ Pc.vacant) s.pc t p'
          (λ e. let free = inv.owned t e in absurd (let on'' = rw free at on in cc))
          (λ u d. inv.owned u);
    flags =
        pointwise (λ u p. flagged p ≡ true → s.active u ≡ true) s.pc t p'
          (λ e. inv.flags t (engaged-flagged (s.pc t) on)) (λ u d. inv.flags u);
    holders = λ u x h. (quiet-Evolves.holds u x h).0;
    duties =
        duties-Evolves s s' inv quiet-Evolves t (λ u d. (rw (==_ne d), refl))
          (rw (==_self t) (Duty-Evolves s s' inv quiet-Evolves t refl p' own));
    filed = λ b. filed-Evolves s s' inv quiet-Evolves b (s.retire_lists b) (inv.filed b);
    safe = inv.safe;
  }
