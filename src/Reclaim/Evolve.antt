-- ===== src/Reclaim/Evolve.antt =====
-- What a step of one thread leaves of what the others rely on.
use skiplist.Base.{
  ℕ, ◌%◌, ◌≤◌, ◌≡◌, ◌≢◌, ◌⊎◌, inl, inr, true, false, List, All, All-map, arith, Bool-cases, ◌==◌,
}
use skiplist.Store.{Ptr}
use skiplist.Reclaim.{Pc, Ebr}
use skiplist.Reclaim.Invariant.{engaged, view_of, Doomed, Scanned, Duty, Inv}

-- The epoch does not fall, a pin keeps its epoch and starts at the present one, nodes stay unlinked
-- and no unlinked node is reached.
abbrev pub Evolves : Ebr → Ebr → Type 0
Evolves s s' = record {
  epoch : s.global_epoch ≤ s'.global_epoch;
  views :
      (t : ℕ)
      → engaged (s'.pc t) ≡ true
      → ((engaged (s.pc t) ≡ true) × (view_of s' t ≡ view_of s t))
        ⊎ ((engaged (s.pc t) ≡ false)
            × (view_of s' t ≡ s.global_epoch)
            × (s'.global_epoch ≡ s.global_epoch));
  gone : (x : Ptr) → s.unlinked x ≡ true → s'.unlinked x ≡ true;
  holds :
      (t : ℕ) (x : Ptr)
      → s'.held t x ≡ true
      → (engaged (s'.pc t) ≡ true) × ((s.held t x ≡ true) ⊎ (s.unlinked x ≡ false));
}

module _ (s s' : Ebr) (inv : Inv s) (ev : Evolves s s') where
  pub Doomed-Evolves : (x : Ptr) (e : ℕ) → Doomed s x e → Doomed s' x e
  Doomed-Evolves x e d = record {
    past = omega (arith, d.past, ev.epoch);
    gone = ev.gone x d.gone;
    early = λ t h.
        let (on, was) = ev.holds t x h in
        elim was [
          | inr linked ↦ let gone = d.gone in absurd cc
          | inl held ↦ elim (ev.views t on) [
            | inl (on', same) ↦ omega (arith, same, d.early t held)
            | inr (off, at, same) ↦ let on' = inv.holders t x held in absurd cc
          ]
        ];
  }

  pub Scanned-Evolves : (cur tc i : ℕ) → Scanned s cur tc i → Scanned s' cur tc i
  Scanned-Evolves cur tc i d = record {
    past = omega (arith, d.past, ev.epoch);
    ready = λ e t k on.
        let now : s.global_epoch ≡ cur = omega (arith, d.past, ev.epoch) in
        elim (ev.views t on) [
          | inl (on', same) ↦ omega (arith, same, d.ready now t k on')
          | inr (off, at, same) ↦ omega arith
        ];
  }

  pub Duty-Evolves :
      (t : ℕ) → s'.local_epoch t ≡ s.local_epoch t → (p : Pc) → Duty s t p → Duty s' t p
  Duty-Evolves t e (Pc.loaded ge) d = omega (arith)
  Duty-Evolves t e (Pc.retiring x) d = ev.gone x d
  Duty-Evolves t e (Pc.stamped x k) d = Doomed-Evolves x k d
  Duty-Evolves t e (Pc.checked cur) d = omega (arith, ev.epoch)
  Duty-Evolves t e (Pc.scanning cur tc i) d = Scanned-Evolves cur tc i d
  Duty-Evolves t e (Pc.seen cur tc i) d = Scanned-Evolves cur tc i d
  Duty-Evolves t e (Pc.reclaiming k) d = (omega (arith, d.0, ev.epoch), omega (arith, d.1))
  Duty-Evolves t e Pc.vacant d = tt
  Duty-Evolves t e Pc.claimed d = tt
  Duty-Evolves t e Pc.cleared d = tt
  Duty-Evolves t e Pc.registered d = tt
  Duty-Evolves t e Pc.idle d = tt
  Duty-Evolves t e Pc.leaving d = tt
  Duty-Evolves t e Pc.announced d = tt
  Duty-Evolves t e Pc.pinned d = tt
  Duty-Evolves t e Pc.advancing d = tt

  pub filed-Evolves :
      (b : ℕ) (rs : List (Ptr × ℕ))
      → All (λ r. (r.1 % 3 ≡ b) × Doomed s r.0 r.1) rs
      → All (λ r. (r.1 % 3 ≡ b) × Doomed s' r.0 r.1) rs
  filed-Evolves b rs =
      All-map (λ r. (r.1 % 3 ≡ b) × Doomed s r.0 r.1) rs (λ r d. (d.0, Doomed-Evolves r.0 r.1 d.1))

-- Only the thread `t` has moved: the others' duties stand, and its own is the new one.
pub duties-Evolves :
    (s s' : Ebr) (inv : Inv s) (ev : Evolves s s') (t : ℕ)
    → ((u : ℕ) → u ≢ t → (s'.pc u ≡ s.pc u) × (s'.local_epoch u ≡ s.local_epoch u))
    → Duty s' t (s'.pc t)
    → (u : ℕ) → Duty s' u (s'.pc u)
duties-Evolves s s' inv ev t same own u = elim (Bool-cases (u == t)) [
  | inl e ↦ let it : u ≡ t = ground arith in rw it own
  | inr d ↦
      let (p, l) = same u (ground arith) in
      rw p (Duty-Evolves s s' inv ev u l (s.pc u) (inv.duties u))
]
