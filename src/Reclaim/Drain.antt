-- ===== src/Reclaim/Drain.antt =====
-- The end: the retire lists are freed when no thread is pinned.
use skiplist.Base.{ℕ, ◌%◌, ◌≡◌, ◌⊎◌, inl, inr, false, [], All, arith, ap, refl, ◌||◌, Bool-cases}
use skiplist.Store.{Ptr, update}
use skiplist.Reclaim.{Pc, Ebr, lists}
use skiplist.Reclaim.Invariant.{engaged, Doomed, Inv}
use skiplist.Reclaim.Evolve.{Evolves, Duty-Evolves, filed-Evolves}
use skiplist.Reclaim.Quiet.{pointwise}
use skiplist.Reclaim.Retire.{listed}

module _ (s : Ebr) (inv : Inv s) (b : ℕ)
    (quiet : (t : ℕ) → (s.pc t ≡ Pc.idle) ⊎ (s.pc t ≡ Pc.vacant)) where
  none_held : (t : ℕ) (x : Ptr) → s.held t x ≡ false
  none_held t x = elim (Bool-cases (s.held t x)) [
    | inr off ↦ off
    | inl on ↦
        let busy = inv.holders t x on in
        elim (quiet t) [
          | inl at ↦ let off = ap engaged at in absurd cc
          | inr at ↦ let off = ap engaged at in absurd cc
        ]
  ]

  abbrev drained : Ebr
  drained = record s {
    retire_lists = update s.retire_lists b [];
    freed = λ x. s.freed x || lists x (s.retire_lists b);
  }

  drained-Evolves : Evolves s drained
  drained-Evolves = record {
    epoch = omega arith;
    views = λ t on. inl (on, refl);
    gone = λ x e. e;
    holds = λ t x h. (inv.holders t x h, inl h);
  }

  pub drain-Inv : Inv drained
  drain-Inv = record {
    current = inv.current;
    past = inv.past;
    below = inv.below;
    owned = inv.owned;
    flags = inv.flags;
    holders = inv.holders;
    duties = λ t. Duty-Evolves s drained inv drained-Evolves t refl (s.pc t) (inv.duties t);
    filed =
        pointwise (λ i rs. All (λ r. (r.1 % 3 ≡ i) × Doomed drained r.0 r.1) rs) s.retire_lists b []
          tt
          (λ i d. filed-Evolves s drained inv drained-Evolves i (s.retire_lists i) (inv.filed i));
    safe = λ x f. elim (Bool-cases (s.freed x)) [
      | inl old ↦ inv.safe x old
      | inr new ↦
          let (e, (bucket, d)) =
            listed (λ r. (r.1 % 3 ≡ b) × Doomed s r.0 r.1) x (s.retire_lists b) (inv.filed b)
              (rw new at f) in
          (d.gone, λ t. none_held t x)
    ];
  }
