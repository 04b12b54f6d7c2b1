-- ===== src/Reclaim/Retire.antt =====
-- A pinned thread reaches nodes, unlinks and retires them, frees a retire list, and unpins.
use skiplist.Base.{
  ℕ, ◌-◌, ◌%◌, ◌≤◌, ◌≡◌, ◌⊎◌, inl, inr, Bool, true, false, List, [], ◌∷◌, All, arith, ap, subst,
  refl, sym, ◌∙◌, ==_self, ◌||◌, ◌&&◌, Bool-cases, ◌==◌,
}
use skiplist.Store.{Ptr, update, update₂}
use skiplist.Reclaim.{Pc, Ebr, lists}
use skiplist.Reclaim.Invariant.{engaged, view, view_of, Doomed, Duty, Inv}
use skiplist.Reclaim.Evolve.{Evolves, Doomed-Evolves, filed-Evolves}
use skiplist.Reclaim.Quiet.{pointwise}
use skiplist.Reclaim.Moved.{Move, after-Evolves, after-Inv}
use skiplist.Reclaim.Pinned.{stays}

-- what holds of all entries holds of a listed node's
pub listed {ℓ} :
    (P : Ptr × ℕ → Type ℓ) (x : Ptr) (rs : List (Ptr × ℕ))
    → All P rs
    → lists x rs ≡ true
    → (e : ℕ) × P (x, e)
listed P x [] h e = absurd cc
listed P x (r ∷ rs) h e = elim (Bool-cases (r.0 == x)) [
  | inl k ↦ let it : r.0 ≡ x = ground arith in (r.1, rw (sym it) h.0)
  | inr k ↦ listed P x rs h.1 (rw k at e)
]

module _ (s : Ebr) (inv : Inv s) (t : ℕ) where
  module _ (at : s.pc t ≡ Pc.pinned) (x : Ptr) (linked : s.unlinked x ≡ false) where
    abbrev held' : ℕ → Ptr → Bool
    held' = update₂ s.held t x true

    reached : (u : ℕ) (y : Ptr) → held' u y ≡ true → (s.held u y ≡ true) ⊎ (s.unlinked y ≡ false)
    reached u y h = elim (Bool-cases ((u == t) && (y == x))) [
      | inl e ↦ let it : y ≡ x = ground arith in inr (rw it linked)
      | inr e ↦ inl (rw e at h)
    ]

    pub reach-Inv : Inv (record s { held = held'; pc = update s.pc t Pc.pinned })
    reach-Inv =
        let view_at = ap (λ p. view p (s.local_epoch t)) at in
        let m =
          stays s inv t (ap engaged at) Pc.pinned refl s.local_epoch (λ u d. refl) (sym view_at)
            (inv.past t) s.retire_lists s.unlinked held' s.freed (λ y e. e) reached
            (λ u y d. ground arith) in
        let s' = record s { held = held'; pc = update s.pc t Pc.pinned } in
        let ev =
          after-Evolves s inv t Pc.pinned s.local_epoch s.active s.in_use s.thread_count
            s.retire_lists s.unlinked held' s.freed m in
        after-Inv s inv t Pc.pinned s.local_epoch s.active s.in_use s.thread_count s.retire_lists
          s.unlinked held' s.freed m tt
          (λ b. filed-Evolves s s' inv ev b (s.retire_lists b) (inv.filed b))
          (λ y f.
            let (gone, none) = inv.safe y f in
            (
              gone,
              λ u. elim (Bool-cases (held' u y)) [
                | inr off ↦ off
                | inl on ↦
                    let here = none u in
                    elim (reached u y on) [ inl h ↦ absurd cc | inr h ↦ absurd cc ]
              ],
            ))

    pub unlink-Inv :
        Inv (record s { unlinked = update s.unlinked x true; pc = update s.pc t (Pc.retiring x) })
    unlink-Inv =
        let view_at = ap (λ p. view p (s.local_epoch t)) at in
        let unlinked' = update s.unlinked x true in
        let gone : (y : Ptr) → s.unlinked y ≡ true → unlinked' y ≡ true = λ y e. ground arith in
        let m =
          stays s inv t (ap engaged at) (Pc.retiring x) refl s.local_epoch (λ u d. refl)
            (sym view_at) (inv.past t) s.retire_lists unlinked' s.held s.freed gone (λ u y e. inl e)
            (λ u y d. refl) in
        let s' = record s { unlinked = unlinked'; pc = update s.pc t (Pc.retiring x) } in
        let ev =
          after-Evolves s inv t (Pc.retiring x) s.local_epoch s.active s.in_use s.thread_count
            s.retire_lists unlinked' s.held s.freed m in
        after-Inv s inv t (Pc.retiring x) s.local_epoch s.active s.in_use s.thread_count
          s.retire_lists unlinked' s.held s.freed m (rw (==_self x))
          (λ b. filed-Evolves s s' inv ev b (s.retire_lists b) (inv.filed b))
          (λ y f. let (old, none) = inv.safe y f in (gone y old, none))

  -- A step that touches neither the threads' pointers nor the list of nodes.
  module _ (on : engaged (s.pc t) ≡ true) (at : view_of s t ≡ s.local_epoch t) (p' : Pc)
      (on' : engaged p' ≡ true) (at' : view p' (s.local_epoch t) ≡ s.local_epoch t)
      (lists' : ℕ → List (Ptr × ℕ)) (freed' : Ptr → Bool) where
    abbrev handled : Ebr
    handled = record s { pc = update s.pc t p'; retire_lists = lists'; freed = freed' }

    handled_move :
        Move s inv t p' s.local_epoch s.active s.in_use s.thread_count lists' s.unlinked s.held
          freed'
    handled_move =
        stays s inv t on p' on' s.local_epoch (λ u d. refl) (at' ∙ sym at) (inv.past t) lists'
          s.unlinked s.held freed' (λ y e. e) (λ u y e. inl e) (λ u y d. refl)

    handled-Evolves : Evolves s handled
    handled-Evolves =
        after-Evolves s inv t p' s.local_epoch s.active s.in_use s.thread_count lists' s.unlinked
          s.held freed' handled_move

    handled-Inv :
        Duty handled t p'
        → ((b : ℕ) → All (λ r. (r.1 % 3 ≡ b) × Doomed handled r.0 r.1) (lists' b))
        → ((x : Ptr) → freed' x ≡ true → (s.unlinked x ≡ true) × ((u : ℕ) → s.held u x ≡ false))
        → Inv handled
    handled-Inv =
        after-Inv s inv t p' s.local_epoch s.active s.in_use s.thread_count lists' s.unlinked s.held
          freed' handled_move

  pub push-Inv :
      (x : Ptr) (e : ℕ)
      → s.pc t ≡ Pc.stamped x e
      → Inv (record s {
        retire_lists = update s.retire_lists (e % 3) ((x, e) ∷ s.retire_lists (e % 3));
        pc = update s.pc t Pc.advancing;
      })
  push-Inv x e at =
      let on = ap engaged at in
      let view_at = ap (λ p. view p (s.local_epoch t)) at in
      let lists' = update s.retire_lists (e % 3) ((x, e) ∷ s.retire_lists (e % 3)) in
      let s' = handled on view_at Pc.advancing refl refl lists' s.freed in
      let ev = handled-Evolves on view_at Pc.advancing refl refl lists' s.freed in
      let doomed : Doomed s x e = subst (Duty s t) at (inv.duties t) in
      handled-Inv on view_at Pc.advancing refl refl lists' s.freed tt
        (pointwise (λ b rs. All (λ r. (r.1 % 3 ≡ b) × Doomed s' r.0 r.1) rs) s.retire_lists (e % 3)
          ((x, e) ∷ s.retire_lists (e % 3))
          (
            (refl, Doomed-Evolves s s' inv ev x e doomed),
            filed-Evolves s s' inv ev (e % 3) (s.retire_lists (e % 3)) (inv.filed (e % 3)),
          )
          (λ b d. filed-Evolves s s' inv ev b (s.retire_lists b) (inv.filed b)))
        inv.safe

  -- No thread holds a node of the list that is freed.
  let_go :
      (k : ℕ)
      → s.pc t ≡ Pc.reclaiming k
      → 2 ≤ k
      → (x : Ptr) (e : ℕ) → e % 3 ≡ (k - 2) % 3
      → Doomed s x e
      → (u : ℕ) → s.held u x ≡ false
  let_go k at two x e bucket d u = elim (Bool-cases (s.held u x)) [
    | inr off ↦ off
    | inl h ↦
        let (past, own) = subst (Duty s t) at (inv.duties t) in
        let high = (inv.current t (ap engaged at)).1 in
        let view_at : view_of s t ≡ s.local_epoch t = ap (λ p. view p (s.local_epoch t)) at in
        let late = (inv.current u (inv.holders u x h)).1 in
        let early = d.early u h in
        let seen = d.past in absurd (omega (arith, high, view_at, late, early, seen, past, own))
  ]

  pub reclaim-Inv :
      (k : ℕ)
      → s.pc t ≡ Pc.reclaiming k
      → 2 ≤ k
      → Inv (record s {
        retire_lists = update s.retire_lists ((k - 2) % 3) [];
        freed = λ x. s.freed x || lists x (s.retire_lists ((k - 2) % 3));
        pc = update s.pc t Pc.pinned;
      })
  reclaim-Inv k at two =
      let on = ap engaged at in
      let view_at = ap (λ p. view p (s.local_epoch t)) at in
      let b = (k - 2) % 3 in
      let lists' = update s.retire_lists b [] in
      let freed' : Ptr → Bool = λ x. s.freed x || lists x (s.retire_lists b) in
      let s' = handled on view_at Pc.pinned refl refl lists' freed' in
      let ev = handled-Evolves on view_at Pc.pinned refl refl lists' freed' in
      handled-Inv on view_at Pc.pinned refl refl lists' freed' tt
        (pointwise (λ b rs. All (λ r. (r.1 % 3 ≡ b) × Doomed s' r.0 r.1) rs) s.retire_lists b [] tt
          (λ b d. filed-Evolves s s' inv ev b (s.retire_lists b) (inv.filed b)))
        (λ x f. elim (Bool-cases (s.freed x)) [
          | inl old ↦ inv.safe x old
          | inr new ↦
              let (e, (bucket, d)) =
                listed (λ r. (r.1 % 3 ≡ b) × Doomed s r.0 r.1) x (s.retire_lists b) (inv.filed b)
                  (rw new at f) in
              (d.gone, let_go k at two x e bucket d)
        ])
