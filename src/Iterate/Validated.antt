-- ===== src/Iterate/Validated.antt =====
-- skip_prev_validated_ on a list in which one node's backward pointer may be stale.
use skiplist.Base.{
  All-last_or, fun_ext, Ordered-middle, ℕ, zero, suc, ◌≤◌, ◌≡◌, ◌≢◌, ◌⊎◌, inl, inr, Bool-cases, ap,
  sym, ◌∙◌, refl, List, [], ◌∷◌, ◌++◌, true, false, ◌||◌, arith, All, All-map, All-left, All-right,
  NotIn, length, last_or, ◌==◌, ==_ne, ==_self, if◌then◌else◌,
}
use skiplist.Store.{Ptr, Link, null, clean, marked, Callbacks, Store, ok, pure, link_eq, update}
use skiplist.Store.Access.{load_next-ok, load_prev-ok, cas_prev-won}
use skiplist.Chain.{IsInner, IsList}
use skiplist.Chain.Levels.{Links}
use skiplist.Chain.Edges.{Links-zero, last_or-null, prev-head, next-last}
use skiplist.Iterate.{scan_prev, leads_to, prev_validated}

module _ (next : Ptr → ℕ → Link) (tail n : Ptr) where
  -- No node from `p` on leads to `n`.
  Links-never :
      (p : Ptr) (ys : List Ptr)
      → Links next tail 0 p ys
      → NotIn n ys
      → n ≢ tail
      → All (λ q. next q 0 ≢ clean n) (p ∷ ys)
  Links-never p [] links apart end = (λ e. end (ground arith), tt)
  Links-never p (y ∷ ys) links apart end =
      (λ e. apart.0 (ground arith), Links-never y ys links.1 apart.1 end)

  -- The only node of the chain that leads to `n` is the one before it.
  Links-unique :
      (p : Ptr) (xs ys : List Ptr)
      → Links next tail 0 p (xs ++ n ∷ ys)
      → NotIn n xs
      → NotIn n ys
      → n ≢ tail
      → All (λ q. next q 0 ≡ clean n → q ≡ last_or p xs) (p ∷ xs ++ n ∷ ys)
  Links-unique p [] ys links front back end = (
    λ e. refl,
    All-map (λ q. next q 0 ≢ clean n) (n ∷ ys) (λ q d e. absurd (d e))
        (Links-never n ys links.1 back end),
  )
  Links-unique p (x ∷ xs) ys links front back end =
      (λ e. absurd (front.0 (ground arith)), Links-unique x xs ys links.1 front.1 back end)

link_eq-clean : (l : Link) (n : Ptr) → link_eq l (clean n) ≡ true → l ≡ clean n
link_eq-clean (clean q) n e = let it : q ≡ n = ground arith in ap clean it
link_eq-clean (marked q) n e = cc

-- `p` is one of the list
abbrev pub Among : Ptr → List Ptr → Type 0
Among p [] = ⊥
Among p (x ∷ xs) = (p ≡ x) ⊎ Among p xs

All-at : (P : Ptr → Type 0) (p : Ptr) (xs : List Ptr) → Among p xs → All P xs → P p
All-at P p [] h all = absurd h
All-at P p (x ∷ xs) (inl e) all = rw e all.0
All-at P p (x ∷ xs) (inr h) all = All-at P p xs h all.1

module _ {E : Type 0} ⦃c : Callbacks E⦄ (s : Store E) (n : Ptr) where
  scan_prev_lem :
      (xs ys : List Ptr) (fuel : ℕ) (p : Ptr)
      → length xs ≤ fuel
      → s.live p ≡ true
      → All (IsInner s) xs
      → IsInner s n
      → NotIn n xs
      → Links s.next s.tail 0 p (xs ++ n ∷ ys)
      → scan_prev (suc fuel) n p s ≡ ok (last_or p xs) s
  unfolding scan_prev
  scan_prev_lem [] ys fuel p enough live inner i apart links =
      rw (
        load_next-ok s p live 0 (omega arith),
        links.0,
        ==_ne i.ne_tail,
        ==_ne i.ne_null,
        ==_self n,
      )
  scan_prev_lem (x ∷ xs) ys zero p enough live inner i apart links = absurd (omega (arith, enough))
  scan_prev_lem (x ∷ xs) ys (suc fuel) p enough live inner i apart links =
      rw
        (
          load_next-ok s p live 0 (omega arith),
          links.0,
          ==_ne inner.0.ne_tail,
          ==_ne inner.0.ne_null,
          ==_ne (λ e. apart.0 (sym e)),
        )
        (scan_prev_lem xs ys fuel x (omega arith) inner.0.live inner.1 i apart.1 links.1)

module _ {E : Type 0} ⦃c : Callbacks E⦄ (s : Store E) (xs : List Ptr) (n : Ptr) (ys : List Ptr)
    (is : IsList s (xs ++ n ∷ ys)) (p : Ptr) (fuel : ℕ) (enough : length xs ≤ fuel) where
  open is use {ends}

  -- the list when the backward pointer of `n` is `p`
  abbrev stale : Store E
  stale = record s { prev = update s.prev n p }

  abbrev pred : Ptr
  pred = last_or s.head xs

  here : IsInner s n
  here = (All-right (IsInner s) xs (n ∷ ys) is.inner).0

  front : All (IsInner s) xs
  front = All-left (IsInner s) xs (n ∷ ys) is.inner

  apart : All (λ x. x ≢ n) xs × NotIn n ys
  apart = Ordered-middle ◌≢◌ xs ys n is.distinct

  not_front : NotIn n xs
  not_front = All-map (λ x. x ≢ n) xs (λ x d e. d (sym e)) apart.0

  own_prev : s.prev n ≡ pred
  own_prev = prev-head s xs (n ∷ ys) is

  mended : update (update s.prev n p) n pred ≡ s.prev
  mended = fun_ext (λ x. elim (Bool-cases (x == n)) [
    | inl e ↦ let it : x ≡ n = ground arith in rw (it, ==_self n) (sym own_prev)
    | inr d ↦ rw d
  ])

  -- A hint that does not lead to the node is replaced.
  replaced :
      (if p == s.head then leads_to s.head n else pure false) stale ≡ ok false stale
      → (if (p == null) || (p == s.tail) then pure false else leads_to p n) stale ≡ ok false stale
      → prev_validated (suc fuel) n stale ≡ ok (last_or null xs) s
  unfolding prev_validated
  replaced first valid =
      rw
        (
          ==_ne here.ne_null,
          ==_ne here.ne_head,
          load_prev-ok stale n here.live,
          ==_self n,
          first,
          valid,
          scan_prev_lem stale n xs ys fuel s.head enough ends.head_live front here not_front
              (Links-zero s [] (xs ++ n ∷ ys) is),
          cas_prev-won stale n here.live p pred (rw (==_self n)),
          last_or-null s xs front,
        )
        (ap (λ f. ok (last_or null xs) (record s { prev = f })) mended)

  leads : p ≡ pred → s.next p 0 ≡ clean n
  leads e = rw e (next-last s xs (n ∷ ys) is)

  pred_live : s.live pred ≡ true
  pred_live =
      All-last_or (λ q. s.live q ≡ true) s.head xs ends.head_live
        (All-map (IsInner s) xs (λ q i. i.live) front)

  pred_apart : (pred ≢ null) × (pred ≢ s.tail)
  pred_apart =
      All-last_or (λ q. (q ≢ null) × (q ≢ s.tail)) s.head xs (ends.head_ne_null, ends.head_ne_tail)
        (All-map (IsInner s) xs (λ q i. (i.ne_null, i.ne_tail)) front)

  unchanged : p ≡ pred → update s.prev n p ≡ s.prev
  unchanged e = fun_ext (λ x. elim (Bool-cases (x == n)) [
    | inl same ↦ let it : x ≡ n = ground arith in rw (it, ==_self n) (e ∙ sym own_prev)
    | inr d ↦ rw d
  ])

  -- A hint that is right stays.
  kept : p ≡ pred → prev_validated (suc fuel) n stale ≡ ok (last_or null xs) s
  unfolding prev_validated leads_to
  kept e =
      let live : s.live p ≡ true = rw e pred_live in
      let ne : p ≢ null = λ d. pred_apart.0 (sym e ∙ d) in
      let ne' : p ≢ s.tail = λ d. pred_apart.1 (sym e ∙ d) in
      let end : (if p == s.head then null else p) ≡ last_or null xs =
        rw e (last_or-null s xs front) in
      elim (Bool-cases (p == s.head)) [
        | inl at_head ↦
            let it : p ≡ s.head = ground arith in
            let none : null ≡ last_or null xs = rw at_head at end in
            rw
              (
                ==_ne here.ne_null,
                ==_ne here.ne_head,
                load_prev-ok stale n here.live,
                ==_self n,
                at_head,
                load_next-ok stale s.head ends.head_live 0 (omega arith),
                (rw it at (leads e)),
                ==_self n,
              )
              (ap (λ q. ok q stale) none
                ∙ ap (λ f. ok (last_or null xs) (record s { prev = f })) (unchanged e))
        | inr behind ↦
            let some : p ≡ last_or null xs = rw behind at end in
            rw
              (
                ==_ne here.ne_null,
                ==_ne here.ne_head,
                load_prev-ok stale n here.live,
                ==_self n,
                behind,
                ==_ne ne,
                ==_ne ne',
                load_next-ok stale p live 0 (omega arith),
                leads e,
                ==_self n,
              )
              (ap (λ q. ok q stale) some
                ∙ ap (λ f. ok (last_or null xs) (record s { prev = f })) (unchanged e))
      ]

  usable : Among p (s.head ∷ xs ++ n ∷ ys) → (s.live p ≡ true) × (p ≢ null) × (p ≢ s.tail)
  usable among =
      All-at (λ q. (s.live q ≡ true) × (q ≢ null) × (q ≢ s.tail)) p (s.head ∷ xs ++ n ∷ ys) among
        (
          (ends.head_live, ends.head_ne_null, ends.head_ne_tail),
          All-map (IsInner s) (xs ++ n ∷ ys) (λ q i. (i.live, i.ne_null, i.ne_tail)) is.inner,
        )

  only : Among p (s.head ∷ xs ++ n ∷ ys) → s.next p 0 ≡ clean n → p ≡ pred
  only among =
      All-at (λ q. s.next q 0 ≡ clean n → q ≡ pred) p (s.head ∷ xs ++ n ∷ ys) among
        (Links-unique s.next s.tail n s.head xs ys (Links-zero s [] (xs ++ n ∷ ys) is) not_front
          apart.1 here.ne_tail)

  -- skip_prev_validated_ at a node of a well-formed list whose backward pointer is NULL, the tail, the
  -- head or any node of the list, with fuel for the nodes before it: it gives the node before, or NULL,
  -- and the backward pointer is the right one again.
  pub prev_validated_lem :
      (p ≡ null) ⊎ (p ≡ s.tail) ⊎ Among p (s.head ∷ xs ++ n ∷ ys)
      → prev_validated (suc fuel) n (record s { prev = update s.prev n p }) ≡ ok (last_or null xs) s
  unfolding leads_to
  prev_validated_lem (inl e) =
      let d : (p == s.head) ≡ false = ground (arith, ends.head_ne_null) in replaced (rw d) (rw e)
  prev_validated_lem (inr (inl e)) =
      let d : (p == s.head) ≡ false = ground (arith, ends.head_ne_tail) in
      let t : ((p == null) || (p == s.tail)) ≡ true = ground arith in replaced (rw d) (rw t)
  prev_validated_lem (inr (inr among)) = elim (Bool-cases (link_eq (s.next p 0) (clean n))) [
    | inl e ↦ kept (only among (link_eq-clean (s.next p 0) n e))
    | inr wrong ↦
        let (live, ne, ne') = usable among in
        replaced
          (elim (Bool-cases (p == s.head)) [
            | inl at_head ↦
                let it : p ≡ s.head = ground arith in
                let wrong' = rw it at wrong in
                rw (at_head, load_next-ok stale s.head ends.head_live 0 (omega arith), wrong')
            | inr behind ↦ rw behind
          ])
          (rw (==_ne ne, ==_ne ne', load_next-ok stale p live 0 (omega arith), wrong))
  ]
