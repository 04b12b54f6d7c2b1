-- ===== src/Unlink/Sweep.antt =====
-- `_skip_unlink_fully_` on a list in which one node is marked at its levels.
use skiplist.Base.{
  ℕ, zero, suc, ◌+◌, ◌≤◌, ◌<◌, ◌≡◌, ◌≢◌, refl, sym, ap, List, ◌∷◌, ◌++◌, arith, length,
  length-append, All, All-map, All-append, NotIn, leb, ltb, false, ◌==◌, ◌&&◌, if◌then◌else◌, inl,
  inr, Bool-cases,
}
use skiplist.Store.{Ptr, Link, clean, marked, unmark, Callbacks, max_height, Store, ok, update₂}
use skiplist.Store.Access.{load_next-ok, load_height-ok}
use skiplist.Chain.{IsOrder, IsInner, IsList, NotAfter}
use skiplist.Chain.Levels.{
  Links, Links-first, Links-frame, Links-left, at_level, All-at_level, length-at_level,
}
use skiplist.Chain.Splice.{Links-remove}
use skiplist.Chain.Place.{pred_at, succ_at, pred_at-All}
use skiplist.Unlink.{sweep_level, sweep, still_linked, unlink_fully, unlink_fully_from}
use skiplist.Unlink.Around.{
  inner_node, inner_front, inner_back, apart_front, apart_back, not_after, h_low, tall-Links,
  short-Links, tall_apart,
}
use skiplist.Unlink.Level.{sweep_to, sweep_past, reaches_past}

module _ {E : Type 0} ⦃c : Callbacks E⦄ (order : IsOrder c) (s : Store E) (xs ys : List Ptr)
    (n : Ptr) (is : IsList s (xs ++ n ∷ ys)) where
  open is use {ends}

  abbrev h : ℕ
  h = s.height n

  -- The pointers at level `l` when the node is unlinked there.
  abbrev pub sweep_one : (Ptr → ℕ → Link) → ℕ → Ptr → ℕ → Link
  sweep_one u l = if leb l h then update₂ u (pred_at s xs l) l (clean (succ_at s ys l)) else u

  -- The levels below `count` are as before, but for the marks of the node.
  abbrev pub Marked : (Ptr → ℕ → Link) → ℕ → Type 0
  Marked u count = record {
    same : (j : ℕ) → j < count → (q : Ptr) → q ≢ n → u q j ≡ s.next q j;
    own : (j : ℕ) → j < count → j ≤ h → u n j ≡ marked (succ_at s ys j);
  }

  module _ (f : ℕ) (enough : length (xs ++ n ∷ ys) ≤ f) where
    level_length :
        (l : ℕ)
        → (length (at_level s.height l xs) ≤ f)
          × (length (at_level s.height l xs ++ at_level s.height l ys) ≤ f)
    level_length l = (
      omega (arith, length-append xs (n ∷ ys), length-at_level s.height l xs),
      omega (
        arith,
        length-append xs (n ∷ ys),
        length-at_level s.height l xs,
        length-at_level s.height l ys,
        length-append (at_level s.height l xs) (at_level s.height l ys),
      ),
    )

    apart_head : n ≢ s.head
    apart_head = (inner_node order s xs ys n is).ne_head

    -- A chain of other nodes is as before.
    framed :
        (u : Ptr → ℕ → Link) (l : ℕ)
        → ((q : Ptr) → q ≢ n → u q l ≡ s.next q l)
        → (end : Ptr) (ws : List Ptr) → NotIn n ws
        → Links s.next end l s.head ws
        → Links u end l s.head ws
    framed u l same end ws apart links =
        Links-frame s.next end l u s.head ws links
          (All-map (λ q. n ≢ q) (s.head ∷ ws) (λ q d. same q (λ e. d (sym e))) (apart_head, apart))

    both_apart : (l : ℕ) → NotIn n (at_level s.height l xs ++ at_level s.height l ys)
    both_apart l =
        All-append (λ q. n ≢ q) (at_level s.height l xs) (at_level s.height l ys)
          (All-at_level s.height l (λ q. n ≢ q) xs (apart_front order s xs ys n is))
          (All-at_level s.height l (λ q. n ≢ q) ys (apart_back order s xs ys n is))

    both_inner : (l : ℕ) → All (IsInner s) (at_level s.height l xs ++ at_level s.height l ys)
    both_inner l =
        All-append (IsInner s) (at_level s.height l xs) (at_level s.height l ys)
          (All-at_level s.height l (IsInner s) xs (inner_front order s xs ys n is))
          (All-at_level s.height l (IsInner s) ys (inner_back order s xs ys n is))

    -- One level of the sweep.
    sweep_at :
        (u : Ptr → ℕ → Link) (l : ℕ)
        → l < max_height
        → Marked u (suc l)
        → sweep_level (suc f) n l s.head (unmark (u s.head l)) (record s { next = u })
          ≡ ok false (record s { next = sweep_one u l })
    sweep_at u l low m =
        let t = record s { next = u } in
        let here = m.same l (omega arith) in
        elim (Bool-cases (leb l h)) [
          | inl tall ↦
              let vs = at_level s.height l xs in
              let apart =
                All-at_level s.height l (λ q. n ≢ q) xs (apart_front order s xs ys n is) in
              let links : Links u n l s.head vs = framed u l here n vs apart (
                Links-left s.next s.tail l s.head n vs (at_level s.height l ys)
                  ((tall-Links order s xs ys n is) l (ground arith))) in
              let run =
                sweep_to order t ends n (inner_node order s xs ys n is) l low (succ_at s ys l)
                  (m.own l (omega arith) (ground arith)) (suc f) s.head vs
                  (let short = (level_length l).0 in omega arith) ends.head_live
                  (All-at_level s.height l (IsInner s) xs (inner_front order s xs ys n is)) apart
                  (All-at_level s.height l (λ v. NotAfter s v n) xs (not_after order s xs ys n is))
                  links in
              rw (tall, ap unmark (Links-first u n l s.head vs links)) run
          | inr short ↦
              let ws = at_level s.height l xs ++ at_level s.height l ys in
              let links : Links u s.tail l s.head ws =
                framed u l here s.tail ws (both_apart l)
                  ((short-Links order s xs ys n is) l low (ground arith)) in
              let run =
                sweep_past order t ends n (inner_node order s xs ys n is) l low (suc f) s.head ws
                  (let len = (level_length l).1 in omega arith) (both_inner l) (both_apart l)
                  links in
              rw (short, ap unmark (Links-first u s.tail l s.head ws links)) run
        ]

    -- the pointers once the levels below `count` are swept
    abbrev pub swept : (Ptr → ℕ → Link) → ℕ → Ptr → ℕ → Link
    swept u zero = u
    swept u (suc l) = swept (sweep_one u l) l

    pub pred_apart : (l : ℕ) → pred_at s xs l ≢ n
    pred_apart l =
        pred_at-All s (λ q. q ≢ n) xs l (λ e. apart_head (sym e))
          (All-map (λ q. n ≢ q) xs (λ q d e. d (sym e)) (apart_front order s xs ys n is))

    pub swept-at :
        (u : Ptr → ℕ → Link) (count : ℕ) (q : Ptr) (j : ℕ)
        → swept u count q j ≡ (
            if ltb j count && (leb j h && (q == pred_at s xs j))
            then clean (succ_at s ys j)
            else u q j)
    swept-at u zero q j = ground arith
    swept-at u (suc l) q j = elim (Bool-cases (j == l)) [
      | inl e ↦
          let it : j ≡ l = ground arith in rw it (ground (arith, swept-at (sweep_one u l) l q l))
      | inr d ↦ ground (arith, swept-at (sweep_one u l) l q j)
    ]

    sweep_lem :
        (count : ℕ) (u : Ptr → ℕ → Link)
        → count ≤ max_height
        → Marked u count
        → sweep (suc f) n count (record s { next = u })
          ≡ ok false (record s { next = swept u count })
    unfolding sweep
    sweep_lem zero u low m = refl
    sweep_lem (suc l) u low m =
        let t = record s { next = u } in
        let m' : Marked (sweep_one u l) l = record {
          same = λ j k q d. let old = m.same j (omega arith) q d in ground arith;
          own = λ j k a. let old = m.own j (omega arith) a in ground arith;
        } in
        rw (
          load_next-ok t s.head ends.head_live l (omega arith),
          sweep_at u l (omega arith) m,
          sweep_lem l (sweep_one u l) (omega arith) m',
        )

    -- The chains without the node.
    pub Links-swept :
        (u : Ptr → ℕ → Link) (count : ℕ)
        → Marked u count
        → (l : ℕ) → l < count
        → l < max_height
        → Links (swept u count) s.tail l s.head (at_level s.height l xs ++ at_level s.height l ys)
    Links-swept u count m l low high =
        let vs = at_level s.height l xs in
        let bs = at_level s.height l ys in
        let next' = swept u count in
        elim (Bool-cases (leb l h)) [
          | inl tall ↦
              let apart = (tall_apart order s xs ys n is) l (ground arith) in
              Links-remove s.next next' s.tail l n s.head vs bs apart
                ((tall-Links order s xs ys n is) l (ground arith))
                (λ q d e. let old = m.same l low q d in ground (arith, swept-at u count q l))
                (ground (arith, swept-at u count (pred_at s xs l) l))
          | inr short ↦
              Links-frame s.next s.tail l next' s.head (vs ++ bs)
                ((short-Links order s xs ys n is) l high (ground arith))
                (All-map (λ q. n ≢ q) (s.head ∷ vs ++ bs)
                  (λ q d.
                    let old = m.same l low q (λ e. d (sym e)) in
                    ground (arith, swept-at u count q l))
                  (apart_head, both_apart l))
        ]

    verify_lem :
        (u : Ptr → ℕ → Link)
        → (count : ℕ) → count ≤ max_height
        → ((l : ℕ)
            → l < count
            → Links u s.tail l s.head (at_level s.height l xs ++ at_level s.height l ys))
        → still_linked (suc f) n count (record s { next = u }) ≡ ok false (record s { next = u })
    unfolding still_linked
    verify_lem u zero low links = refl
    verify_lem u (suc l) low links =
        let t = record s { next = u } in
        let ws = at_level s.height l xs ++ at_level s.height l ys in
        let here = links l (omega arith) in
        let run =
          reaches_past order t ends n (inner_node order s xs ys n is) l (omega arith) (suc f) s.head
            ws (let len = (level_length l).1 in omega arith) (both_inner l) (both_apart l) here in
        rw
          (
            load_next-ok t s.head ends.head_live l (omega arith),
            ap unmark (Links-first u s.tail l s.head ws here),
            run,
          )
          (verify_lem u l (omega arith) (λ j k. links j (omega arith)))

    -- `_skip_unlink_fully_` ends at its first sweep.
    pub unlink_fully_lem :
        (tries : ℕ) (u : Ptr → ℕ → Link)
        → Marked u (s.height s.head + 1)
        → unlink_fully (suc tries) (suc f) n (record s { next = u })
          ≡ ok tt (record s { next = swept u (s.height s.head + 1) })
    unfolding unlink_fully unlink_fully_from
    unlink_fully_lem tries u m =
        let t = record s { next = u } in
        let count = s.height s.head + 1 in
        let lower : ltb (s.height s.head) (s.height n) ≡ false =
          (let low = (h_low order s xs ys n is) in ground arith) in
        let high : count ≤ max_height = (let low = ends.head_high in omega arith) in
        let run = sweep_lem count u high m in
        let check =
          verify_lem (swept u count) count high (λ l k. Links-swept u count m l k (omega arith)) in
        rw (
          load_height-ok t n (inner_node order s xs ys n is).live,
          load_height-ok t s.head ends.head_live,
          lower,
          run,
          check,
        )

    -- Every level without the node, when only its marks had been set.
    pub Links-all :
        (u : Ptr → ℕ → Link)
        → Marked u max_height
        → (l : ℕ) → l < max_height
        → Links
            (swept u (s.height s.head + 1))
            s.tail
            l
            s.head
            (at_level s.height l xs ++ at_level s.height l ys)
    Links-all u m l low =
        let count = s.height s.head + 1 in
        elim (Bool-cases (ltb l count)) [
          | inl below ↦
              Links-swept u count
                (record {
                  same = λ j k. m.same j (let high = ends.head_high in omega arith);
                  own = λ j k. m.own j (let high = ends.head_high in omega arith);
                })
                l (ground arith) low
          | inr above ↦
              let mine = (h_low order s xs ys n is) in
              Links-frame s.next s.tail l (swept u count) s.head
                (at_level s.height l xs ++ at_level s.height l ys)
                ((short-Links order s xs ys n is) l low (ground arith))
                (All-map (λ q. n ≢ q) (s.head ∷ at_level s.height l xs ++ at_level s.height l ys)
                  (λ q d.
                    let old = m.same l low q (λ e. d (sym e)) in
                    ground (arith, swept-at u count q l))
                  (apart_head, both_apart l))
        ]
