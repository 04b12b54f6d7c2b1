-- ===== src/Life/Levels.antt =====
-- The loops over the levels of the sentinels.
use skiplist.Base.{
  ℕ, zero, suc, ◌+◌, ◌≤◌, ◌<◌, ◌≡◌, ◌≢◌, [], refl, true, ◌&&◌, leb, ltb, ◌==◌, if◌then◌else◌, arith,
}
use skiplist.Store.{Ptr, Link, null, clean, Callbacks, max_height, Store, ok, update₂}
use skiplist.Store.Access.{store_next-ok, store_hits-ok}
use skiplist.Chain.{IsList}
use skiplist.Life.{fill_next, reset_levels}

module _ {A : Type 0} where
  -- the value `v` at `p` and at `count` levels from `i` on
  abbrev pub all_set : Ptr → A → ℕ → ℕ → (Ptr → ℕ → A) → Ptr → ℕ → A
  all_set p v i zero f = f
  all_set p v i (suc count) f = all_set p v (i + 1) count (update₂ f p i v)

  pub all_set-at :
      (p : Ptr) (v : A) (i count : ℕ) (f : Ptr → ℕ → A) (q : Ptr) (j : ℕ)
      → all_set p v i count f q j
        ≡ (if (q == p) && (leb i j && ltb j (i + count)) then v else f q j)
  all_set-at p v i zero f q j = ground arith
  all_set-at p v i (suc count) f q j =
      ground (arith, all_set-at p v (i + 1) count (update₂ f p i v) q j)

  -- What the loop of skip_release_ makes of the pointers and of the hit counts.
  abbrev pub both_set : Ptr → A → Ptr → A → ℕ → ℕ → (Ptr → ℕ → A) → Ptr → ℕ → A
  both_set p v q w i zero f = f
  both_set p v q w i (suc count) f =
      both_set p v q w (i + 1) count (update₂ (update₂ f p i v) q i w)

  pub both_set-at :
      (p : Ptr) (v : A) (q : Ptr) (w : A) (i count : ℕ) (f : Ptr → ℕ → A) (r : Ptr) (j : ℕ)
      → both_set p v q w i count f r j ≡ (
          if leb i j && ltb j (i + count)
          then (if r == q then w else if r == p then v else f r j)
          else f r j)
  both_set-at p v q w i zero f r j = ground arith
  both_set-at p v q w i (suc count) f r j =
      ground (arith, both_set-at p v q w (i + 1) count (update₂ (update₂ f p i v) q i w) r j)

module _ {E : Type 0} ⦃c : Callbacks E⦄ where
  pub fill_next_lem :
      (p : Ptr) (l : Link) (i count : ℕ) (s : Store E)
      → s.live p ≡ true
      → i + count ≤ max_height
      → fill_next p l i count s ≡ ok tt (record s { next = all_set p l i count s.next })
  unfolding fill_next
  fill_next_lem p l i zero s live low = refl
  fill_next_lem p l i (suc count) s live low = rw (store_next-ok s p live i (omega arith) l) (
      fill_next_lem p l (i + 1) count (record s { next = update₂ s.next p i l }) live (omega arith))

  pub reset_levels_lem :
      (i count : ℕ) (s : Store E)
      → s.live s.head ≡ true
      → s.live s.tail ≡ true
      → i + count ≤ max_height
      → reset_levels i count s
        ≡ ok tt (record s {
          next = both_set s.head (clean s.tail) s.tail (clean null) i count s.next;
          hits = both_set s.head 0 s.tail 0 i count s.hits;
        })
  unfolding reset_levels
  reset_levels_lem i zero s head tail low = refl
  reset_levels_lem i (suc count) s head tail low =
      let s₁ = record s { next = update₂ s.next s.head i (clean s.tail) } in
      let s₂ = record s₁ { hits = update₂ s.hits s.head i 0 } in
      let s₃ = record s₂ { next = update₂ s₁.next s.tail i (clean null) } in
      let s₄ = record s₃ { hits = update₂ s₂.hits s.tail i 0 } in
      rw
        (
          store_next-ok s s.head head i (omega arith) (clean s.tail),
          store_hits-ok s₁ s.head head i (omega arith) 0,
          store_next-ok s₂ s.tail tail i (omega arith) (clean null),
          store_hits-ok s₃ s.tail tail i (omega arith) 0,
        )
        (reset_levels_lem (i + 1) count s₄ head tail (omega arith))

  -- The sentinels alone are the empty list.
  pub IsList-empty :
      (s : Store E)
      → s.live s.head ≡ true
      → s.live s.tail ≡ true
      → s.head ≢ null
      → s.tail ≢ null
      → s.head ≢ s.tail
      → s.height s.head ≡ 1
      → ((i : ℕ) → i < max_height → s.next s.head i ≡ clean s.tail)
      → s.prev s.tail ≡ s.head
      → s.length ≡ 0
      → IsList s []
  IsList-empty s head tail h t apart height links back length = record {
    ends = record {
      head_live = head;
      tail_live = tail;
      head_ne_null = h;
      tail_ne_null = t;
      head_ne_tail = apart;
      head_low = omega (arith, height);
      head_high = omega (arith, height);
    };
    inner = tt;
    distinct = tt;
    links = links;
    back = back;
    low = tt;
    sorted = tt;
    strict = λ e. tt;
    counted = length;
  }
