-- ===== src/Examples.antt =====
-- Lists of numbers to evaluate the model on, and each theorem with conditions at one of them.
pub mod Pairs
pub mod Run
pub mod Stream
use Prim.Native.Nat.{compare}
use skiplist.Base.{
  ℕ, ◌<◌, ◌≡◌, refl, true, false, ◌&&◌, [], ◌∷◌, arith, ◌==◌, if◌then◌else◌, leb, Bool-cases, inl,
  inr,
}
use skiplist.Store.{Ptr, clean, Callbacks, Store}
use skiplist.Chain.{IsOrder, IsInner, IsList}

instance abbrev pub numbers : Callbacks ℕ
numbers = record {
  compare_entries = compare;
  update_entry = λ e v. v;
  archive_entry = λ e. (0, e);
  blank_entry = 0;
}

pub numbers-IsOrder : IsOrder numbers
numbers-IsOrder = record {
  same = λ a. ground arith;
  gt_of_lt = λ a b e. ground arith;
  lt_of_gt = λ a b e. ground arith;
  trans = λ a b d h k e. ground arith;
}

-- The head is node 1, the tail node 2. Node 3 holds 5 and node 4 holds 9; the nodes 5 and 6 hold 7
-- and 9 and are not linked.
abbrev pub two_nodes : Store ℕ
two_nodes = record {
  live = λ p. true;
  entry = λ p.
      if p == 3 then 5 else if p == 4 then 9 else if p == 5 then 7 else if p == 6 then 9 else 0;
  era = λ p. 0;
  height = λ p. if p == 1 then 1 else if p == 2 then 1 else 0;
  prev = λ p. if p == 2 then 4 else if p == 4 then 3 else if p == 3 then 1 else 0;
  next = λ p i.
      if (p == 1) && (i == 0) then clean 3 else if (p == 3) && (i == 0) then clean 4 else clean 2;
  hits = λ p i. 0;
  supply = [];
  retired = [];
  length = 2;
  ebr = false;
  prng = 1;
  splay_counter = 0;
  has_dups = false;
  head = 1;
  tail = 2;
  cur_era = 0;
  pres_era = 0;
  pres = 0;
}

pub inner : (p : Ptr) → 2 < p → IsInner two_nodes p
inner p h = record {
  live = refl;
  ne_null = omega arith;
  ne_head = omega arith;
  ne_tail = omega arith;
}

pub two_nodes-IsList : IsList two_nodes (3 ∷ 4 ∷ [])
two_nodes-IsList = record {
  ends = record {
    head_live = refl;
    tail_live = refl;
    head_ne_null = omega arith;
    tail_ne_null = omega arith;
    head_ne_tail = omega arith;
    head_low = omega arith;
    head_high = omega arith;
  };
  inner = (inner 3 (omega arith), (inner 4 (omega arith), tt));
  distinct = ((omega arith, tt), (tt, tt));
  links = λ i k. elim (Bool-cases (i == 0)) [
    | inl low ↦ let zero : i ≡ 0 = ground arith in rw zero (refl, (refl, refl))
    | inr high ↦ let none : leb i 0 ≡ false = ground arith in rw (none, high)
  ];
  back = (refl, (refl, refl));
  low = (omega arith, (omega arith, tt));
  sorted = ((λ e. cc, tt), (tt, tt));
  strict = λ e. ((refl, tt), (tt, tt));
  counted = refl;
}
