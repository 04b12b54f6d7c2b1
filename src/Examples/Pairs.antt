-- ===== src/Examples/Pairs.antt =====
-- A list of keys with values: the nodes of the list of numbers, each with a value.
use Prim.Native.Nat.{compare}
use skiplist.Base.{ℕ, ◌<◌, arith, false, [], ◌∷◌}
use skiplist.Store.{Ptr, Callbacks, Store}
use skiplist.Chain.{IsOrder, IsInner, IsList}
use skiplist.Access.{Fields}
use skiplist.Examples.{numbers, numbers-IsOrder, two_nodes, two_nodes-IsList, inner}

instance abbrev pub pairs : Callbacks (ℕ × ℕ)
pairs = record {
  compare_entries = λ a b. compare a.0 b.0;
  update_entry = λ e v. (e.0, v);
  archive_entry = λ e. (0, e);
  blank_entry = (0, 0);
}

pub pairs-IsOrder : IsOrder pairs
pairs-IsOrder = record {
  same = λ a. numbers-IsOrder.same a.0;
  gt_of_lt = λ a b. numbers-IsOrder.gt_of_lt a.0 b.0;
  lt_of_gt = λ a b. numbers-IsOrder.lt_of_gt a.0 b.0;
  trans = λ a b d. numbers-IsOrder.trans a.0 b.0 d.0;
}

abbrev pub two_pairs : Store (ℕ × ℕ)
two_pairs = record {
  live = two_nodes.live;
  entry = λ p. (two_nodes.entry p, 0);
  era = two_nodes.era;
  height = two_nodes.height;
  prev = two_nodes.prev;
  next = two_nodes.next;
  hits = two_nodes.hits;
  supply = [];
  retired = [];
  length = 2;
  ebr = false;
  prng = 1;
  splay_counter = 0;
  has_dups = false;
  head = 1;
  tail = 2;
  cur_era = 0;
  pres_era = 0;
  pres = 0;
}

pub inner_pair : (p : Ptr) → 2 < p → IsInner two_pairs p
inner_pair p h =
    let i = inner p h in
    record { live = i.live; ne_null = i.ne_null; ne_head = i.ne_head; ne_tail = i.ne_tail }

pub two_pairs-IsList : IsList two_pairs (3 ∷ 4 ∷ [])
two_pairs-IsList = record {
  ends = two_nodes-IsList.ends;
  inner = (inner_pair 3 (omega arith), (inner_pair 4 (omega arith), tt));
  distinct = two_nodes-IsList.distinct;
  links = two_nodes-IsList.links;
  back = two_nodes-IsList.back;
  low = two_nodes-IsList.low;
  sorted = two_nodes-IsList.sorted;
  strict = two_nodes-IsList.strict;
  counted = two_nodes-IsList.counted;
}

abbrev pub pair_fields : Fields (ℕ × ℕ) ℕ ℕ
pair_fields = record {
  query_entry = λ e key. (key, e.1);
  with_key = λ e key. (key, e.1);
  with_value = λ e value. (e.0, value);
  value_of = λ e. e.1;
  zero_value = 0;
  cast = λ v. v;
}
