-- ===== src/Chain.antt =====
-- What a list looks like in memory: at every level the forward pointers lead from the head through
-- the nodes that are tall enough, in order, to the tail.
pub mod Cuts
pub mod Edges
pub mod Levels
pub mod Order
pub mod Place
pub mod Splice
use Prim.Native.Nat.{Ordering}
use skiplist.Base.{ℕ, ◌%◌, ◌≤◌, ◌<◌, ◌≡◌, ◌≢◌, true, false, List, length, All, Distinct, Ordered}
use skiplist.Store.{Ptr, null, Callbacks, max_height, size_mod, Store}
use skiplist.Chain.Levels.{Links, BackLinks, at_level}

-- What the header's "Safety" section asks of the comparison: `compare_entries` orders the entries,
-- and equal ones are those that neither precede nor follow each other.
pub record IsOrder {E : Type 0} (c : Callbacks E) : Type 0 where
  pub same : (a : E) → c.compare_entries a a ≡ Ordering.eq
  pub gt_of_lt :
      (a b : E) → c.compare_entries a b ≡ Ordering.lt → c.compare_entries b a ≡ Ordering.gt
  pub lt_of_gt :
      (a b : E) → c.compare_entries a b ≡ Ordering.gt → c.compare_entries b a ≡ Ordering.lt
  pub trans :
      (a b d : E)
      → c.compare_entries a b ≢ Ordering.gt
      → c.compare_entries b d ≢ Ordering.gt
      → c.compare_entries a d ≢ Ordering.gt

module _ {E : Type 0} where
  -- an allocated node that is no sentinel
  abbrev pub IsInner : Store E → Ptr → Type 0
  IsInner s p = record {
    live : s.live p ≡ true;
    ne_null : p ≢ null;
    ne_head : p ≢ s.head;
    ne_tail : p ≢ s.tail;
  }

  -- the head and the tail, and the height of the list
  abbrev pub Sentinels : Store E → Type 0
  Sentinels s = record {
    head_live : s.live s.head ≡ true;
    tail_live : s.live s.tail ≡ true;
    head_ne_null : s.head ≢ null;
    tail_ne_null : s.tail ≢ null;
    head_ne_tail : s.head ≢ s.tail;
    head_low : 1 ≤ s.height s.head;
    head_high : s.height s.head < max_height;
  }

  module _ ⦃c : Callbacks E⦄ where
    -- the orders of the nodes, by their entries
    abbrev pub Before : Store E → Ptr → Ptr → Type 0
    Before s p q = c.compare_entries (s.entry p) (s.entry q) ≡ Ordering.lt

    abbrev pub NotAfter : Store E → Ptr → Ptr → Type 0
    NotAfter s p q = c.compare_entries (s.entry p) (s.entry q) ≢ Ordering.gt

    abbrev pub Sorted : Store E → List Ptr → Type 0
    Sorted s = Ordered (NotAfter s)

    abbrev pub StrictlySorted : Store E → List Ptr → Type 0
    StrictlySorted s = Ordered (Before s)

    -- The store holds the list of the nodes `xs`. The predicates are types of records with no name,
    -- so that a store with the same fields, as far as they are read, has the same one.
    abbrev pub IsList : Store E → List Ptr → Type 0
    IsList s xs = record {
      ends : Sentinels s;
      inner : All (IsInner s) xs;
      distinct : Distinct xs;
      links : (i : ℕ) → i < max_height → Links s.next s.tail i s.head (at_level s.height i xs);
      back : BackLinks s.prev s.tail s.head xs;
      low : All (λ p. s.height p < s.height s.head) xs;
      sorted : Sorted s xs;
      strict : s.has_dups ≡ false → StrictlySorted s xs;
      counted : s.length ≡ length xs % size_mod;
    }
