-- ===== src/Session.antt =====
-- A list in use: the well-formed list together with the memory that its allocator still has, and the
-- entries that the user sees.
pub mod Reference
pub mod Entries
pub mod Place
pub mod Calls
pub mod Steps
pub mod Queries
pub mod Refine
use skiplist.Base.{◌≡◌, ◌≢◌, List, map, All, NotIn, Distinct}
use skiplist.Store.{Ptr, null, Callbacks, Store}
use skiplist.Chain.{IsList}
use skiplist.Random.Toss.{IsSeed}

-- the entries of the nodes, in the order of the list
abbrev pub entries : {E : Type 0} → Store E → List Ptr → List E
entries s zs = map s.entry zs

module _ {E : Type 0} where
  -- an address that is no node of the list and no sentinel
  abbrev pub IsApart : Store E → List Ptr → Ptr → Type 0
  IsApart s zs n = (n ≢ null) × (n ≢ s.head) × (n ≢ s.tail) × NotIn n zs

  -- The list `zs` is well-formed and without snapshots, the generator runs, and the addresses that the
  -- allocator will return are fresh.
  pub record IsReady ⦃c : Callbacks E⦄ (s : Store E) (zs : List Ptr) : Type 0 where
    pub list : IsList s zs
    pub seed : IsSeed s.prng
    pub none_kept : s.pres_era ≡ 0
    pub apart : All (IsApart s zs) s.supply
    pub distinct : Distinct s.supply
