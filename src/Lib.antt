-- ===== src/Lib.antt =====
-- The verification of include/sl.h, a skip list of C macros: SKIPLIST_DECL expands to the types and
-- functions of one list, further macros add epoch-based reclamation, snapshots, an archive, a node
-- pool, an integrity check and access by key.
--
-- Store.antt is the memory of one list: the fields of `struct decl_node` are functions of the node's
-- address, those of `struct decl` are fields of the record. A command takes a store to its outcome;
-- an access out of the allocated nodes, or above SKIPLIST_MAX_HEIGHT, is a fault. A forward pointer is
-- clean or marked, which is the low bit of the C pointer. The user's blocks of code are the record
-- Callbacks, and what they must satisfy is Chain.IsOrder. The functions are translated as they are
-- compiled with SKIPLIST_SINGLE_THREADED (the atomics are plain accesses, and a compare-and-swap is a
-- test and a store) and without SKIPLIST_SPLAY_REBALANCE, which is the default. size_t counters wrap at
-- 2 ^ 64, and the random state at 2 ^ 32.
--
--   Base       shared names, Boolean tests, lemmas on lists
--   Store      the memory, its accesses, and when they succeed (Store/Access)
--   Chain      a well-formed list, IsList: level by level the forward pointers lead through the nodes
--              that are tall enough (Chain/Levels); inserting and removing one (Chain/Splice); the
--              place of a query (Chain/Place, Chain/Cuts); the order (Chain/Order)
--   Search     _skip_compare_nodes_, _skip_locate_ (seek is its walk along a level, descend its loop
--              over the levels, match_found its end)
--   Random     _xorshift32 and _skip_toss_
--   Insert     _skip_insert_, cut at its phases: swap_in up to the swap at level 0, publish from there
--   Lookup     _skip_lookup_: a walk (Lookup/Walk), the levels (Lookup/Levels), what it
--              finds (Lookup/Find), that it agrees with _skip_locate_ (Lookup/Agree)
--   Position   skip_position_: the scan along level 0 (Position/Scan), where the cursors stand
--              (Position/Parts, Position/Place)
--   Node       skip_alloc_node_ and skip_free_node_
--   Preserve   _skip_preserve_node_
--   Unlink     _skip_unlink_fully_: the chains around the node (Unlink/Around), a sweep of one level
--              (Unlink/Level), of all levels (Unlink/Sweep)
--   Remove     skip_remove_node_ by its phases: the marks (Remove/Marks), the backward pointer
--              (Remove/Back), the head's height (Remove/Shrink), the hit counts (Remove/Hits), the store
--              they leave (Remove/Gone), and the whole (Remove/Correct)
--   Iterate    the length, the ends and the steps of a cursor (Iterate/Ends), skip_to_array_
--              (Iterate/Array), skip_prev_validated_ (Iterate/Validated)
--   Integrity  _skip_integrity_check_: the levels (Integrity/Levels), a node and its neighbours (Integrity/Nodes),
--              the whole on a well-formed list (Integrity/Sound)
--   Life       skip_init_, skip_release_, skip_free_: the sentinels' levels (Life/Levels), the empty list
--              (Life/Init), a list next to a new node (Life/Node), the freeing of the nodes
--              (Life/Release)
--   Snapshot   skip_snapshot_, skip_release_snapshots_ and skip_restore_snapshot_: the kept copies
--              (Snapshot/Kept)
--   Update     skip_update_ (Update/Correct)
--   Access     SKIPLIST_DECL_ACCESS: skip_get_ and skip_contains_ (Access/Get), skip_put_ (Access/Put), over a
--              list in changed memory (Access/Frame, Access/Fresh); the query is a variable at an address of its own
--   Pool       SKIPLIST_DECL_POOL: slots and indices (Pool/Slots), the initialization (Pool/Init), the slot
--              that an allocation takes (Pool/Claim), who has the nodes (Pool/Owners), the destruction
--              (Pool/Destroy)
--   Session    a list in use: the fresh memory next to it, the sorted list of entries that is the reference
--              (Session/Reference, Session/Entries), a new node (Session/Place), one call (Session/Steps,
--              Session/Queries), many (Session/Refine)
--   Archive    SKIPLIST_DECL_ARCHIVE: the little-endian words, each a list of bytes (Archive/Words);
--              skip_serialize_ and skip_deserialize_ (Archive/Files), over a C library that is a parameter;
--              what is written (Archive/Save) and read (Archive/Read), one record (Archive/Record), any stream
--              (Archive/Load), and an archive that is written and read (Archive/Trip)
--   Reclaim    SKIPLIST_DECL_EBR: the steps of the threads (Reclaim), the invariant (Reclaim/Invariant),
--              that each step keeps it (Evolve, Quiet, Moved, Outside, Pinned, Retire, Advance, Drain), and
--              safety (Reclaim/Safety)
--   Examples   lists and runs to evaluate the model on; Tests applies each theorem to one
--
-- The list and the reclamation meet in skip_remove_node_, which hands a node to slh_ebr_retire once it
-- is out of the list. Reclaim therefore has the list's part as two steps of a pinned thread: it reaches
-- a node that is still in the list, and it unlinks one and retires it.
--
-- A goto to a retry label and a loop take fuel: the first number of `locate` and `insert_node` counts
-- the retries, the second the steps of a walk. One try and one step more than the list has nodes are
-- enough, as the theorems state; the lists have any length and the nodes any height below the bound.
--
-- Not modelled: the writing of DOT files, the macros that are expanded in place (SKIPLIST_ENTRY,
-- SKIPLIST_FOREACH), and the optional rebalance. Of the concurrent build the list's functions and the
-- memory orders are not modelled; the reclamation is, under sequential consistency and for an epoch
-- below 2 ^ 64. Nor is skip_ebr_attach_.
pub mod Base
pub mod Store
pub mod Chain
pub mod Search
pub mod Random
pub mod Insert
pub mod Reclaim
pub mod Archive
pub mod Lookup
pub mod Position
pub mod Node
pub mod Preserve
pub mod Unlink
pub mod Remove
pub mod Iterate
pub mod Snapshot
pub mod Life
pub mod Update
pub mod Access
pub mod Pool
pub mod Session
pub mod Integrity
pub mod Examples
pub mod Tests
