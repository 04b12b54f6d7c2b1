-- ===== src/Tests/Archive.antt =====
-- The theorems on the archive, at a list of two pairs and a file of bytes.
use skiplist.Base.{ℕ, ◌≡◌, refl, arith, List, [], ◌∷◌, ◌++◌}
use skiplist.Store.{Ptr, Store, ok}
use skiplist.Insert.{Status, done}
use skiplist.Session.{entries, IsReady}
use skiplist.Archive.Files.{serialize, deserialize}
use skiplist.Archive.Load.{deserialize_ends}
use skiplist.Archive.Save.{archive_of, serialize_lem}
use skiplist.Archive.Trip.{round_trip}
use skiplist.Examples.Pairs.{pairs, pairs-IsOrder, two_pairs, two_pairs-IsList}
use skiplist.Examples.Stream.{
  stream, stream-IsWriter, stream-IsReader, two_bytes, pair_blocks, two_bytes-IsCoded, no_pairs,
  no_pairs-IsReady,
}

round_trip_example :
    (w' : List ℕ) × (w'' : List ℕ) × (zs' : List Ptr) × (t' : Store (ℕ × ℕ)) × (serialize
        pair_blocks stream 3 [] two_pairs
      ≡ ok (done, w') two_pairs)
    × (deserialize pair_blocks stream 1 3 w' no_pairs ≡ ok (done, w'') t')
    × IsReady t' zs'
    × (entries t' zs' ≡ entries two_pairs (3 ∷ 4 ∷ []))
round_trip_example =
    round_trip pair_blocks two_bytes pairs-IsOrder stream (λ w. w) (λ w. w) (λ w. w) stream-IsWriter
      stream-IsReader (λ w. refl) two_pairs (3 ∷ 4 ∷ []) [] no_pairs 0 2 two_pairs-IsList refl
      (two_bytes-IsCoded _, (two_bytes-IsCoded _, tt)) refl no_pairs-IsReady (omega arith)
      (omega arith) (omega arith)

-- a stream with the magic, and nothing behind it
deserialize_ends_example :
    (rc : Status) × (w' : List ℕ) × (zs' : List Ptr) × (s' : Store (ℕ × ℕ)) × (deserialize
        pair_blocks stream 1 3
        (83 ∷ 75 ∷ 80 ∷ 76 ∷ 1 ∷ [])
        no_pairs
      ≡ ok (rc, w') s')
    × IsReady s' zs'
deserialize_ends_example =
    deserialize_ends pair_blocks stream pairs-IsOrder 0 2 (83 ∷ 75 ∷ 80 ∷ 76 ∷ 1 ∷ []) no_pairs []
      no_pairs-IsReady (omega arith)

serialize_lem_example :
    (w' : List ℕ) × (serialize pair_blocks stream 3 [] two_pairs ≡ ok (done, w') two_pairs)
    × (w' ≡ [] ++ archive_of two_bytes (entries two_pairs (3 ∷ 4 ∷ [])))
serialize_lem_example =
    serialize_lem stream (λ w. w) stream-IsWriter pair_blocks two_bytes two_pairs (3 ∷ 4 ∷ []) 2 []
      two_pairs-IsList (omega arith) (omega arith) (two_bytes-IsCoded _, (two_bytes-IsCoded _, tt))
