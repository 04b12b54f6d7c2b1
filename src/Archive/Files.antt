-- ===== src/Archive/Files.antt =====
-- skip_serialize_ and skip_deserialize_ of include/sl.h. The C library is a parameter.
use skiplist.Base.{
  ℕ, zero, suc, ◌^◌, Bool, true, false, not, ltb, ◌==◌, if◌then◌else◌, List, [], ◌∷◌, length,
  Option, none, some,
}
use skiplist.Store.{
  Ptr, null, unmark, Callbacks, Cmd, pure, ◌>>=◌, ◌>>◌, out_of_fuel, get, put, update, load_next,
  load_entry,
}
use skiplist.Insert.{Status, done, enomem, einval, eio, eoverflow, callback, insert}
use skiplist.Node.{alloc_node, free_node}
use skiplist.Archive.{write_le32, write_le64, read_le32, read_le64}

-- What the code calls of the C library, on a state `W` of the library: `fwrite` returns how many bytes it
-- has written, `fread` the bytes that it has read, at most as many as it is asked for, and `malloc`
-- whether there is memory for so many bytes; `realloc` is the same to the code.
pub record Libc (W : Type 0) : Type 0 where
  pub fwrite : List ℕ → W → ℕ × W
  pub fread : ℕ → W → List ℕ × W
  pub malloc : ℕ → W → Bool × W

-- The user's blocks: the bound of an entry's record, the record that is written for an entry into a buffer
-- of this size, and the errno and the entry of a node after a record has been read into it.
pub record Blocks (E : Type 0) : Type 0 where
  pub sizeof_entry : E → ℕ
  pub write_entry : E → ℕ → List ℕ
  pub read_entry : List ℕ → E → ℕ × E

-- SKIPLIST_ARCHIVE_MAX_RECORD
abbrev pub max_record : ℕ
max_record = 2 ^ 28

-- "SKPL"
abbrev pub magic : List ℕ
magic = 83 ∷ 75 ∷ 80 ∷ 76 ∷ []

-- `memcmp`
abbrev pub same_bytes : List ℕ → List ℕ → Bool
same_bytes [] [] = true
same_bytes (a ∷ as') (b ∷ bs) = if a == b then same_bytes as' bs else false
same_bytes _ _ = false

-- on success, or on an errno
abbrev pub if_done : {A : Type 0} → Status → A → (Status → A) → A
if_done done a k = a
if_done rc a k = k rc

module _ {W : Type 0} (libc : Libc W) where
  -- whether all the bytes have been written
  unfoldable pub write_all : List ℕ → W → Bool × W
  write_all bytes w = let r = libc.fwrite bytes w in (r.0 == length bytes, r.1)

  -- so many bytes, or nothing
  unfoldable pub read_all : ℕ → W → Option (List ℕ) × W
  read_all n w = let r = libc.fread n w in (if length r.0 == n then some r.0 else none, r.1)

  -- What skip_serialize_ writes in front of the records.
  unfoldable pub write_header : ℕ → W → Status × W
  write_header count w =
      let first = write_all magic w in
      if not first.0
      then (eio, first.1)
      else let second = write_all (write_le32 1) first.1 in
        if not second.0
        then (eio, second.1)
        else let third = write_all (write_le64 count) second.1 in
          (if third.0 then done else eio, third.1)

  -- The scratch buffer for a record of `need` bytes: whether there is memory, and its size.
  unfoldable pub grow_buffer : ℕ → ℕ → W → (Bool × ℕ) × W
  grow_buffer need cap w =
      let memory = libc.malloc need w in
      if ltb cap need
      then ((memory.0, if memory.0 then need else cap), memory.1)
      else ((true, cap), w)

  -- A record with its size in front.
  unfoldable pub write_framed : List ℕ → W → Bool × W
  write_framed bytes w =
      let size = write_all (write_le64 (length bytes)) w in
      if not size.0
      then (false, size.1)
      else if ltb 0 (length bytes)
      then write_all bytes size.1
      else (true, size.1)

  -- The head of a record that skip_deserialize_ reads, and its bytes.
  unfoldable pub read_record : W → (Status × List ℕ) × W
  read_record w =
      let size = read_all 8 w in
      elim size.0 [
        | none ↦ ((eio, []), size.1)
        | some word ↦
            let bytes = read_le64 word in
            if ltb max_record bytes
            then ((einval, []), size.1)
            else if bytes == 0
            then ((done, []), size.1)
            else let memory = libc.malloc bytes size.1 in
              if not memory.0
              then ((enomem, []), memory.1)
              else let body = read_all bytes memory.1 in
                (elim body.0 [ none ↦ (eio, []) | some buf ↦ (done, buf) ], body.1)
      ]

  -- What stands in front of the records: the number of them, or an errno.
  unfoldable pub read_header : W → (Status × ℕ) × W
  read_header w =
      let first = read_all 4 w in
      elim first.0 [
        | none ↦ ((eio, 0), first.1)
        | some word ↦
            if not (same_bytes word magic)
            then ((einval, 0), first.1)
            else let second = read_all 4 first.1 in
              elim second.0 [
                | none ↦ ((eio, 0), second.1)
                | some version ↦
                    if not (read_le32 version == 1)
                    then ((einval, 0), second.1)
                    else let third = read_all 8 second.1 in
                      (
                        elim third.0 [ none ↦ (eio, 0) | some count ↦ (done, read_le64 count) ],
                        third.1,
                      )
              ]
      ]

module _ {E : Type 0} ⦃c : Callbacks E⦄ (blocks : Blocks E) where
  -- A node for a record, and its insertion; it is freed when the block or the insertion refuses it.
  unfoldable pub load_record : ℕ → ℕ → List ℕ → Cmd E Status
  load_record tries fuel buf = do
    node ← alloc_node
    if node == null then pure enomem else do
      e ← load_entry node
      s ← get
      put (record s { entry = update s.entry node (blocks.read_entry buf e).1 })
      if not ((blocks.read_entry buf e).0 == 0)
          then (do free_node node; pure (callback (blocks.read_entry buf e).0))
          else do
            rc ← insert tries fuel node
            elim rc [ done ↦ pure done | refused ↦ (do free_node node; pure refused) ]

  module _ {W : Type 0} (libc : Libc W) where
    -- The loop of skip_deserialize_ over `count` records.
    unfoldable pub load_records : ℕ → ℕ → ℕ → W → Cmd E (Status × W)
    load_records tries fuel zero w = pure (done, w)
    load_records tries fuel (suc count) w =
        let next = read_record libc w in
        if_done next.0.0
          (do
            rc ← load_record tries fuel next.0.1
            if_done rc (load_records tries fuel count next.1) (λ refused. pure (refused, next.1)))
          (λ failed. pure (failed, next.1))

    -- skip_deserialize_
    unfoldable pub deserialize : ℕ → ℕ → W → Cmd E (Status × W)
    deserialize tries fuel w =
        let header = read_header libc w in
        if_done header.0.0 (load_records tries fuel header.0.1 header.1)
          (λ failed. pure (failed, header.1))

    -- One record of skip_serialize_, with the size of the scratch buffer, which may have grown then.
    unfoldable pub write_record : E → ℕ → W → (Status × ℕ) × W
    write_record e cap w =
        let need = blocks.sizeof_entry e in
        if ltb max_record need
        then ((eoverflow, cap), w)
        else let grown = grow_buffer libc need cap w in
          if not grown.0.0
          then ((enomem, cap), grown.1)
          else let bytes = blocks.write_entry e grown.0.1 in
            if ltb grown.0.1 (length bytes)
            then ((eoverflow, grown.0.1), grown.1)
            else let written = write_framed libc bytes grown.1 in
              ((if written.0 then done else eio, grown.0.1), written.1)

    -- The loop of skip_serialize_ behind `node`.
    unfoldable pub write_records : ℕ → Ptr → ℕ → W → Cmd E (Status × W)
    write_records zero node cap w = λ _. out_of_fuel
    write_records (suc f) node cap w = do
      l ← load_next node 0
      s ← get
      if unmark l == s.tail then pure (done, w) else do
        e ← load_entry (unmark l)
        r ← pure (write_record e cap w)
        if_done r.0.0 (write_records f (unmark l) r.0.1 r.1) (λ failed. pure (failed, r.1))

    -- skip_serialize_
    unfoldable pub serialize : ℕ → W → Cmd E (Status × W)
    serialize fuel w = do
      s ← get
      header ← pure (write_header libc s.length w)
      if_done header.0 (write_records fuel s.head 0 header.1) (λ failed. pure (failed, header.1))
