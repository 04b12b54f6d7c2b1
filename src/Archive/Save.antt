-- ===== src/Archive/Save.antt =====
-- skip_serialize_ writes the archive of the list's entries.
use native.Mathlib.Nat.{mod-eq_of_lt}
use skiplist.Base.{
  ℕ, zero, suc, ◌≤◌, ◌<◌, ◌≡◌, refl, sym, ap, ◌∙◌, arith, true, false, ltb, List, [], ◌∷◌, ◌++◌,
  length, append-nil, append_assoc, length-map, All, ==_ne, ==_self, lt→ltb, Bool-cases, inl, inr,
}
use skiplist.Store.{Ptr, Callbacks, Store, ok, size_mod, load_entry}
use skiplist.Store.Access.{load_next-ok}
use skiplist.Chain.{IsInner, IsList}
use skiplist.Chain.Levels.{Links, at_level_zero}
use skiplist.Insert.{done}
use skiplist.Session.{entries}
use skiplist.Archive.{write_le32, write_le64}
use skiplist.Archive.Files.{
  Libc, Blocks, max_record, magic, write_all, grow_buffer, write_framed, write_header, write_record,
  write_records, serialize,
}

-- A library whose calls succeed: what is written is behind the content of the file.
pub record IsWriter {W : Type 0} (libc : Libc W) (content : W → List ℕ) : Type 0 where
  pub whole : (bytes : List ℕ) (w : W) → (libc.fwrite bytes w).0 ≡ length bytes
  pub behind : (bytes : List ℕ) (w : W) → content (libc.fwrite bytes w).1 ≡ content w ++ bytes
  pub given : (n : ℕ) (w : W) → (libc.malloc n w).0 ≡ true
  pub same : (n : ℕ) (w : W) → content (libc.malloc n w).1 ≡ content w

-- The user's blocks write this record for an entry, within the bound, and read the entry back from it.
pub record IsCoded {E : Type 0} ⦃c : Callbacks E⦄ (blocks : Blocks E) (record_of : E → List ℕ)
    (e : E) : Type 0 where
  pub bounded : blocks.sizeof_entry e ≤ max_record
  pub fits : length (record_of e) ≤ blocks.sizeof_entry e
  pub written : (size : ℕ) → blocks.sizeof_entry e ≤ size → blocks.write_entry e size ≡ record_of e
  pub reads : blocks.read_entry (record_of e) c.blank_entry ≡ (0, e)

-- A record with its size in front.
abbrev pub framed : List ℕ → List ℕ
framed bytes = write_le64 (length bytes) ++ bytes

abbrev pub all_framed : {E : Type 0} → (E → List ℕ) → List E → List ℕ
all_framed record_of [] = []
all_framed record_of (e ∷ es) = framed (record_of e) ++ all_framed record_of es

-- the archive of the entries
abbrev pub archive_of : {E : Type 0} → (E → List ℕ) → List E → List ℕ
archive_of record_of es =
    magic ++ (write_le32 1 ++ (write_le64 (length es) ++ all_framed record_of es))

module _ {W : Type 0} (libc : Libc W) (content : W → List ℕ) (writer : IsWriter libc content) where
  write_all-whole : (bytes : List ℕ) (w : W) → (write_all libc bytes w).0 ≡ true
  unfolding write_all
  write_all-whole bytes w = rw (writer.whole bytes w, ==_self (length bytes))

  write_all-behind :
      (bytes : List ℕ) (w : W) → content (write_all libc bytes w).1 ≡ content w ++ bytes
  unfolding write_all
  write_all-behind bytes w = writer.behind bytes w

  grow_buffer_lem :
      (need cap : ℕ) (w : W)
      → let grown = grow_buffer libc need cap w in
        (grown.0.0 ≡ true) × (need ≤ grown.0.1) × (content grown.1 ≡ content w)
  unfolding grow_buffer
  grow_buffer_lem need cap w = elim (Bool-cases (ltb cap need)) [
    | inl more ↦ let e = writer.given need w in rw (more, e) (refl, omega arith, writer.same need w)
    | inr enough ↦ rw enough (refl, (ground arith), refl)
  ]

  write_framed_lem :
      (bytes : List ℕ) (w : W)
      → let written = write_framed libc bytes w in
        (written.0 ≡ true) × (content written.1 ≡ content w ++ framed bytes)
  unfolding write_framed
  write_framed_lem [] w = rw (write_all-whole (write_le64 0) w) (
    refl,
    write_all-behind (write_le64 0) w ∙ ap (λ l. content w ++ l) (sym (append-nil (write_le64 0))),
  )
  write_framed_lem (b ∷ bs) w =
      let size = write_le64 (length (b ∷ bs)) in
      let first = (write_all libc size w).1 in
      rw (write_all-whole size w, lt→ltb 0 (length (b ∷ bs)) (omega arith))
        (
          write_all-whole (b ∷ bs) first,
          write_all-behind (b ∷ bs) first
              ∙ ap (λ l. l ++ b ∷ bs) (write_all-behind size w)
              ∙ append_assoc (content w) size (b ∷ bs),
        )

  module _ {E : Type 0} ⦃c : Callbacks E⦄ (blocks : Blocks E) (record_of : E → List ℕ) where
    write_record_lem :
        (e : E) (cap : ℕ) (w : W)
        → IsCoded blocks record_of e
        → (cap' : ℕ) × (w' : W) × (write_record blocks libc e cap w ≡ ((done, cap'), w'))
          × (content w' ≡ content w ++ framed (record_of e))
    unfolding write_record
    write_record_lem e cap w coded =
        let need = blocks.sizeof_entry e in
        let (given, room, same) = grow_buffer_lem need cap w in
        let grown = grow_buffer libc need cap w in
        let (whole, behind) = write_framed_lem (record_of e) grown.1 in
        let small : ltb max_record need ≡ false = (let k = coded.bounded in ground arith) in
        let fits : ltb grown.0.1 (length (record_of e)) ≡ false =
          (let k = coded.fits in ground arith) in
        (
          grown.0.1,
          (write_framed libc (record_of e) grown.1).1,
          rw (small, given, coded.written grown.0.1 room, fits, whole),
          behind ∙ ap (λ l. l ++ framed (record_of e)) same,
        )

    -- The records of the entries behind `node`.
    write_records_lem :
        (s : Store E) (zs : List Ptr) (fuel : ℕ) (p : Ptr) (cap : ℕ) (w : W)
        → length zs ≤ fuel
        → s.live p ≡ true
        → All (IsInner s) zs
        → All (IsCoded blocks record_of) (entries s zs)
        → Links s.next s.tail 0 p zs
        → (w' : W) × (write_records blocks libc (suc fuel) p cap w s ≡ ok (done, w') s)
          × (content w' ≡ content w ++ all_framed record_of (entries s zs))
    unfolding write_records load_entry
    write_records_lem s [] fuel p cap w enough live inner coded links = (
      w,
      rw (load_next-ok s p live 0 (omega arith), links, ==_self s.tail),
      sym (append-nil (content w)),
    )
    write_records_lem s (z ∷ zs) zero p cap w enough live inner coded links =
        absurd (omega (arith, enough))
    write_records_lem s (z ∷ zs) (suc fuel) p cap w enough live inner coded links =
        let (cap', w', run, first) = write_record_lem (s.entry z) cap w coded.0 in
        let (w'', runs, others) =
          write_records_lem s zs fuel z cap' w' (omega arith) inner.0.live inner.1 coded.1
            links.1 in
        (
          w'',
          rw
              (
                load_next-ok s p live 0 (omega arith),
                links.0,
                ==_ne inner.0.ne_tail,
                inner.0.live,
                run,
              )
              runs,
          others
              ∙ ap (λ l. l ++ all_framed record_of (entries s zs)) first
              ∙ append_assoc (content w) (framed (record_of (s.entry z)))
                  (all_framed record_of (entries s zs)),
        )

    write_header_lem :
        (count : ℕ) (w : W)
        → ((write_header libc count w).0 ≡ done)
          × (content (write_header libc count w).1
              ≡ content w ++ (magic ++ (write_le32 1 ++ write_le64 count)))
    unfolding write_header
    write_header_lem count w =
        let w₁ = (write_all libc magic w).1 in
        let w₂ = (write_all libc (write_le32 1) w₁).1 in
        rw
          (
            write_all-whole magic w,
            write_all-whole (write_le32 1) w₁,
            write_all-whole (write_le64 count) w₂,
          )
          (
            refl,
            write_all-behind (write_le64 count) w₂
                ∙ ap (λ l. l ++ write_le64 count)
                    (write_all-behind (write_le32 1) w₁
                      ∙ ap (λ l. l ++ write_le32 1) (write_all-behind magic w))
                ∙ append_assoc (content w ++ magic) (write_le32 1) (write_le64 count)
                ∙ append_assoc (content w) magic (write_le32 1 ++ write_le64 count),
          )

    regroup :
        (front : List ℕ) (count : ℕ) (es : List E)
        → (front ++ (magic ++ (write_le32 1 ++ write_le64 count))) ++ all_framed record_of es
          ≡ front ++ (magic ++ (write_le32 1 ++ (write_le64 count ++ all_framed record_of es)))
    regroup front count es =
        let records = all_framed record_of es in
        append_assoc front (magic ++ (write_le32 1 ++ write_le64 count)) records
        ∙ ap (λ l. front ++ (magic ++ l)) (append_assoc (write_le32 1) (write_le64 count) records)

    chain : (s : Store E) (zs : List Ptr) → IsList s zs → Links s.next s.tail 0 s.head zs
    chain s zs is = rw (at_level_zero s.height zs) at (is.links 0 (omega arith))

    -- skip_serialize_ of a well-formed list of fewer than 2 ^ 64 nodes, with a C library whose calls succeed,
    -- the user's blocks within the bound on a record, and fuel for the length of the list: it returns 0,
    -- the list is as before, and the file has grown by the archive of the list's entries.
    pub serialize_lem :
        (s : Store E) (zs : List Ptr) (fuel : ℕ) (w : W)
        → IsList s zs
        → length zs ≤ fuel
        → length zs < size_mod
        → All (IsCoded blocks record_of) (entries s zs)
        → (w' : W) × (serialize blocks libc (suc fuel) w s ≡ ok (done, w') s)
          × (content w' ≡ content w ++ archive_of record_of (entries s zs))
    unfolding serialize
    serialize_lem s zs fuel w is enough small coded =
        let header = write_header libc s.length w in
        let (succeeds, front) = write_header_lem s.length w in
        let (w', run, records) =
          write_records_lem s zs fuel s.head 0 header.1 enough is.ends.head_live is.inner coded
            (chain s zs is) in
        let es = entries s zs in
        let number : s.length ≡ length es =
          is.counted ∙ mod-eq_of_lt small ∙ sym (length-map s.entry zs) in
        (
          w',
          rw succeeds run,
          records
              ∙ ap (λ l. l ++ all_framed record_of es) front
              ∙ regroup (content w) s.length es
              ∙ ap
                  (λ n.
                    content w
                    ++ (magic ++ (write_le32 1 ++ (write_le64 n ++ all_framed record_of es))))
                  number,
        )
