-- ===== src/Archive/Read.antt =====
-- What skip_deserialize_ reads of a stream that starts with an archive.
use skiplist.Base.{
  ℕ, ◌≤◌, ◌<◌, ◌^◌, ◌≡◌, ◌∙◌, arith, true, false, ltb, ◌==◌, List, [], ◌∷◌, ◌++◌, length,
  append_assoc, some, ==_self, ==_ne,
}
use skiplist.Insert.{done}
use skiplist.Archive.{write_le32, write_le64}
use skiplist.Archive.Words.{read_le32-write_le32, read_le64-write_le64}
use skiplist.Archive.Files.{Libc, max_record, magic, read_all, read_record, read_header}
use skiplist.Archive.Save.{framed}

-- A library whose calls succeed: what is read is the front of the bytes that are left.
pub record IsReader {W : Type 0} (libc : Libc W) (left : W → List ℕ) : Type 0 where
  pub front :
      (xs ys : List ℕ) (w : W)
      → left w ≡ xs ++ ys
      → ((libc.fread (length xs) w).0 ≡ xs) × (left (libc.fread (length xs) w).1 ≡ ys)
  pub given : (n : ℕ) (w : W) → (libc.malloc n w).0 ≡ true
  pub same : (n : ℕ) (w : W) → left (libc.malloc n w).1 ≡ left w

module _ {W : Type 0} (libc : Libc W) (left : W → List ℕ) (reader : IsReader libc left) where
  read_all_lem :
      (xs ys : List ℕ) (w : W)
      → left w ≡ xs ++ ys
      → ((read_all libc (length xs) w).0 ≡ some xs) × (left (read_all libc (length xs) w).1 ≡ ys)
  unfolding read_all
  read_all_lem xs ys w e =
      let (here, rest) = reader.front xs ys w e in (rw (here, ==_self (length xs)), rest)

  -- The size in front of a record.
  read_size :
      (bytes ys : List ℕ) (w : W)
      → left w ≡ framed bytes ++ ys
      → ((read_all libc 8 w).0 ≡ some (write_le64 (length bytes)))
        × (left (read_all libc 8 w).1 ≡ bytes ++ ys)
  unfolding write_le64
  read_size bytes ys w e =
      let word = write_le64 (length bytes) in
      read_all_lem word (bytes ++ ys) w (e ∙ append_assoc word bytes ys)

  pub read_record_lem :
      (bytes ys : List ℕ) (w : W)
      → left w ≡ framed bytes ++ ys
      → length bytes ≤ max_record
      → (w' : W) × (read_record libc w ≡ ((done, bytes), w')) × (left w' ≡ ys)
  unfolding read_record
  read_record_lem [] ys w e small =
      let (size, rest) = read_size [] ys w e in
      ((read_all libc 8 w).1, rw (read_record, size, read_le64-write_le64 0 (omega arith)), rest)
  read_record_lem (b ∷ bs) ys w e small =
      let (size, rest) = read_size (b ∷ bs) ys w e in
      let memory = libc.malloc (length (b ∷ bs)) (read_all libc 8 w).1 in
      let granted = reader.given (length (b ∷ bs)) (read_all libc 8 w).1 in
      let (body, others) =
        read_all_lem (b ∷ bs) ys memory.1
          (reader.same (length (b ∷ bs)) (read_all libc 8 w).1 ∙ rest) in
      let bounded : ltb max_record (length (b ∷ bs)) ≡ false = ground arith in
      let present : length (b ∷ bs) == 0 ≡ false = ==_ne (omega arith) in
      (
        (read_all libc (length (b ∷ bs)) memory.1).1,
        rw (
          read_record,
          size,
          read_le64-write_le64 (length (b ∷ bs)) (omega (arith, small)),
          bounded,
          present,
          granted,
          body,
        ),
        others,
      )

  pub read_header_lem :
      (count : ℕ) (ys : List ℕ) (w : W)
      → count < 2 ^ 64
      → left w ≡ magic ++ (write_le32 1 ++ (write_le64 count ++ ys))
      → (w' : W) × (read_header libc w ≡ ((done, count), w')) × (left w' ≡ ys)
  unfolding read_header write_le32 write_le64
  read_header_lem count ys w small e =
      let (first, rest₁) = read_all_lem magic (write_le32 1 ++ (write_le64 count ++ ys)) w e in
      let w₁ = (read_all libc 4 w).1 in
      let (second, rest₂) = read_all_lem (write_le32 1) (write_le64 count ++ ys) w₁ rest₁ in
      let w₂ = (read_all libc 4 w₁).1 in
      let (third, rest₃) = read_all_lem (write_le64 count) ys w₂ rest₂ in
      (
        (read_all libc 8 w₂).1,
        rw (
          read_header,
          first,
          second,
          read_le32-write_le32 1 (omega arith),
          third,
          read_le64-write_le64 count small,
        ),
        rest₃,
      )
