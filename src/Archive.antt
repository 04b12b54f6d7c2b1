-- ===== src/Archive.antt =====
-- The bytes of an archive of include/sl.h: the little-endian words that SKIPLIST_DECL_ARCHIVE writes
-- and reads. A buffer is the list of its bytes.
pub mod Bits
pub mod Words
pub mod Files
pub mod Record
pub mod Load
pub mod Save
pub mod Read
pub mod Trip
use Prim.Native.Nat.{bit_or}
use skiplist.Base.{ℕ, zero, suc, ◌*◌, ◌/◌, ◌%◌, ◌^◌, List, [], ◌∷◌}

-- the byte of `v` from bit `k` on
abbrev pub byte_at : ℕ → ℕ → ℕ
byte_at v k = v / 2 ^ k % 2 ^ 8

unfoldable pub write_le32 : ℕ → List ℕ
write_le32 v = byte_at v 0 ∷ byte_at v 8 ∷ byte_at v 16 ∷ byte_at v 24 ∷ []

unfoldable pub write_le64 : ℕ → List ℕ
write_le64 v =
    byte_at v 0
    ∷ byte_at v 8
    ∷ byte_at v 16
    ∷ byte_at v 24
    ∷ byte_at v 32
    ∷ byte_at v 40
    ∷ byte_at v 48
    ∷ byte_at v 56
    ∷ []

-- the byte `i` of a buffer
abbrev pub byte : ℕ → List ℕ → ℕ
byte i [] = 0
byte zero (b ∷ bs) = b
byte (suc i) (b ∷ bs) = byte i bs

unfoldable pub read_le32 : List ℕ → ℕ
read_le32 src =
    bit_or
      (bit_or (bit_or (byte 0 src) (byte 1 src * 2 ^ 8 % 2 ^ 32)) (byte 2 src * 2 ^ 16 % 2 ^ 32))
      (byte 3 src * 2 ^ 24 % 2 ^ 32)

unfoldable pub read_le64 : List ℕ → ℕ
read_le64 src =
    let shifted : ℕ → ℕ → ℕ = λ i k. byte i src * 2 ^ k % 2 ^ 64 in
    bit_or
      (bit_or
        (bit_or
          (bit_or
            (bit_or (bit_or (bit_or (byte 0 src) (shifted 1 8)) (shifted 2 16)) (shifted 3 24))
            (shifted 4 32))
          (shifted 5 40))
        (shifted 6 48))
      (shifted 7 56)
