-- ===== src/Archive/Words.antt =====
-- A word that is written is read back.
use Prim.Native.Nat.{bit_or}
use skiplist.Base.{ℕ, ◌+◌, ◌*◌, ◌%◌, ◌^◌, ◌<◌, ◌≡◌, refl, arith}
use skiplist.Archive.{byte_at, write_le32, write_le64, read_le32, read_le64}
use skiplist.Archive.Bits.{twos, bit_or_add}

-- A `uint32_t` that `_skip_write_le32` has written is what `_skip_read_le32` reads.
pub read_le32-write_le32 : (v : ℕ) → v < 2 ^ 32 → read_le32 (write_le32 v) ≡ v
unfolding read_le32 write_le32
read_le32-write_le32 v h =
    let b0 = byte_at v 0 in
    let b1 = byte_at v 8 in
    let b2 = byte_at v 16 in
    let b3 = byte_at v 24 in
    let s1 : b1 * 2 ^ 8 % 2 ^ 32 ≡ b1 * 2 ^ 8 = omega arith in
    let s2 : b2 * 2 ^ 16 % 2 ^ 32 ≡ b2 * 2 ^ 16 = omega arith in
    let s3 : b3 * 2 ^ 24 % 2 ^ 32 ≡ b3 * 2 ^ 24 = omega arith in
    let j1 : bit_or b0 (b1 * 2 ^ 8) ≡ b0 + b1 * 2 ^ 8 = bit_or_add 8 b0 b1 (omega arith) in
    let a2 = b0 + b1 * 2 ^ 8 in
    let j2 : bit_or a2 (b2 * 2 ^ 16) ≡ a2 + b2 * 2 ^ 16 = bit_or_add 16 a2 b2 (omega arith) in
    let a3 = a2 + b2 * 2 ^ 16 in
    let j3 : bit_or a3 (b3 * 2 ^ 24) ≡ a3 + b3 * 2 ^ 24 = bit_or_add 24 a3 b3 (omega arith) in
    rw (s1, j1, s2, j2, s3, j3) (omega arith)

-- One byte more, above the bits read so far.
join :
    (w a b : ℕ) → a < twos w → b * twos w < 2 ^ 64 → bit_or a (b * twos w % 2 ^ 64) ≡ a + b * twos w
join w a b low small =
    let same : b * twos w % 2 ^ 64 ≡ b * twos w = omega arith in rw same (bit_or_add w a b low)

-- A `uint64_t` that `_skip_write_le64` has written is what `_skip_read_le64` reads.
pub read_le64-write_le64 : (v : ℕ) → v < 2 ^ 64 → read_le64 (write_le64 v) ≡ v
unfolding read_le64 write_le64
read_le64-write_le64 v h =
    let a1 = v % 2 ^ 8 in
    let a2 = v % 2 ^ 16 in
    let a3 = v % 2 ^ 24 in
    let a4 = v % 2 ^ 32 in
    let a5 = v % 2 ^ 40 in
    let a6 = v % 2 ^ 48 in
    let a7 = v % 2 ^ 56 in
    let first : byte_at v 0 ≡ a1 = omega arith in
    let j1 : bit_or a1 (byte_at v 8 * 2 ^ 8 % 2 ^ 64) ≡ a2 =
      omega (arith, join 8 a1 (byte_at v 8) (omega arith) (omega arith)) in
    let j2 : bit_or a2 (byte_at v 16 * 2 ^ 16 % 2 ^ 64) ≡ a3 =
      omega (arith, join 16 a2 (byte_at v 16) (omega arith) (omega arith)) in
    let j3 : bit_or a3 (byte_at v 24 * 2 ^ 24 % 2 ^ 64) ≡ a4 =
      omega (arith, join 24 a3 (byte_at v 24) (omega arith) (omega arith)) in
    let j4 : bit_or a4 (byte_at v 32 * 2 ^ 32 % 2 ^ 64) ≡ a5 =
      omega (arith, join 32 a4 (byte_at v 32) (omega arith) (omega arith)) in
    let j5 : bit_or a5 (byte_at v 40 * 2 ^ 40 % 2 ^ 64) ≡ a6 =
      omega (arith, join 40 a5 (byte_at v 40) (omega arith) (omega arith)) in
    let j6 : bit_or a6 (byte_at v 48 * 2 ^ 48 % 2 ^ 64) ≡ a7 =
      omega (arith, join 48 a6 (byte_at v 48) (omega arith) (omega arith)) in
    let j7 : bit_or a7 (byte_at v 56 * 2 ^ 56 % 2 ^ 64) ≡ v =
      omega (arith, join 56 a7 (byte_at v 56) (omega arith) (omega arith)) in
    rw (first, j1, j2, j3, j4, j5, j6, j7) refl
