-- ===== src/Archive/Bits.antt =====
-- The inclusive or of numbers with no bits in common is their sum.
use Prim.Native.Nat.{bit_or, bit_or-bitwise, digits, max}
use skiplist.Base.{ℕ, zero, suc, ◌+◌, ◌*◌, ◌/◌, ◌%◌, ◌≤◌, ◌<◌, ◌≡◌, refl, arith}

abbrev or_digits : ℕ → ℕ → ℕ → ℕ
or_digits n a b = digits (λ b. b) max n a b

or_digits_fuel : (n m a b : ℕ) → a ≤ n → a ≤ m → or_digits n a b ≡ or_digits m a b
or_digits_fuel zero zero a b p q = refl
or_digits_fuel zero (suc m) zero b p q = refl
or_digits_fuel zero (suc m) (suc a) b p q = absurd (omega arith)
or_digits_fuel (suc n) zero zero b p q = refl
or_digits_fuel (suc n) zero (suc a) b p q = absurd (omega arith)
or_digits_fuel (suc n) (suc m) zero b p q = refl
or_digits_fuel (suc n) (suc m) (suc a) b p q =
    omega (arith, or_digits_fuel n m (suc a / 2) (b / 2) (omega arith) (omega arith))

zero-bit_or : (b : ℕ) → bit_or 0 b ≡ b
zero-bit_or b = bit_or-bitwise 0 b

bit_or_step : (a b : ℕ) → bit_or a b ≡ bit_or (a / 2) (b / 2) * 2 + max (a % 2) (b % 2)
bit_or_step zero b = ground (arith, zero-bit_or b, zero-bit_or (b / 2))
bit_or_step (suc a) b = omega (
  arith,
  bit_or-bitwise (suc a) b,
  bit_or-bitwise (suc a / 2) (b / 2),
  or_digits_fuel a (suc a / 2) (suc a / 2) (b / 2) (omega arith) (omega arith),
)

-- 2 ^ w
abbrev pub twos : ℕ → ℕ
twos zero = 1
twos (suc w) = 2 * twos w

-- The high number has no bits below `w`, and the low one no others.
pub bit_or_add : (w a b : ℕ) → a < twos w → bit_or a (b * twos w) ≡ a + b * twos w
bit_or_add zero zero b h = omega (arith, zero-bit_or (b * 1))
bit_or_add zero (suc a) b h = absurd (omega arith)
bit_or_add (suc w) a b h =
    let m = b * twos w in
    let double : b * (2 * twos w) ≡ m * 2 = omega arith in
    let half : m * 2 / 2 ≡ m = omega arith in
    let even : m * 2 % 2 ≡ 0 = omega arith in
    let step : bit_or a (m * 2) ≡ bit_or (a / 2) m * 2 + a % 2 =
      ground (arith, bit_or_step a (m * 2), half, even) in
    let low = bit_or_add w (a / 2) b (omega arith) in rw double (omega (arith, step, low))
