-- ===== src/Random/Bits.antt =====
-- Exclusive or, digit by digit: it is below 2 ^ 32 on words, and zero on equal words alone.
use Prim.Native.Nat.{bit_xor, bit_xor-bitwise, digits, differ}
use skiplist.Base.{ℕ, zero, suc, ◌+◌, ◌*◌, ◌/◌, ◌%◌, ◌^◌, ◌≤◌, ◌<◌, ◌≡◌, refl, sym, arith}

abbrev xor_digits : ℕ → ℕ → ℕ → ℕ
xor_digits n a b = digits (λ b. b) differ n a b

xor_digits_fuel : (n m a b : ℕ) → a ≤ n → a ≤ m → xor_digits n a b ≡ xor_digits m a b
xor_digits_fuel zero zero a b p q = refl
xor_digits_fuel zero (suc m) zero b p q = refl
xor_digits_fuel zero (suc m) (suc a) b p q = absurd (omega arith)
xor_digits_fuel (suc n) zero zero b p q = refl
xor_digits_fuel (suc n) zero (suc a) b p q = absurd (omega arith)
xor_digits_fuel (suc n) (suc m) zero b p q = refl
xor_digits_fuel (suc n) (suc m) (suc a) b p q =
    omega (arith, xor_digits_fuel n m (suc a / 2) (b / 2) (omega arith) (omega arith))

zero-bit_xor : (b : ℕ) → bit_xor 0 b ≡ b
zero-bit_xor b = bit_xor-bitwise 0 b

pub bit_xor_step : (a b : ℕ) → bit_xor a b ≡ bit_xor (a / 2) (b / 2) * 2 + differ (a % 2) (b % 2)
bit_xor_step zero b = omega (arith, zero-bit_xor b, zero-bit_xor (b / 2))
bit_xor_step (suc a) b = omega (
  arith,
  bit_xor-bitwise (suc a) b,
  bit_xor-bitwise (suc a / 2) (b / 2),
  xor_digits_fuel a (suc a / 2) (suc a / 2) (b / 2) (omega arith) (omega arith),
)

differ_bits : (x y : ℕ) → x < 2 → y < 2 → (differ x y < 2) × (differ x y ≡ 0 → x ≡ y)
differ_bits zero y hx hy = (hy, λ e. sym e)
differ_bits (suc zero) zero hx hy = (omega arith, λ e. e)
differ_bits (suc zero) (suc zero) hx hy = (omega arith, λ e. refl)
differ_bits (suc zero) (suc (suc y)) hx hy = absurd (omega arith)
differ_bits (suc (suc x)) y hx hy = absurd (omega arith)

-- 2 ^ w
abbrev twos : ℕ → ℕ
twos zero = 1
twos (suc w) = 2 * twos w

bit_xor_width :
    (w a b : ℕ) → a < twos w → b < twos w → (bit_xor a b < twos w) × (bit_xor a b ≡ 0 → a ≡ b)
bit_xor_width zero zero zero ha hb = (omega arith, λ e. refl)
bit_xor_width zero zero (suc b) ha hb = absurd (omega arith)
bit_xor_width zero (suc a) b ha hb = absurd (omega arith)
bit_xor_width (suc w) a b ha hb =
    let (small, same) = bit_xor_width w (a / 2) (b / 2) (omega arith) (omega arith) in
    let (bit, bits) = differ_bits (a % 2) (b % 2) (omega arith) (omega arith) in
    let step = bit_xor_step a b in
    (
      omega arith,
      λ e.
          let high : a / 2 ≡ b / 2 = same (omega arith) in
          let parity : a % 2 ≡ b % 2 = bits (omega arith) in omega arith,
    )

-- The exclusive or of two 32-bit words is one, and it is zero on equal words alone.
pub bit_xor_word :
    (a b : ℕ) → a < 2 ^ 32 → b < 2 ^ 32 → (bit_xor a b < 2 ^ 32) × (bit_xor a b ≡ 0 → a ≡ b)
bit_xor_word a b = bit_xor_width 32 a b
