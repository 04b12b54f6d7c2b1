-- ===== src/Random.antt =====
-- The random numbers of include/sl.h: `_xorshift32` on `slh_prng_state`, and the coin toss for the
-- height of a new node, `_skip_toss_`.
pub mod Bits
pub mod Toss
use Prim.Native.Nat.{bit_xor}
use skiplist.Base.{ℕ, zero, suc, ◌+◌, ◌-◌, ◌*◌, ◌/◌, ◌%◌, ◌^◌, ◌==◌, if◌then◌else◌}
use skiplist.Store.{Cmd, pure, ◌>>=◌, ◌>>◌, get, put, out_of_fuel}

-- The three shifts, on a uint32_t.
unfoldable pub scramble : ℕ → ℕ
scramble x =
    let a = bit_xor x (x * 2 ^ 13 % 2 ^ 32) in
    let b = bit_xor a (a / 2 ^ 17) in bit_xor b (b * 2 ^ 5 % 2 ^ 32)

module _ {E : Type 0} where
  -- The compare-and-swap loop: it expects the state that it replaced a zero by.
  unfoldable pub xorshift32 : ℕ → Cmd E ℕ
  xorshift32 zero = λ _. out_of_fuel
  xorshift32 (suc f) = do
    s ← get
    let old_state = if s.prng == 0 then 123456789 else s.prng
    let new_state = scramble old_state
    if s.prng == old_state
        then (do put (record s { prng = new_state }); pure new_state)
        else xorshift32 f

  -- The loop of `_skip_toss_`, with `left` = max - level.
  unfoldable pub toss_loop : ℕ → ℕ → ℕ → ℕ → ℕ → Cmd E ℕ
  toss_loop fuel zero level bits avail = pure level
  toss_loop fuel (suc left) level bits avail = do
    bits ← if avail == 0 then xorshift32 fuel else pure bits
    let avail = if avail == 0 then 32 else avail
    if bits % 2 == 0 then pure level else toss_loop fuel left (level + 1) (bits / 2) (avail - 1)

  unfoldable pub toss : ℕ → ℕ → Cmd E ℕ
  toss fuel max = do bits ← xorshift32 fuel; toss_loop fuel max 0 bits 32
