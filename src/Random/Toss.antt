-- ===== src/Random/Toss.antt =====
-- The generator stays off zero, and the coin toss stays within its bound.
use Prim.Native.Nat.{bit_xor}
use skiplist.Base.{
  ℕ, zero, suc, ◌+◌, ◌*◌, ◌/◌, ◌%◌, ◌^◌, ◌-◌, if◌then◌else◌, ◌≤◌, ◌<◌, ◌≡◌, ◌≢◌, refl, inl, inr,
  arith, ◌==◌, ==_ne, ==_self, Bool-cases, true, false,
}
use skiplist.Store.{Store, Run, pure, ok, out_of_fuel}
use skiplist.Random.{scramble, xorshift32, toss_loop, toss}
use skiplist.Random.Bits.{bit_xor_word}

-- a state that the generator can leave
abbrev pub IsSeed : ℕ → Type 0
IsSeed x = (0 < x) × (x < 2 ^ 32)

xor-IsSeed : (a b : ℕ) → IsSeed a → b < 2 ^ 32 → a ≢ b → IsSeed (bit_xor a b)
xor-IsSeed a b ha hb ne =
    let (small, same) = bit_xor_word a b ha.1 hb in
    let nonzero : bit_xor a b ≢ 0 = λ e. ne (same e) in (omega arith, small)

scramble-IsSeed : (x : ℕ) → IsSeed x → IsSeed (scramble x)
unfolding scramble
scramble-IsSeed x h =
    let a = bit_xor x (x * 2 ^ 13 % 2 ^ 32) in
    let ha : IsSeed a = xor-IsSeed x (x * 2 ^ 13 % 2 ^ 32) h (omega arith) (omega arith) in
    let b = bit_xor a (a / 2 ^ 17) in
    let hb : IsSeed b = xor-IsSeed a (a / 2 ^ 17) ha (omega arith) (omega arith) in
    xor-IsSeed b (b * 2 ^ 5 % 2 ^ 32) hb (omega arith) (omega arith)

module _ {E : Type 0} where
  -- From a state other than zero one draw ends at the first swap, and the state stays off zero.
  pub xorshift32_lem :
      (fuel : ℕ) (s : Store E)
      → IsSeed s.prng
      → (xorshift32 (suc fuel) s ≡ ok (scramble s.prng) (record s { prng = scramble s.prng }))
        × IsSeed (scramble s.prng)
  unfolding xorshift32
  xorshift32_lem fuel s h =
      let ne : s.prng ≢ 0 = omega arith in (rw (==_ne ne, ==_self s.prng), scramble-IsSeed s.prng h)

  -- From the state zero no draw ever ends: the swap expects the number that zero was replaced by.
  pub xorshift32_stuck : (fuel : ℕ) (s : Store E) → s.prng ≡ 0 → xorshift32 fuel s ≡ out_of_fuel
  unfolding xorshift32
  xorshift32_stuck zero s e = refl
  xorshift32_stuck (suc fuel) s e =
      let zero_state : (s.prng == 0) ≡ true = ground arith in
      let unequal : (s.prng == 123456789) ≡ false = ground arith in
      rw (zero_state, unequal) (xorshift32_stuck fuel s e)

  -- The outcome of a toss: only the generator has moved.
  abbrev pub Tossed : Store E → ℕ → Run E ℕ → Type 0
  Tossed s max r =
      (level : ℕ) × (state : ℕ) × (r ≡ ok level (record s { prng = state }))
      × (level ≤ max)
      × IsSeed state

  -- One bit: a zero ends the toss.
  toss_bit-Tossed :
      (fuel left level avail : ℕ) (s : Store E) (bits : ℕ)
      → IsSeed s.prng
      → Tossed s (level + 1 + left) (toss_loop fuel left (level + 1) (bits / 2) (avail - 1) s)
      → Tossed s (level + suc left) (
          (if bits % 2 == 0
              then pure level
              else toss_loop fuel left (level + 1) (bits / 2) (avail - 1))
            s)
  toss_bit-Tossed fuel left level avail s bits h (k, state, e, low, good) =
      elim (Bool-cases (bits % 2 == 0)) [
        | inl end ↦ rw end (level, s.prng, refl, omega arith, h)
        | inr more ↦ rw more (k, state, e, omega arith, good)
      ]

  toss_loop-Tossed :
      (fuel left level bits avail : ℕ) (s : Store E)
      → IsSeed s.prng
      → Tossed s (level + left) (toss_loop (suc fuel) left level bits avail s)
  unfolding toss_loop
  toss_loop-Tossed fuel zero level bits avail s h = (level, s.prng, refl, omega arith, h)
  toss_loop-Tossed fuel (suc left) level bits avail s h = elim (Bool-cases (avail == 0)) [
    | inl spent ↦
        let (drawn, seed) = xorshift32_lem fuel s h in
        rw (spent, drawn)
          (toss_bit-Tossed (suc fuel) left level 32 (record s { prng = scramble s.prng })
            (scramble s.prng) seed
            (toss_loop-Tossed fuel left (level + 1) (scramble s.prng / 2) (32 - 1)
              (record s { prng = scramble s.prng }) seed))
    | inr more ↦ rw more (
        toss_bit-Tossed (suc fuel) left level avail s bits h
          (toss_loop-Tossed fuel left (level + 1) (bits / 2) (avail - 1) s h))
  ]

  -- From a state other than zero a toss ends with a level of at most `max`; only the generator moves,
  -- and stays off zero.
  pub toss-Tossed :
      (fuel max : ℕ) (s : Store E) → IsSeed s.prng → Tossed s max (toss (suc fuel) max s)
  unfolding toss
  toss-Tossed fuel max s h =
      let (drawn, seed) = xorshift32_lem fuel s h in
      let s' = record s { prng = scramble s.prng } in
      let (level, state, e, low, good) = toss_loop-Tossed fuel max 0 (scramble s.prng) 32 s' seed in
      (level, state, rw drawn e, omega arith, good)
