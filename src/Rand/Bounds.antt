-- ===== src/Rand/Bounds.antt =====
-- The numbers that `krand64` gives.
use native.Mathlib.Nat.{mod-lt}
use kanekfs.Base.{
  ℕ, ◌^◌, ◌<◌, ltb, u64, bit_and, bit_or, arith, inl, inr, Bool-cases, if◌then◌else◌,
}
use kanekfs.Bits.{bit_and_bit, bit_or_bit, bit_at-high, lt_of_bits, bit_at-lt}
use kanekfs.Rand.{mix, krand64}

bit_or-lt : (n x y : ℕ) → x < 2 ^ n → y < 2 ^ n → bit_or x y < 2 ^ n
bit_or-lt n x y h l =
    lt_of_bits n _
      (λ i g. ground (arith, bit_or_bit x y i, bit_at-high n x i h g, bit_at-high n y i l g))

bit_and-lt : (n x y : ℕ) → y < 2 ^ n → bit_and x y < 2 ^ n
bit_and-lt n x y l =
    lt_of_bits n _ (λ i g. ground (arith, bit_and_bit x y i, bit_at-high n y i l g, bit_at-lt x i))

or_low-lt : (x y : ℕ) → bit_or (u64 x) (bit_and y 0xffffffff) < 2 ^ 64
or_low-lt x y =
    bit_or-lt 64 (u64 x) (bit_and y 0xffffffff) (omega arith)
      (bit_and-lt 64 y 0xffffffff (omega arith))

mix-lt : (seed : ℕ) → mix seed < 2 ^ 64
unfolding mix
mix-lt seed = or_low-lt _ _

-- `krand64` gives a number below the limit, or below 2 ^ 64 if the limit is 0.
pub krand64-lt :
    (kseed64 limit : ℕ) → (krand64 kseed64 limit).0 < (if ltb 0 limit then limit else 2 ^ 64)
unfolding krand64
krand64-lt kseed64 limit = elim (Bool-cases (ltb 0 limit)) [
  | inl some_limit ↦ rw some_limit (mod-lt (mix kseed64) (ground arith))
  | inr no_limit ↦ rw no_limit (mix-lt kseed64)
]
