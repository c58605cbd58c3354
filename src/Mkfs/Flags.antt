-- ===== src/Mkfs/Flags.antt =====
-- Tests of several flags at once.
use kanekfs.Base.{ℕ, ◌≡◌, refl, ap, arith, bit_and, bit_or, false, ◌==◌, ◌||◌, inl, inr, Bool-cases}
use kanekfs.Bits.{bit_at, zero_bit, bit_and_bit, bit_or_bit, eq_of_bits}
use kanekfs.Mkfs.{any}

bit_and-bit_or : (f a b : ℕ) → bit_and f (bit_or a b) ≡ bit_or (bit_and f a) (bit_and f b)
bit_and-bit_or f a b = eq_of_bits _ _ (λ i. omega (
  arith,
  bit_and_bit f (bit_or a b) i,
  bit_or_bit a b i,
  bit_or_bit (bit_and f a) (bit_and f b) i,
  bit_and_bit f a i,
  bit_and_bit f b i,
))

bit_or-zero : (a b : ℕ) → bit_or a b ≡ 0 → a ≡ 0
bit_or-zero a b e =
    eq_of_bits a 0 (λ i. omega (arith, bit_or_bit a b i, ap (λ (t : ℕ). bit_at t i) e, zero_bit i))

bit_or-none : (b : ℕ) → bit_or 0 b ≡ b
bit_or-none b = eq_of_bits _ _ (λ i. omega (arith, bit_or_bit 0 b i, zero_bit i))

-- A test for one of two flags.
pub any-bit_or : (f a b : ℕ) → any f (bit_or a b) ≡ (any f a || any f b)
any-bit_or f a b = rw (bit_and-bit_or f a b) (elim (Bool-cases (bit_and f a == 0)) [
  | inl clear ↦ let z : bit_and f a ≡ 0 = ground arith in rw (z, bit_or-none (bit_and f b)) refl
  | inr has ↦
      let other : (bit_or (bit_and f a) (bit_and f b) == 0) ≡ false =
        elim (Bool-cases (bit_or (bit_and f a) (bit_and f b) == 0)) [
          | inl zero_both ↦
              let z = bit_or-zero (bit_and f a) (bit_and f b) (ground arith) in ground arith
          | inr e ↦ e
        ] in
      rw (has, other) refl
])
