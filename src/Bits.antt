-- ===== src/Bits.antt =====
-- The binary digits of a native number, and what `&`, `|` and `^` do to each of them.
use Prim.Native.Nat.{digits, bit_and-bitwise, bit_or-bitwise, bit_xor-bitwise, differ}
use native.Mathlib.Nat.{le_refl, pow-suc, one-le-pow}
use kanekfs.Base.{
  ℕ, zero, suc, ◌+◌, ◌*◌, ◌/◌, ◌%◌, ◌^◌, ◌≤◌, ◌<◌, min, max, bit_and, bit_or, bit_xor, ◌≡◌, refl,
  ap, sym, ◌∙◌, inl, inr, arith, ◌==◌, ltb, ◌-◌, if◌then◌else◌, Bool-cases,
}

-- Digit `i`, the lowest being digit 0.
unfoldable pub bit_at : ℕ → ℕ → ℕ
bit_at x zero = x % 2
bit_at x (suc i) = bit_at (x / 2) i

pub bit_at-lt : (x i : ℕ) → bit_at x i < 2
unfolding bit_at
bit_at-lt x zero = omega arith
bit_at-lt x (suc i) = bit_at-lt (x / 2) i

pub zero_bit : (i : ℕ) → bit_at 0 i ≡ 0
unfolding bit_at
zero_bit zero = refl
zero_bit (suc i) = zero_bit i

module _ (z : ℕ → ℕ) (f : ℕ → ℕ → ℕ) (digit : (a b : ℕ) → a < 2 → b < 2 → f a b < 2)
    (done : (b i : ℕ) → bit_at (z b) i ≡ f 0 (bit_at b i)) where
  digits-bit : (n a b i : ℕ) → a ≤ n → bit_at (digits z f n a b) i ≡ f (bit_at a i) (bit_at b i)
  unfolding bit_at
  digits-bit zero zero b i h = rw (zero_bit i) (done b i)
  digits-bit zero (suc a) b i h = absurd (omega arith)
  digits-bit (suc n) zero b i h = rw (zero_bit i) (done b i)
  digits-bit (suc n) (suc a) b zero h =
      omega (arith, digit (suc a % 2) (b % 2) (omega arith) (omega arith))
  digits-bit (suc n) (suc a) b (suc i) h =
      let rest = digits z f n (suc a / 2) (b / 2) in
      let low = f (suc a % 2) (b % 2) in
      let q : (rest * 2 + low) / 2 ≡ rest =
        omega (arith, digit (suc a % 2) (b % 2) (omega arith) (omega arith)) in
      let ih = digits-bit n (suc a / 2) (b / 2) i (omega arith) in ap (λ (t : ℕ). bit_at t i) q ∙ ih

pub bit_and_bit : (a b i : ℕ) → bit_at (bit_and a b) i ≡ min (bit_at a i) (bit_at b i)
bit_and_bit a b i = rw (bit_and-bitwise a b) (
    digits-bit (λ _. 0) min (λ a b h k. omega arith) (λ b i. rw (zero_bit i) (omega arith)) a a b i
      (le_refl a))

pub bit_or_bit : (a b i : ℕ) → bit_at (bit_or a b) i ≡ max (bit_at a i) (bit_at b i)
bit_or_bit a b i =
    rw (bit_or-bitwise a b)
      (digits-bit (λ b. b) max (λ a b h k. omega arith) (λ b i. omega arith) a a b i (le_refl a))

differ-lt : (a b : ℕ) → a < 2 → b < 2 → differ a b < 2
differ-lt zero b h k = k
differ-lt (suc a) zero h k = h
differ-lt (suc a) (suc b) h k = differ-lt a b (omega arith) (omega arith)

pub bit_xor_bit : (a b i : ℕ) → bit_at (bit_xor a b) i ≡ differ (bit_at a i) (bit_at b i)
bit_xor_bit a b i =
    rw (bit_xor-bitwise a b)
      (digits-bit (λ b. b) differ differ-lt (λ b i. refl) a a b i (le_refl a))

-- `1 << k` has the one digit `k`.
pub two_pow_bit : (k i : ℕ) → bit_at (2 ^ k) i ≡ (if k == i then 1 else 0)
unfolding bit_at
two_pow_bit zero zero = refl
two_pow_bit zero (suc i) = ground (arith, zero_bit i)
two_pow_bit (suc k) zero = ground (arith, pow-suc 2 k)
two_pow_bit (suc k) (suc i) =
    let half : 2 ^ suc k / 2 ≡ 2 ^ k = omega (arith, pow-suc 2 k) in
    ground (arith, ap (λ (t : ℕ). bit_at t i) half, two_pow_bit k i)

-- Numbers with the same digits are equal.
eq_of_bits_below : (n a b : ℕ) → a ≤ n → b ≤ n → ((i : ℕ) → bit_at a i ≡ bit_at b i) → a ≡ b
unfolding bit_at
eq_of_bits_below zero a b h k e = omega arith
eq_of_bits_below (suc n) a b h k e =
    let low : a % 2 ≡ b % 2 = e 0 in
    let rest = eq_of_bits_below n (a / 2) (b / 2) (omega arith) (omega arith) (λ i. e (suc i)) in
    omega (arith, low, rest)

pub eq_of_bits : (a b : ℕ) → ((i : ℕ) → bit_at a i ≡ bit_at b i) → a ≡ b
eq_of_bits a b e = eq_of_bits_below (a + b) a b (omega arith) (omega arith) e

-- The test `x & (1 << k)`.
pub bit_and-two_pow : (x k : ℕ) → (bit_and x (2 ^ k) == 0) ≡ (bit_at x k == 0)
bit_and-two_pow x k = elim (Bool-cases (bit_at x k == 0)) [
  | inl clear ↦
      let z : bit_and x (2 ^ k) ≡ 0 = eq_of_bits _ 0 (λ i.
        ground (arith, bit_and_bit x (2 ^ k) i, two_pow_bit k i, zero_bit i, bit_at-lt x i)) in
      ground (arith, z)
  | inr set ↦ ground (arith, zero_bit k, bit_and_bit x (2 ^ k) k, two_pow_bit k k, bit_at-lt x k)
]

-- A number below `2 ^ n` has no digit from `n` on, and the other way round.
pub bit_at-high : (n x i : ℕ) → x < 2 ^ n → n ≤ i → bit_at x i ≡ 0
unfolding bit_at
bit_at-high zero x i h k = let z : x ≡ 0 = omega arith in rw z (zero_bit i)
bit_at-high (suc n) x zero h k = absurd (omega arith)
bit_at-high (suc n) x (suc i) h k =
    bit_at-high n (x / 2) i (omega (arith, pow-suc 2 n)) (omega arith)

pub lt_of_bits : (n x : ℕ) → ((i : ℕ) → n ≤ i → bit_at x i ≡ 0) → x < 2 ^ n
unfolding bit_at
lt_of_bits zero x h =
    let z : x ≡ 0 = eq_of_bits x 0 (λ i. h i (omega arith) ∙ sym (zero_bit i)) in omega arith
lt_of_bits (suc n) x h =
    omega (arith, pow-suc 2 n, lt_of_bits n (x / 2) (λ i k. h (suc i) (omega arith)))

mod_eight_bit : (a i : ℕ) → bit_at (a % 8) i ≡ min (bit_at a i) (bit_at 7 i)
unfolding bit_at
mod_eight_bit a zero = omega arith
mod_eight_bit a (suc zero) = omega arith
mod_eight_bit a (suc (suc zero)) = omega arith
mod_eight_bit a (suc (suc (suc i))) =
    let none : a % 8 / 2 / 2 / 2 ≡ 0 = omega arith in rw none (rw (zero_bit i) (omega arith))

-- `a & 0x07`.
pub bit_and_seven : (a : ℕ) → bit_and a 7 ≡ a % 8
bit_and_seven a = eq_of_bits _ _ (λ i. omega (arith, bit_and_bit a 7 i, mod_eight_bit a i))

pub bit_and_comm : (a b : ℕ) → bit_and a b ≡ bit_and b a
bit_and_comm a b = eq_of_bits _ _ (λ i. omega (arith, bit_and_bit a b i, bit_and_bit b a i))

pub two_pow-lt_byte : (k : ℕ) → k < 8 → 2 ^ k < 2 ^ 8
two_pow-lt_byte k h = lt_of_bits 8 _ (λ i p. ground (arith, two_pow_bit k i))

-- `2 ^ n - 1` has the digits below `n`.
pub all_ones_bit : (n j : ℕ) → bit_at (2 ^ n - 1) j ≡ (if ltb j n then 1 else 0)
unfolding bit_at
all_ones_bit zero j = ground (arith, zero_bit j)
all_ones_bit (suc n) zero = ground (arith, pow-suc 2 n, one-le-pow n 2)
all_ones_bit (suc n) (suc j) =
    let half : (2 ^ suc n - 1) / 2 ≡ 2 ^ n - 1 = omega (arith, pow-suc 2 n, one-le-pow n 2) in
    ground (arith, ap (λ (t : ℕ). bit_at t j) half, all_ones_bit n j)

-- `f |= 1 << k`.
pub set_flag_bit : (f k j : ℕ) → bit_at (bit_or f (2 ^ k)) j ≡ (if k == j then 1 else bit_at f j)
set_flag_bit f k j = ground (arith, bit_or_bit f (2 ^ k) j, two_pow_bit k j, bit_at-lt f j)

-- `f &= ~(1 << k)`, in a word of `n` bits.
pub clear_flag_bit :
    (n f k j : ℕ)
    → j < n
    → bit_at (bit_and f (bit_xor (2 ^ k) (2 ^ n - 1))) j ≡ (if k == j then 0 else bit_at f j)
clear_flag_bit n f k j h = ground (
  arith,
  bit_and_bit f (bit_xor (2 ^ k) (2 ^ n - 1)) j,
  bit_xor_bit (2 ^ k) (2 ^ n - 1) j,
  two_pow_bit k j,
  all_ones_bit n j,
  bit_at-lt f j,
)

pub bit_xor-lt : (n x y : ℕ) → x < 2 ^ n → y < 2 ^ n → bit_xor x y < 2 ^ n
bit_xor-lt n x y h l =
    lt_of_bits n _
      (λ i g. ground (arith, bit_xor_bit x y i, bit_at-high n x i h g, bit_at-high n y i l g))
