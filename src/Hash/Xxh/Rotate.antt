-- ===== src/Hash/Xxh/Rotate.antt =====
-- The rotations of fs/hash.c, digit by digit.
use kanekfs.Base.{
  ℕ, zero, suc, ◌+◌, ◌-◌, ◌*◌, ◌/◌, ◌%◌, ◌^◌, ◌<◌, ltb, u64, ◌≡◌, refl, sym, arith, if◌then◌else◌,
}
use native.Mathlib.Nat.{pow-suc, div-div-eq-div-mul, div-add-mod}
use kanekfs.Bits.{bit_at, zero_bit, bit_at-lt, bit_or_bit, bit_at-high}
use kanekfs.Hash.Xxh.{xxh_rotl64}

two_pow : (r : ℕ) → 2 ^ suc r ≡ 2 * 2 ^ r
two_pow r = omega (arith, pow-suc 2 r)

double : (r x : ℕ) → x * 2 ^ suc r ≡ x * 2 ^ r * 2
double r x = rw (two_pow r) (omega arith)

shift_left_bit : (r x j : ℕ) → bit_at (x * 2 ^ r) j ≡ (if ltb j r then 0 else bit_at x (j - r))
unfolding bit_at
shift_left_bit zero x j = let e : x * 2 ^ 0 ≡ x = omega arith in rw e (ground arith)
shift_left_bit (suc r) x zero =
    let e : x * 2 ^ suc r ≡ x * 2 ^ r * 2 = double r x in
    let even : x * 2 ^ suc r % 2 ≡ 0 = omega (arith, e) in rw even (ground arith)
shift_left_bit (suc r) x (suc j) =
    let half : x * 2 ^ suc r / 2 ≡ x * 2 ^ r = omega (arith, double r x) in
    rw half (ground (arith, shift_left_bit r x j))

shift_right_bit : (r x j : ℕ) → bit_at (x / 2 ^ r) j ≡ bit_at x (j + r)
unfolding bit_at
shift_right_bit zero x j =
    let e : x / 2 ^ 0 ≡ x = omega arith in let z : j + 0 ≡ j = omega arith in rw (e, z) refl
shift_right_bit (suc r) x j =
    let e : x / 2 ^ suc r ≡ x / 2 / 2 ^ r = rw (two_pow r) (sym (div-div-eq-div-mul x 2 (2 ^ r))) in
    let z : j + suc r ≡ suc (j + r) = omega arith in rw (e, z) (shift_right_bit r (x / 2) j)

mod_twice : (m x : ℕ) → x % (2 * m) ≡ x / 2 % m * 2 + x % 2
mod_twice m x =
    let q : x / 2 / m ≡ x / (2 * m) = div-div-eq-div-mul x 2 m in
    let p : 2 * m * (x / (2 * m)) ≡ m * (x / 2 / m) * 2 = grind (arith, q) in
    omega (arith, div-add-mod x (2 * m), div-add-mod (x / 2) m, p)

low_bit : (n x j : ℕ) → bit_at (x % 2 ^ n) j ≡ (if ltb j n then bit_at x j else 0)
unfolding bit_at
low_bit zero x j = let e : x % 2 ^ 0 ≡ 0 = omega arith in rw e (ground (arith, zero_bit j))
low_bit (suc n) x zero =
    let e : x % 2 ^ suc n ≡ x / 2 % 2 ^ n * 2 + x % 2 = rw (two_pow n) (mod_twice (2 ^ n) x) in
    ground arith
low_bit (suc n) x (suc j) =
    let e : x % 2 ^ suc n ≡ x / 2 % 2 ^ n * 2 + x % 2 = rw (two_pow n) (mod_twice (2 ^ n) x) in
    let half : x % 2 ^ suc n / 2 ≡ x / 2 % 2 ^ n = omega arith in
    rw half (ground (arith, low_bit n (x / 2) j))

-- On a word of 64 bits, `xxh_rotl64` by one digit or more and less than 64 moves digit `j - r` to
-- `j`, around the end.
pub xxh_rotl64-digit :
    (x r j : ℕ)
    → x < 2 ^ 64
    → 0 < r
    → r < 64
    → j < 64
    → bit_at (xxh_rotl64 x r) j ≡ bit_at x (if ltb j r then j + 64 - r else j - r)
unfolding xxh_rotl64
xxh_rotl64-digit x r j h z l w = ground (
  arith,
  bit_or_bit (u64 (x * 2 ^ r)) (x / 2 ^ (64 - r)) j,
  low_bit 64 (x * 2 ^ r) j,
  shift_left_bit r x j,
  shift_right_bit (64 - r) x j,
  bit_at-high 64 x (j + (64 - r)) h,
  bit_at-lt x (j - r),
)
