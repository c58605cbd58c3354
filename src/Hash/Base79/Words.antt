-- ===== src/Hash/Base79/Words.antt =====
-- Numbers in base 79, and the order of their digits.
use native.Mathlib.Nat.{pow-suc}
use kanekfs.Base.{
  ℕ, zero, suc, ◌+◌, ◌*◌, ◌^◌, ◌<◌, ◌==◌, ltb, ◌≡◌, refl, ap, arith, inl, inr, Bool-cases,
}

-- The number that the first `n` digits make.
unfoldable pub value : (ℕ → ℕ) → ℕ → ℕ
value f zero = 0
value f (suc n) = value f n * 79 + f n

-- The first `n` digits of `f` come before those of `g`.
abbrev pub Before : (ℕ → ℕ) → (ℕ → ℕ) → ℕ → Type 0
Before f g n = (k : ℕ) × (k < n) × ((i : ℕ) → i < k → f i ≡ g i) × (f k < g k)

module _ (f g : ℕ → ℕ) (small_f : (i : ℕ) → f i < 79) (small_g : (i : ℕ) → g i < 79) where
  pub value-digits : (n : ℕ) → value f n ≡ value g n → (i : ℕ) → i < n → f i ≡ g i
  unfolding value
  value-digits zero e i l = absurd (omega arith)
  value-digits (suc n) e i l =
      let same : value f n ≡ value g n = omega (arith, small_f n, small_g n) in
      elim (Bool-cases (i == n)) [
        | inl here ↦ let last : i ≡ n = ground arith in omega (arith, ap f last, ap g last)
        | inr below ↦ value-digits n same i (ground arith)
      ]

  pub value-Before : (n : ℕ) → value f n < value g n → Before f g n
  unfolding value
  value-Before zero h = absurd (omega arith)
  value-Before (suc n) h = elim (Bool-cases (ltb (value f n) (value g n))) [
    | inl less ↦
        let (k, l, same, first) = value-Before n (ground arith) in (k, omega arith, same, first)
    | inr not_less ↦
        let same : value f n ≡ value g n = ground (arith, small_f n, small_g n) in
        (n, omega arith, value-digits n same, omega arith)
  ]

  same-value : (n : ℕ) → ((i : ℕ) → i < n → f i ≡ g i) → value f n ≡ value g n
  unfolding value
  same-value zero h = refl
  same-value (suc n) h = omega (arith, same-value n (λ i l. h i (omega arith)), h n (omega arith))

  pub Before-value : (n : ℕ) → Before f g n → value f n < value g n
  unfolding value
  Before-value zero (k, l, same, first) = absurd (omega arith)
  Before-value (suc n) (k, l, same, first) = elim (Bool-cases (k == n)) [
    | inl here ↦
        let last : k ≡ n = ground arith in
        omega (arith, same-value n (λ i h. same i (omega arith)), ap f last, ap g last)
    | inr below ↦
        let less = Before-value n (k, ground arith, same, first) in
        omega (arith, small_f n, small_g n)
  ]

pub value-lt : (f : ℕ → ℕ) → ((i : ℕ) → f i < 79) → (n : ℕ) → value f n < 79 ^ n
unfolding value
value-lt f small zero = omega arith
value-lt f small (suc n) = omega (arith, value-lt f small n, small n, pow-suc 79 n)
