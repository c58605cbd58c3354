-- ===== src/Mkfs/Rounding.antt =====
-- How far a rounded number is from the number: less than one in 2 ^ b.
use mathlib.Core.Path.{subst}
use native.Mathlib.Nat.{pow-zero, pow-suc, mul-le-mul_right, one-le-pow, mod-lt, div-add-mod}
use kanekfs.Base.{
  ℕ, zero, suc, ◌+◌, ◌-◌, ◌*◌, ◌/◌, ◌%◌, ◌^◌, ◌≤◌, ◌<◌, ◌≡◌, refl, sym, ap, ◌∙◌, arith, ◌==◌, ltb,
  ◌&&◌, ◌||◌, inl, inr, Bool-cases, Bool, true, false, if◌then◌else◌,
}
use kanekfs.Mkfs.Floats.{digits, round_at, round_bits}

-- A number that is not 0 reaches its highest digit.
digits-le : (rounds n : ℕ) → 0 < n → 2 ^ digits rounds n ≤ n * 2
unfolding digits
digits-le zero n h = omega arith
digits-le (suc rounds) n h = elim (Bool-cases (n / 2 == 0)) [
  | inl last ↦ let e : n ≡ 1 = ground arith in rw e (one_digit rounds)
  | inr more ↦
      let nonzero : (n == 0) ≡ false = ground arith in
      rw nonzero
        (omega (arith, digits-le rounds (n / 2) (ground arith), pow-suc 2 (digits rounds (n / 2))))
]
  where
    one_digit : (r : ℕ) → 2 ^ digits (suc r) 1 ≤ 1 * 2
    one_digit zero = omega arith
    one_digit (suc r) = omega arith

-- A quotient or the next one, of which the code takes the nearer.
rounded-near :
    (q r d : ℕ) (down : Bool)
    → (down ≡ true → r * 2 ≤ d)
    → (down ≡ false → d ≤ r * 2)
    → r ≤ d
    → ((if down then q else q + 1) * d * 2 ≤ (d * q + r) * 2 + d)
      × ((d * q + r) * 2 ≤ (if down then q else q + 1) * d * 2 + d)
rounded-near q r d true lo hi small = let h = lo refl in grind arith
rounded-near q r d false lo hi small = let h = hi refl in grind arith

down-half :
    (r d : ℕ) (even : Bool)
    → ((ltb (r * 2) d || r * 2 == d && even) ≡ true → r * 2 ≤ d)
      × ((ltb (r * 2) d || r * 2 == d && even) ≡ false → d ≤ r * 2)
down-half r d even = elim (Bool-cases (ltb (r * 2) d)) [
  | inl below ↦ rw below ((λ _. ground arith), (λ e. ground arith))
  | inr above ↦ rw above (elim (Bool-cases (r * 2 == d)) [
    | inl same ↦ rw same ((λ _. ground arith), (λ _. ground arith))
    | inr other ↦ rw other ((λ e. ground arith), (λ _. ground arith))
  ])
]

digits_pos : (rounds n : ℕ) → 0 < digits rounds n → 0 < n
unfolding digits
digits_pos zero n h = omega arith
digits_pos (suc rounds) n h = ground arith

pow_add : (n a b : ℕ) → n ^ (a + b) ≡ n ^ a * n ^ b
pow_add n zero b =
    let same : n ^ (0 + b) ≡ n ^ b = ap (λ (t : ℕ). n ^ t) (omega arith) in
    rw (pow-zero n) (omega arith)
pow_add n (suc a) b =
    let rest = pow_add n a b in
    let one : n ^ suc (a + b) ≡ n ^ (a + b) * n = pow-suc n (a + b) in
    let swap : n ^ a * n ^ b * n ≡ n ^ a * n * n ^ b = swap_last (n ^ a) (n ^ b) n in
    ap (λ (t : ℕ). n ^ t) (omega arith)
    ∙ one
    ∙ ap (λ (t : ℕ). t * n) rest
    ∙ swap
    ∙ ap (λ (t : ℕ). t * n ^ b) (sym (pow-suc n a))
  where
    swap_last : (x y z : ℕ) → x * y * z ≡ x * z * y
    swap_last x y z = grind arith

scaled : (r y z d b e : ℕ) → d * b ≡ e → e ≤ z * 2 → r * 2 ≤ y * 2 + d → r * b ≤ y * b + z
scaled r y z d b e de ex h =
    let times : r * 2 * b ≤ (y * 2 + d) * b = mul-le-mul_right b h in
    let spread : (y * 2 + d) * b ≡ y * b * 2 + d * b = grind arith in
    let twice : r * 2 * b ≡ r * b * 2 = grind arith in omega arith

round_at-near : (s x : ℕ) → (round_at s x * 2 ≤ x * 2 + 2 ^ s) × (x * 2 ≤ round_at s x * 2 + 2 ^ s)
unfolding round_at
round_at-near s x =
    let d : ℕ = 2 ^ s in
    let q : ℕ = x / d in
    let r : ℕ = x % d in
    let half = down-half r d (q % 2 == 0) in
    let near =
      rounded-near q r d (ltb (r * 2) d || r * 2 == d && q % 2 == 0) half.0 half.1
        (omega (arith, mod-lt x {m = 2 ^ s} (one-le-pow s 2 (omega arith)))) in
    subst (λ y. (round_at s x * 2 ≤ y * 2 + 2 ^ s) × (y * 2 ≤ round_at s x * 2 + 2 ^ s))
      (div-add-mod x (2 ^ s)) near

pub round_bits-near :
    (b x : ℕ) → (round_bits b x * 2 ^ b ≤ x * 2 ^ b + x) × (x * 2 ^ b ≤ round_bits b x * 2 ^ b + x)
unfolding round_bits
round_bits-near b x =
    let s : ℕ = digits 256 x - b in
    let near = round_at-near s x in
    elim (Bool-cases (ltb b (digits 256 x))) [
      | inl more ↦
          let top : 2 ^ s * 2 ^ b ≡ 2 ^ digits 256 x =
            sym (pow_add 2 s b) ∙ ap (λ (t : ℕ). 2 ^ t) (ground arith) in
          let high = digits-le 256 x (digits_pos 256 x (ground arith)) in
          (
            scaled (round_at s x) x x (2 ^ s) (2 ^ b) (2 ^ digits 256 x) top high near.0,
            scaled x (round_at s x) x (2 ^ s) (2 ^ b) (2 ^ digits 256 x) top high near.1,
          )
      | inr fits ↦
          let none : s ≡ 0 = ground arith in
          let unit_step : 2 ^ s ≡ 1 = ap (λ (t : ℕ). 2 ^ t) none in
          let same : round_at s x ≡ x = omega arith in rw (same) (omega arith, omega arith)
    ]
