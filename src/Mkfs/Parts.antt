-- ===== src/Mkfs/Parts.antt =====
-- How large a part of a file the `float` arithmetic of `compute_values` gives.
use native.Mathlib.Nat.{mul-le-mul, mul-le-mul_left}
use kanekfs.Base.{ℕ, ◌*◌, ◌/◌, ◌≤◌, ◌≡◌, arith}
use kanekfs.Mkfs.Floats.{round_bits, unit, float_part}
use kanekfs.Mkfs.Rounding.{round_bits-near}

-- Less than one in a thousand from `x`.
record IsNear (x x' : ℕ) : Type 0 where
  above : x' * 1000 ≤ x * 1001
  below : x * 999 ≤ x' * 1000

float-IsNear : (x : ℕ) → IsNear x (round_bits 24 x)
float-IsNear x =
    let h = round_bits-near 24 x in
    record { above = omega (arith, h.0); below = omega (arith, h.1) }

double-IsNear : (x : ℕ) → IsNear x (round_bits 53 x)
double-IsNear x =
    let h = round_bits-near 53 x in
    record { above = omega (arith, h.0); below = omega (arith, h.1) }

product_above :
    (n c a c' : ℕ) → a * 1000 ≤ n * 1001 → c' * 1000 ≤ c * 1001 → a * c' * 1000000 ≤ n * c * 1002001
product_above n c a c' h k =
    let t : a * 1000 * (c' * 1000) ≤ n * 1001 * (c * 1001) = mul-le-mul h k in
    let l : a * 1000 * (c' * 1000) ≡ a * c' * 1000000 = grind arith in
    let r : n * 1001 * (c * 1001) ≡ n * c * 1002001 = grind arith in omega arith

product_below :
    (n c a c' : ℕ) → n * 999 ≤ a * 1000 → c * 999 ≤ c' * 1000 → n * c * 998001 ≤ a * c' * 1000000
product_below n c a c' h k =
    let t : n * 999 * (c * 999) ≤ a * 1000 * (c' * 1000) = mul-le-mul h k in
    let l : a * 1000 * (c' * 1000) ≡ a * c' * 1000000 = grind arith in
    let r : n * 999 * (c * 999) ≡ n * c * 998001 = grind arith in omega arith

part_near :
    (n c : ℕ)
    → (round_bits 24 (round_bits 53 (round_bits 24 n * round_bits 53 c)) * 1000 ≤ n * c * 1005)
      × (n * c * 995 ≤ round_bits 24 (round_bits 53 (round_bits 24 n * round_bits 53 c)) * 1000)
part_near n c =
    let a : ℕ = round_bits 24 n in
    let c' : ℕ = round_bits 53 c in
    let d : ℕ = round_bits 53 (a * c') in
    let na = float-IsNear n in
    let nc = double-IsNear c in
    let nd = double-IsNear (a * c') in
    let nx = float-IsNear d in
    (
      omega (arith, product_above n c a c' na.above nc.above, nd.above, nx.above),
      omega (arith, product_below n c a c' na.below nc.below, nd.below, nx.below),
    )

-- From 2 to 90 percent.
pub float_part-between :
    (n p : ℕ)
    → 2 ≤ p
    → p ≤ 90
    → (float_part n p * 1000 ≤ n * unit * 905) × (n * unit * 19 ≤ float_part n p * 1000)
unfolding float_part
float_part-between n p lo hi =
    let c : ℕ = p * unit / 100 in
    let most : c * 10 ≤ unit * 9 = omega arith in
    let least : unit * 98 ≤ c * 5000 = omega arith in
    let near = part_near n c in
    let times_most : n * (c * 10) ≤ n * (unit * 9) = mul-le-mul_left n most in
    let times_least : n * (unit * 98) ≤ n * (c * 5000) = mul-le-mul_left n least in
    let e1 : n * (c * 10) ≡ n * c * 10 = grind arith in
    let e2 : n * (unit * 9) ≡ n * unit * 9 = grind arith in
    let e3 : n * (unit * 98) ≡ n * unit * 98 = grind arith in
    let e4 : n * (c * 5000) ≡ n * c * 5000 = grind arith in
    (omega (arith, near.0), omega (arith, near.1))
