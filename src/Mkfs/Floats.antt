-- ===== src/Mkfs/Floats.antt =====
-- The `float` and `double` arithmetic of `compute_values`. A number is an integer times 2 ^ -120;
-- a result is rounded to 24 or 53 binary digits, to the nearest, and to the even one of two.
use kanekfs.Base.{ℕ, zero, suc, ◌+◌, ◌-◌, ◌*◌, ◌/◌, ◌%◌, ◌^◌, ◌==◌, ltb, ◌&&◌, ◌||◌, if◌then◌else◌}

-- The number of binary digits, with rounds to spare.
unfoldable pub digits : ℕ → ℕ → ℕ
digits zero n = 0
digits (suc rounds) n = let rest = digits rounds (n / 2) in if n == 0 then 0 else suc rest

-- `x` with its lowest `s` digits rounded away.
unfoldable pub round_at : ℕ → ℕ → ℕ
round_at s x =
    let q = x / 2 ^ s in
    let r = x % 2 ^ s in
    let down = ltb (r * 2) (2 ^ s) || r * 2 == 2 ^ s && q % 2 == 0 in
    (if down then q else q + 1) * 2 ^ s

unfoldable pub round_bits : ℕ → ℕ → ℕ
round_bits b x = round_at (digits 256 x - b) x

abbrev pub unit : ℕ
unit = 2 ^ 120

-- `(float) n * ( (float) p / 100.0)`, as a `float`.
unfoldable pub float_part : ℕ → ℕ → ℕ
float_part n p = round_bits 24 (round_bits 53 (round_bits 24 n * round_bits 53 (p * unit / 100)))

-- `(float) n * ( 100.0 / (float) p)`, as a `double`, for a `p` that is not 0.
unfoldable pub double_whole : ℕ → ℕ → ℕ
double_whole n p = round_bits 53 (round_bits 24 n * round_bits 53 (100 * unit / p))
