-- ===== src/Map/Byte/Gaps.antt =====
-- `byte_find_gap` finds the first run of zeroes of the wanted length in a byte.
use kanekfs.Base.{
  ℕ, zero, suc, ◌+◌, ◌-◌, ◌≤◌, ◌<◌, Bool, true, false, ◌==◌, ltb, ◌≡◌, ◌≢◌, ◌∙◌, arith, inl, inr,
  Bool-cases,
}
use kanekfs.Bits.{bit_at}
use kanekfs.Map.Byte.{Gap, found, no_gap, end_of_byte, find_gap_loop, byte_find_gap}
use kanekfs.Map.Byte.Runs.{mask_test}

-- A gap: `n` zeroes from `start` on.
abbrev pub IsClear : (ℕ → ℕ) → ℕ → ℕ → Type 0
IsClear digits start n = (j : ℕ) → start ≤ j → j < start + n → digits j ≡ 0

-- No gap of `n` zeroes begins at `lo` or later and ends at `hi` or earlier.
abbrev pub NoGap : (ℕ → ℕ) → ℕ → ℕ → ℕ → Type 0
NoGap digits lo hi n = (k : ℕ) → lo ≤ k → k + n ≤ hi → ¬ IsClear digits k n

-- What the three results, with `*count`, say of a search for `n` zeroes from digit `lo` on.
abbrev pub GapSpec : (ℕ → ℕ) → ℕ → ℕ → Gap × ℕ → Type 0
GapSpec digits lo n (found i, count) =
    (lo ≤ i)
    × (i + n ≤ 8)
    × (count ≡ n)
    × IsClear digits i n
    × ((k : ℕ) → lo ≤ k → k < i → ¬ IsClear digits k n)
GapSpec digits lo n (no_gap, count) = (count ≡ 0) × NoGap digits lo 8 n
GapSpec digits lo n (end_of_byte, count) =
    (lo + count ≤ 8)
    × (0 < count)
    × (count < n)
    × IsClear digits (8 - count) count
    × NoGap digits lo 8 n

-- A digit 1 at `start` lets a search that begins after it count for one that begins earlier.
GapSpec-widen :
    (digits : ℕ → ℕ) (lo start n : ℕ) (r : Gap × ℕ)
    → lo ≤ start
    → start < lo + n
    → digits start ≢ 0
    → GapSpec digits (start + 1) n r
    → GapSpec digits lo n r
GapSpec-widen digits lo start n (found i, count) p q one (a, b, c, clear, none) = (
  omega arith,
  b,
  c,
  clear,
  λ k h l free. elim (Bool-cases (ltb start k)) [
    | inl after ↦ none k (ground arith) l free
    | inr before ↦ one (free start (ground arith) (omega arith))
  ],
)
GapSpec-widen digits lo start n (no_gap, count) p q one (c, none) = (
  c,
  λ k h l free. elim (Bool-cases (ltb start k)) [
    | inl after ↦ none k (ground arith) l free
    | inr before ↦ one (free start (ground arith) (omega arith))
  ],
)
GapSpec-widen digits lo start n (end_of_byte, count) p q one (a, b, c, clear, none) = (
  omega arith,
  b,
  c,
  clear,
  λ k h l free. elim (Bool-cases (ltb start k)) [
    | inl after ↦ none k (ground arith) l free
    | inr before ↦ one (free start (ground arith) (omega arith))
  ],
)

find_gap_loop-GapSpec :
    (rounds start n byte : ℕ) (found_gap : Bool) (gap_index count : ℕ)
    → start + rounds ≡ 8
    → gap_index + count ≡ start
    → count < n
    → found_gap ≡ ltb 0 count
    → IsClear (bit_at byte) gap_index count
    → GapSpec
        (bit_at byte)
        gap_index
        n
        (find_gap_loop rounds start n byte found_gap gap_index count)
unfolding find_gap_loop
find_gap_loop-GapSpec zero start n byte true gap_index count e g c f clear =
    let end : 8 - count ≡ gap_index = omega arith in
    (omega arith, ground arith, c, rw end clear, λ k h l free. absurd (omega arith))
find_gap_loop-GapSpec zero start n byte false gap_index count e g c f clear =
    (ground arith, λ k h l free. absurd (ground arith))
find_gap_loop-GapSpec (suc rounds) start n byte fg gap_index count e g c f clear =
    let test = mask_test start byte (omega arith) in
    elim (Bool-cases (bit_at byte start == 0)) [
      | inl free ↦
          let grown : IsClear (bit_at byte) gap_index (count + 1) =
            λ j p q. ground (arith, clear j) in
          rw (test ∙ free) (elim (Bool-cases (count + 1 == n)) [
            | inl full ↦ rw full (
              omega arith,
              ground arith,
              ground arith,
              λ j p q. grown j p (ground arith),
              λ k p q free. absurd (omega arith),
            )
            | inr short ↦ rw short (
                find_gap_loop-GapSpec rounds (start + 1) n byte true gap_index (count + 1)
                  (omega arith) (omega arith) (ground arith) (ground arith) grown)
          ])
      | inr taken ↦ rw (test ∙ taken) (
          GapSpec-widen (bit_at byte) gap_index start n
            (find_gap_loop rounds (start + 1) n byte false (start + 1) 0) (omega arith)
            (omega arith) (ground arith)
            (find_gap_loop-GapSpec rounds (start + 1) n byte false (start + 1) 0 (omega arith)
              (omega arith) (omega arith) (ground arith) (λ j p q. absurd (omega arith))))
    ]

pub byte_find_gap-GapSpec :
    (start n byte : ℕ)
    → start < 8
    → 0 < n
    → GapSpec (bit_at byte) start n (byte_find_gap start n byte)
unfolding byte_find_gap
byte_find_gap-GapSpec start n byte s p =
    find_gap_loop-GapSpec (8 - start) start n byte false start 0 (omega arith) (omega arith) p
      (ground arith) (λ j h k. absurd (omega arith))
