-- ===== src/Map/Byte/Digits.antt =====
-- What the byte helpers do, digit by digit.
use kanekfs.Base.{
  ℕ, zero, suc, ◌+◌, ◌^◌, ◌≤◌, ◌<◌, min, max, bit_or, bit_xor, Bool, ◌==◌, ltb, leb, u8,
  if◌then◌else◌, ◌≡◌, ◌&&◌, arith, inl, inr, Bool-cases,
}
use kanekfs.Bits.{
  bit_at, bit_at-lt, zero_bit, bit_and_bit, bit_or_bit, bit_xor_bit, two_pow_bit, bit_at-high,
  lt_of_bits, bit_and-two_pow, all_ones_bit,
}
use kanekfs.Map.Byte.{stop_bit, mask_loop, byte_set_bits, byte_get_bit}

-- Below 256 the cast to `uint8_t` changes nothing.
or_bit-lt : (mask k : ℕ) → mask < 2 ^ 8 → k < 8 → bit_or mask (2 ^ k) < 2 ^ 8
or_bit-lt mask k h l =
    lt_of_bits 8 _
      (λ i g. ground (arith, bit_or_bit mask (2 ^ k) i, two_pow_bit k i, bit_at-high 8 mask i h g))

-- Digit `j` lies in `lo` to `hi`, the end excluded.
abbrev pub within : ℕ → ℕ → ℕ → Bool
within lo hi j = leb lo j && ltb j hi

-- One round of the mask's loop.
mask_round :
    (start mask j : ℕ)
    → mask < 2 ^ 8
    → start < 8
    → (u8 (bit_or mask (2 ^ start)) < 2 ^ 8)
      × (bit_at (u8 (bit_or mask (2 ^ start))) j ≡ (if start == j then 1 else bit_at mask j))
mask_round start mask j h s =
    let small = or_bit-lt mask start h s in
    let same : u8 (bit_or mask (2 ^ start)) ≡ bit_or mask (2 ^ start) = omega arith in
    rw same
      (small, ground (arith, bit_or_bit mask (2 ^ start) j, two_pow_bit start j, bit_at-lt mask j))

-- The mask's loop turns on the digits from `start` up to `to`, and always digit `start`.
mask_loop-bit :
    (rounds start to mask j : ℕ)
    → mask < 2 ^ 8
    → start < 8
    → to ≤ 8
    → to ≤ start + rounds
    → 0 < rounds
    → (mask_loop rounds start to mask < 2 ^ 8)
      × (bit_at (mask_loop rounds start to mask) j
          ≡ (if within start (max (start + 1) to) j then 1 else bit_at mask j))
unfolding mask_loop
mask_loop-bit zero start to mask j h s t r p = absurd (omega arith)
mask_loop-bit (suc rounds) start to mask j h s t r p =
    let (small, one) = mask_round start mask j h s in
    elim (Bool-cases (ltb (start + 1) to)) [
      | inl more ↦
          let ih =
            mask_loop-bit rounds (start + 1) to (u8 (bit_or mask (2 ^ start))) j small
              (ground arith) t (omega arith) (ground arith) in
          ground (arith, ih, one)
      | inr last ↦ ground (arith, small, one)
    ]

-- The first digit after those that `byte_set_bits` and `byte_count_bits` look at: their
-- `do … while` takes at least one.
abbrev pub stop_after : ℕ → ℕ → ℕ
stop_after start numbits = max (start + 1) (min 8 (start + numbits))

pub full_byte : (j : ℕ) → bit_at 255 j ≡ (if ltb j 8 then 1 else 0)
full_byte j = all_ones_bit 8 j

-- From a digit of a byte on, `byte_set_bits` changes the digits from `start` up to the count, at
-- least one and none past the byte, to the wanted value, and no other digit.
pub byte_set_bits-bit :
    (start numbits byte flag j : ℕ)
    → start < 8
    → byte < 2 ^ 8
    → bit_at (byte_set_bits start numbits byte flag) j ≡ (
        if within start (stop_after start numbits) j
        then (if flag == 1 then 1 else 0)
        else bit_at byte j)
unfolding byte_set_bits
byte_set_bits-bit start numbits byte flag j s b =
    let mask = mask_loop 8 start (stop_bit start numbits) 0 in
    let (small, m) =
      mask_loop-bit 8 start (stop_bit start numbits) 0 j (omega arith) s (ground arith)
        (ground arith) (omega arith) in
    ground (
      arith,
      m,
      zero_bit j,
      bit_at-lt byte j,
      bit_at-high 8 byte j b,
      full_byte j,
      bit_or_bit byte mask j,
      bit_and_bit byte (bit_xor mask 255) j,
      bit_xor_bit mask 255 j,
    )

pub byte_set_bits-lt :
    (start numbits byte flag : ℕ)
    → start < 8
    → byte < 2 ^ 8
    → byte_set_bits start numbits byte flag < 2 ^ 8
byte_set_bits-lt start numbits byte flag s b = lt_of_bits 8 _ (λ i h.
    ground (arith, byte_set_bits-bit start numbits byte flag i s b, bit_at-high 8 byte i b h))

pub byte_get_bit_lem : (byte bit : ℕ) → byte_get_bit byte bit ≡ bit_at byte bit
unfolding byte_get_bit
byte_get_bit_lem byte bit = ground (arith, bit_and-two_pow byte bit, bit_at-lt byte bit)
