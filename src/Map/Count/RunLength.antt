-- ===== src/Map/Count/RunLength.antt =====
-- The loop of `bm_count`, and `bm_count` as a whole.
use kanekfs.Base.{
  ℕ, zero, suc, ◌+◌, ◌-◌, ◌*◌, ◌/◌, ◌%◌, ◌^◌, ◌≤◌, ◌<◌, min, bit_and, pos, List, some, drop,
  drop-cons, ◌≡◌, ◌≢◌, refl, arith, u64, get_or, length, get_elem?-eq-get_or, leb, ltb, ◌==◌, ◌&&◌,
  not, inl, inr, Bool-cases, if◌then◌else◌,
}
use kanekfs.Bits.{bit_at, zero_bit, bit_and_seven}
use kanekfs.Map.Byte.{byte_count_bits}
use kanekfs.Map.Byte.Digits.{full_byte}
use kanekfs.Map.Byte.Runs.{
  IsRun, IsRun-none, IsRun-at, IsRun-all, IsRun-append, byte_count_bits-IsRun,
}
use kanekfs.Map.Count.Runs.{IsRun-byte, IsRun-wider, IsRun-flag, uniform_byte}
use kanekfs.Map.Bitmap.Sequence.{bit, IsBytes}
use kanekfs.Map.Count.{count_loop, bm_count}

module _ (bm : List ℕ) (num flag : ℕ) (bytes : IsBytes bm) (two : flag < 2)
    (small : num < 2 ^ 31) where
  -- Where the byte is neither 0xff nor 0x00 the run ends in it, or at the limit.
  mixed_byte :
      (location pending : ℕ)
      → 0 < pending
      → get_or bm location 0 ≢ 255
      → get_or bm location 0 ≢ 0
      → IsRun
          (bit bm)
          flag
          (location * 8)
          pending
          (byte_count_bits 0 pending (get_or bm location 0) flag)
  mixed_byte location pending p ones zeroes =
      let byte = get_or bm location 0 in
      let r = byte_count_bits 0 pending byte flag in
      let run : IsRun (bit_at byte) flag 0 (min 8 pending) r = IsRun-flag flag two (
        IsRun-at 0 (min 8 pending) r refl (ground arith) refl
          (byte_count_bits-IsRun 0 pending byte flag (omega arith))) in
      let run' : IsRun (bit bm) flag (location * 8) (min 8 pending) r =
        IsRun-at (location * 8) (min 8 pending) r (omega arith) refl refl
          (IsRun-byte bm location flag 0 (min 8 pending) r (omega arith) run) in
      elim (Bool-cases (ltb r (min 8 pending))) [
        | inl early ↦ IsRun-wider pending (ground arith) (omega arith) run'
        | inr whole ↦ elim (Bool-cases (leb pending 8)) [
          | inl short ↦ IsRun-at (location * 8) pending r refl (ground arith) refl run'
          | inr long ↦ absurd (
              ground (
                arith,
                uniform_byte byte flag (bytes location)
                    (λ j h. run.same j (omega arith) (ground arith)) two,
              ))
        ]
      ]

  -- Whole bytes of the wanted digit.
  same_byte :
      (location : ℕ)
      → get_or bm location 0 ≡ (if flag == 1 then 255 else 0)
      → (j : ℕ) → location * 8 ≤ j
      → j < location * 8 + 8
      → bit bm j ≡ flag
  unfolding bit
  same_byte location e j p q =
      let there : j / 8 ≡ location = omega arith in
      rw (there, e) (ground (arith, full_byte (j % 8), zero_bit (j % 8)))

  other_byte :
      (location : ℕ)
      → get_or bm location 0 ≡ (if flag == 1 then 0 else 255)
      → bit bm (location * 8) ≢ flag
  unfolding bit
  other_byte location e =
      let there : location * 8 / 8 ≡ location = omega arith in
      let low : location * 8 % 8 ≡ 0 = omega arith in
      rw (there, low, e) (ground (arith, full_byte 0, zero_bit 0))

  count_loop-IsRun :
      (left location pending c : ℕ)
      → location + left ≡ length bm
      → 0 < pending
      → c + pending ≡ num
      → location * 8 + pending ≤ length bm * 8
      → (r : ℕ) × (count_loop (drop location bm) num pending c flag ≡ some (pos 0, c + r))
        × IsRun (bit bm) flag (location * 8) pending r
  unfolding count_loop
  count_loop-IsRun zero location pending c l p e fits = absurd (omega arith)
  count_loop-IsRun (suc left) location pending c l p e fits =
      let byte = get_or bm location 0 in
      let split = drop-cons bm location 0 (omega arith) in
      elim (Bool-cases (not (byte == 255) && not (byte == 0))) [
        | inl mixed ↦ (
          byte_count_bits 0 pending byte flag,
          rw split (ground arith),
          mixed_byte location pending p (ground arith) (ground arith),
        )
        | inr uniform ↦ elim (Bool-cases (byte == (if flag == 1 then 255 else 0))) [
          | inr other ↦ (
            0,
            rw split (ground arith),
            IsRun-none (bit bm) flag (location * 8) pending (other_byte location (ground arith)),
          )
          | inl wanted ↦
              let same = same_byte location (ground arith) in
              elim (Bool-cases (leb pending 8)) [
                | inl last ↦ (
                  pending,
                  rw split (ground arith),
                  IsRun-all (bit bm) flag (location * 8) pending (λ j h k. same j h (ground arith)),
                )
                | inr more ↦
                    let (r, returns, run) =
                      count_loop-IsRun left (location + 1) (pending - 8) (c + 8) (omega arith)
                        (ground arith) (ground arith) (ground arith) in
                    (
                      8 + r,
                      rw split (ground (arith, returns)),
                      IsRun-at (location * 8) pending (8 + r) refl (ground arith) refl (
                          IsRun-append (bit bm) flag (location * 8) (pending - 8) 8 r same (
                            IsRun-at (location * 8 + 8) (pending - 8) r (omega arith) refl refl
                              run)),
                    )
              ]
        ]
      ]

-- For one bit or more inside the map, and a flag of 0 or 1, `bm_count` returns 0 and stores the
-- length of the run of bits equal to the flag that starts at the address, cut off at the number
-- of bits asked for; that number is below 2 ^ 31.
pub bm_count-IsRun :
    (bm : List ℕ) (total a n flag : ℕ)
    → total ≤ length bm * 8
    → total < 2 ^ 64
    → IsBytes bm
    → flag < 2
    → 0 < n
    → n < 2 ^ 31
    → a + n ≤ total
    → (r : ℕ) × (bm_count bm total a n flag ≡ some (pos 0, r)) × IsRun (bit bm) flag a n r
unfolding bm_count
bm_count-IsRun bm total a n flag fits wide bytes two p small l =
    let split : bit_and a 7 ≡ a % 8 = bit_and_seven a in
    let byte = get_or bm (a / 8) 0 in
    let read = get_elem?-eq-get_or bm (a / 8) 0 (omega arith) in
    elim (Bool-cases (a % 8 == 0)) [
      | inl aligned ↦
          let (r, returns, run) =
            count_loop-IsRun bm n flag bytes two small (length bm - a / 8) (a / 8) n 0 (omega arith)
              p (omega arith) (ground arith) in
          (r, ground (arith, returns, split), IsRun-at a n r (ground arith) refl refl run)
      | inr ragged ↦
          let k : ℕ = min (8 - a % 8) n in
          let c = byte_count_bits (a % 8) k byte flag in
          let expected : (if leb 8 (u64 (a % 8 + n)) then 8 - a % 8 else n) ≡ k = ground arith in
          let run : IsRun (bit bm) flag a k c = IsRun-at a k c (omega arith) refl refl (
            IsRun-byte bm (a / 8) flag (a % 8) k c (omega arith) (
              IsRun-flag flag two (
                IsRun-at (a % 8) k c refl (ground arith) refl
                  (byte_count_bits-IsRun (a % 8) k byte flag (omega arith))))) in
          elim (Bool-cases (leb n k)) [
            | inl inside ↦ (
              c,
              ground (arith, read, split, expected),
              IsRun-at a n c refl (ground arith) refl run,
            )
            | inr beyond ↦ elim (Bool-cases (ltb c k)) [
              | inl early ↦ (
                c,
                ground (arith, read, split, expected),
                IsRun-wider n (ground arith) (omega arith) run,
              )
              | inr whole ↦
                  let (r, returns, rest) =
                    count_loop-IsRun bm n flag bytes two small (length bm - (a / 8 + 1)) (a / 8 + 1)
                      (n - k) c (omega arith) (ground arith) (ground (arith, run.bounded))
                      (ground arith) in
                  (
                    c + r,
                    ground (arith, read, split, expected, returns),
                    IsRun-at a n (c + r) refl (omega arith) (ground (arith, run.bounded)) (
                        IsRun-append (bit bm) flag a (n - k) k r
                          (λ j h q. run.same j h (ground arith))
                          (IsRun-at (a + k) (n - k) r (ground arith) refl refl rest)),
                  )
            ]
          ]
    ]
