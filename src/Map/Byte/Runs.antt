-- ===== src/Map/Byte/Runs.antt =====
-- `byte_count_bits` counts a run of equal digits, and `byte_find_gap` looks for a run of zeroes.
use kanekfs.Base.{
  ℕ, zero, suc, ◌+◌, ◌-◌, ◌^◌, ◌≤◌, ◌<◌, max, bit_and, ◌==◌, ltb, u8, if◌then◌else◌, ◌≡◌, ◌≢◌, refl,
  arith, inl, inr, Bool-cases, ==_iff,
}
use kanekfs.Bits.{bit_at, bit_at-lt, bit_and-two_pow, bit_and_comm, two_pow-lt_byte}
use kanekfs.Map.Byte.{stop_bit, count_bits_loop, byte_count_bits}
use kanekfs.Map.Byte.Digits.{stop_after}

-- `count` is the length of the run of digits `v` from `start` on, cut off at `limit` digits.
pub record IsRun (digits : ℕ → ℕ) (v start limit count : ℕ) : Type 0 where
  pub bounded : count ≤ limit
  pub same : (j : ℕ) → start ≤ j → j < start + count → digits j ≡ v
  pub stops : count < limit → digits (start + count) ≢ v

pub IsRun-none :
    (digits : ℕ → ℕ) (v start limit : ℕ) → digits start ≢ v → IsRun digits v start limit 0
IsRun-none digits v start limit h = record {
  bounded = omega arith;
  same = λ j p q. absurd (omega arith);
  stops = λ p. let e : start + 0 ≡ start = omega arith in rw e h;
}

-- The same run at numbers that are written in another way.
pub IsRun-at :
    {digits : ℕ → ℕ} {v start limit count : ℕ} (start' limit' count' : ℕ)
    → start ≡ start'
    → limit ≡ limit'
    → count ≡ count'
    → IsRun digits v start limit count
    → IsRun digits v start' limit' count'
IsRun-at {digits} {v} {start} {limit} {count} start' limit' count' p q r run = record {
  bounded = omega (arith, run.bounded);
  same = λ j h k. run.same j (omega arith) (omega arith);
  stops =
      λ h. let e : start' + count' ≡ start + count = omega arith in rw e (run.stops (omega arith));
}

-- A run that reaches the limit.
pub IsRun-all :
    (digits : ℕ → ℕ) (v start limit : ℕ)
    → ((j : ℕ) → start ≤ j → j < start + limit → digits j ≡ v)
    → IsRun digits v start limit limit
IsRun-all digits v start limit h = record {
  bounded = omega arith;
  same = h;
  stops = λ p. absurd (omega arith);
}

pub IsRun-append :
    (digits : ℕ → ℕ) (v start limit first count : ℕ)
    → ((j : ℕ) → start ≤ j → j < start + first → digits j ≡ v)
    → IsRun digits v (start + first) limit count
    → IsRun digits v start (first + limit) (first + count)
IsRun-append digits v start limit first count h run = record {
  bounded = omega (arith, run.bounded);
  same = λ j p q. ground (arith, h j, run.same j);
  stops = λ p.
      let e : start + (first + count) ≡ start + first + count = omega arith in
      rw e (run.stops (omega arith));
}

-- The test `mask & byte` of the loops.
pub mask_test :
    (start byte : ℕ) → start < 8 → (bit_and (u8 (2 ^ start)) byte == 0) ≡ (bit_at byte start == 0)
mask_test start byte s =
    let small : u8 (2 ^ start) ≡ 2 ^ start = omega (arith, two_pow-lt_byte start s) in
    rw (small, bit_and_comm (2 ^ start) byte) (bit_and-two_pow byte start)

-- The loop of `byte_count_bits` adds to `count` the run from `start` on.
count_bits_loop-IsRun :
    (rounds start to byte flag count : ℕ)
    → start < 8
    → to ≤ 8
    → max (start + 1) to ≤ start + rounds
    → (r : ℕ) × (count_bits_loop rounds start to byte flag count ≡ count + r)
      × IsRun (bit_at byte) (if flag == 1 then 1 else 0) start (max (start + 1) to - start) r
unfolding count_bits_loop
count_bits_loop-IsRun zero start to byte flag count s t r = absurd (omega arith)
count_bits_loop-IsRun (suc rounds) start to byte flag count s t r =
    let v : ℕ = if flag == 1 then 1 else 0 in
    let test = mask_test start byte s in
    elim (Bool-cases (bit_at byte start == v)) [
      | inl same ↦
          let here : (j : ℕ) → start ≤ j → j < start + 1 → bit_at byte j ≡ v = λ j p q.
            let e : j ≡ start = omega arith in rw e ((==_iff (bit_at byte start) v).0 same) in
          elim (Bool-cases (ltb (start + 1) to)) [
            | inl more ↦
                let (r, e, run) =
                  count_bits_loop-IsRun rounds (start + 1) to byte flag (count + 1) (ground arith) t
                    (ground arith) in
                (
                  1 + r,
                  ground (arith, e, test, bit_at-lt byte start),
                  IsRun-at start _ (1 + r) refl (ground arith) refl
                      (IsRun-append (bit_at byte) v start _ 1 r here run),
                )
            | inr last ↦ (
              1,
              ground (arith, test, bit_at-lt byte start),
              IsRun-at start _ 1 refl (ground arith) refl (IsRun-all (bit_at byte) v start 1 here),
            )
          ]
      | inr other ↦
          (0, ground (arith, test, bit_at-lt byte start), IsRun-none _ v start _ (ground arith))
    ]

-- `byte_count_bits` returns the length of the run that starts at `start`, within the byte and
-- within `numbits` digits; if `numbits` is 0 it looks at one digit.
pub byte_count_bits-IsRun :
    (start numbits byte flag : ℕ)
    → start < 8
    → IsRun
        (bit_at byte)
        (if flag == 1 then 1 else 0)
        start
        (stop_after start numbits - start)
        (byte_count_bits start numbits byte flag)
unfolding byte_count_bits
byte_count_bits-IsRun start numbits byte flag s =
    let to = stop_bit start numbits in
    let (r, e, run) =
      count_bits_loop-IsRun 8 start to byte flag 0 s (ground arith) (ground arith) in
    IsRun-at start _ _ refl (ground arith) (omega arith) run
