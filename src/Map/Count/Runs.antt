-- ===== src/Map/Count/Runs.antt =====
-- Runs of equal bits in a byte, as runs of the bitmap.
use kanekfs.Base.{
  ℕ, ◌+◌, ◌*◌, ◌/◌, ◌%◌, ◌^◌, ◌≤◌, ◌<◌, List, ◌≡◌, arith, get_or, ◌==◌, if◌then◌else◌,
}
use kanekfs.Bits.{bit_at, zero_bit, eq_of_bits, bit_at-high}
use kanekfs.Map.Byte.Digits.{full_byte}
use kanekfs.Map.Byte.Runs.{IsRun}
use kanekfs.Map.Bitmap.Sequence.{bit, digit}

-- A run within one byte is a run of the map.
pub IsRun-byte :
    (bm : List ℕ) (location v start limit r : ℕ)
    → start + limit ≤ 8
    → IsRun (bit_at (get_or bm location 0)) v start limit r
    → IsRun (bit bm) v (location * 8 + start) limit r
unfolding bit
IsRun-byte bm location v start limit r fits run = record {
  bounded = run.bounded;
  same = λ j p q.
      let e : j / 8 ≡ location = omega (arith, run.bounded) in
      rw e (run.same (j % 8) (omega (arith, run.bounded)) (omega (arith, run.bounded)));
  stops = λ p.
      let e : (location * 8 + start + r) / 8 ≡ location = omega arith in
      let f : (location * 8 + start + r) % 8 ≡ start + r = omega arith in rw (e, f) (run.stops p);
}

-- A run that ended early does not depend on the limit.
pub IsRun-wider :
    {digits : ℕ → ℕ} {v start limit r : ℕ} (limit' : ℕ)
    → r < limit
    → limit ≤ limit'
    → IsRun digits v start limit r
    → IsRun digits v start limit' r
IsRun-wider limit' p q run = record {
  bounded = omega arith;
  same = run.same;
  stops = λ _. run.stops p;
}

-- The digit that a flag of 0 or 1 stands for is the flag.
pub IsRun-flag :
    {digits : ℕ → ℕ} {start limit r : ℕ} (flag : ℕ)
    → flag < 2
    → IsRun digits (digit flag) start limit r
    → IsRun digits flag start limit r
IsRun-flag flag two run = let e : digit flag ≡ flag = ground arith in rw e at run

-- A byte of eight equal digits.
pub uniform_byte :
    (byte v : ℕ)
    → byte < 2 ^ 8
    → ((j : ℕ) → j < 8 → bit_at byte j ≡ v)
    → v < 2
    → byte ≡ (if v == 1 then 255 else 0)
uniform_byte byte v b h two =
    eq_of_bits _ _ (λ j. ground (arith, h j, bit_at-high 8 byte j b, full_byte j, zero_bit j))
