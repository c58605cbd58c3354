-- ===== src/Map/Bitmap/Sequence.antt =====
-- A bitmap read as a sequence of bits, and what writes of single bytes and bits do to it.
use kanekfs.Base.{
  ℕ, ◌+◌, ◌*◌, ◌/◌, ◌%◌, ◌^◌, ◌≤◌, ◌<◌, List, ◌≡◌, refl, ◌∙◌, arith, get_or, set, length, ◌==◌,
  if◌then◌else◌, length-set, get_or-set,
}
use kanekfs.Bits.{bit_at, bit_at-lt}
use kanekfs.Map.Byte.{byte_set_bits}
use kanekfs.Map.Byte.Digits.{within, stop_after, byte_set_bits-bit, byte_set_bits-lt}

-- Bit `i` of a bitmap; 0 past its end.
unfoldable pub bit : List ℕ → ℕ → ℕ
bit bm i = bit_at (get_or bm (i / 8) 0) (i % 8)

abbrev pub IsBytes : List ℕ → Type 0
IsBytes bm = (i : ℕ) → get_or bm i 0 < 2 ^ 8

-- The bit that `clear_or_set` stands for.
abbrev pub digit : ℕ → ℕ
digit clear_or_set = if clear_or_set == 1 then 1 else 0

-- `bm'` is `bm` with the bits from `lo` up to `hi` made `v`, and no other bit changed.
pub record IsWritten (bm : List ℕ) (lo hi v : ℕ) (bm' : List ℕ) : Type 0 where
  pub same_length : length bm' ≡ length bm
  pub bytes : IsBytes bm'
  pub bits : (i : ℕ) → bit bm' i ≡ (if within lo hi i then v else bit bm i)

pub bit-lt : (bm : List ℕ) (i : ℕ) → bit bm i < 2
unfolding bit
bit-lt bm i = bit_at-lt _ _

-- The same write at bounds that are written in another way.
pub IsWritten-at :
    {bm bm' : List ℕ} {lo hi v : ℕ} (lo' hi' : ℕ)
    → lo ≡ lo'
    → hi ≡ hi'
    → IsWritten bm lo hi v bm'
    → IsWritten bm lo' hi' v bm'
IsWritten-at {bm} {bm'} {lo} {hi} {v} lo' hi' p q w = record {
  same_length = w.same_length;
  bytes = w.bytes;
  bits = λ i. ground (arith, w.bits i);
}

pub IsWritten-none : (bm : List ℕ) (lo v : ℕ) → IsBytes bm → IsWritten bm lo lo v bm
IsWritten-none bm lo v h = record { same_length = refl; bytes = h; bits = λ i. ground arith }

pub IsWritten-trans :
    {bm bm' bm'' : List ℕ} {lo mid hi v : ℕ}
    → lo ≤ mid
    → mid ≤ hi
    → IsWritten bm lo mid v bm'
    → IsWritten bm' mid hi v bm''
    → IsWritten bm lo hi v bm''
IsWritten-trans p q first second = record {
  same_length = second.same_length ∙ first.same_length;
  bytes = second.bytes;
  bits = λ i. ground (arith, first.bits i, second.bits i);
}

-- One byte changed.
pub IsWritten-set :
    (bm : List ℕ) (location lo hi v byte : ℕ)
    → location < length bm
    → IsBytes bm
    → hi ≤ 8
    → byte < 2 ^ 8
    → ((j : ℕ) → bit_at byte j ≡ (if within lo hi j then v else bit_at (get_or bm location 0) j))
    → IsWritten bm (location * 8 + lo) (location * 8 + hi) v (set bm location byte)
unfolding bit
IsWritten-set bm location lo hi v byte l h top b e = record {
  same_length = length-set bm location byte;
  bytes = λ i. ground (arith, get_or-set bm location i byte 0 l, h i);
  bits = λ i. ground (arith, get_or-set bm location (i / 8) byte 0 l, e (i % 8));
}

-- The write that `bm_set_bit` and `bm_set_extent` make.
pub IsWritten-byte_set_bits :
    (bm : List ℕ) (location start numbits flag : ℕ)
    → location < length bm
    → IsBytes bm
    → start < 8
    → IsWritten bm
        (location * 8 + start)
        (location * 8 + stop_after start numbits)
        (digit flag)
        (set bm location (byte_set_bits start numbits (get_or bm location 0) flag))
IsWritten-byte_set_bits bm location start numbits flag l h s =
    let byte = get_or bm location 0 in
    IsWritten-set bm location start (stop_after start numbits) (digit flag) _ l h (ground arith)
      (byte_set_bits-lt start numbits byte flag s (h location))
      (λ j. byte_set_bits-bit start numbits byte flag j s (h location))
