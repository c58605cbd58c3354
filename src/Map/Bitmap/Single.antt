-- ===== src/Map/Bitmap/Single.antt =====
-- The two operations on a single bit, `bm_set_bit` and `bm_get_bit`.
use kanekfs.Base.{
  ℕ, ◌+◌, ◌*◌, ◌/◌, ◌%◌, ◌≤◌, ◌<◌, pos, negsuc, List, some, ◌≡◌, arith, length, leb, ◌==◌, set,
  if◌then◌else◌, get_or, get_elem?-eq-get_or,
}
use kanekfs.Map.Byte.{byte_set_bits}
use kanekfs.Map.Byte.Digits.{byte_get_bit_lem}
use kanekfs.Map.Bitmap.{bm_set_bit, bm_get_bit}
use kanekfs.Map.Bitmap.Sequence.{
  bit, digit, IsBytes, IsWritten, IsWritten-at, IsWritten-byte_set_bits,
}

-- A read of one bit.
pub bm_get_bit-bit :
    (bm : List ℕ) (total a : ℕ)
    → total ≤ length bm * 8
    → bm_get_bit bm total a ≡ some (if leb total a then negsuc 0 else pos (bit bm a))
unfolding bm_get_bit bit
bm_get_bit-bit bm total a fits =
    ground (arith, get_elem?-eq-get_or bm (a / 8) 0, byte_get_bit_lem (get_or bm (a / 8) 0) (a % 8))

-- A write of one bit.
pub bm_set_bit-IsWritten :
    (bm : List ℕ) (total a flag : ℕ)
    → total ≤ length bm * 8
    → IsBytes bm
    → a < total
    → (bm' : List ℕ) × (bm_set_bit bm total a flag ≡ some (pos 0, bm'))
      × IsWritten bm a (a + 1) (digit flag) bm'
unfolding bm_set_bit
bm_set_bit-IsWritten bm total a flag fits bytes h =
    let there : a / 8 < length bm = omega arith in
    (
      set bm (a / 8) (byte_set_bits (a % 8) 1 (get_or bm (a / 8) 0) flag),
      ground (arith, get_elem?-eq-get_or bm (a / 8) 0 there),
      IsWritten-at a (a + 1) (omega arith) (ground arith)
          (IsWritten-byte_set_bits bm (a / 8) (a % 8) 1 flag there bytes (omega arith)),
    )

-- Within the map, `bm_set_bit` returns 0, and afterwards `bm_get_bit` returns the new value at
-- that bit and what it returned before everywhere else, the -1 out of range included.
pub bm_get_bit-bm_set_bit :
    (bm : List ℕ) (total a flag : ℕ)
    → total ≤ length bm * 8
    → IsBytes bm
    → a < total
    → (bm' : List ℕ) × (bm_set_bit bm total a flag ≡ some (pos 0, bm'))
      × ((b : ℕ)
          → bm_get_bit bm' total b
            ≡ (if a == b then some (pos (digit flag)) else bm_get_bit bm total b))
bm_get_bit-bm_set_bit bm total a flag fits bytes h =
    let (bm', returns, w) = bm_set_bit-IsWritten bm total a flag fits bytes h in
    (
      bm',
      returns,
      λ b. ground (
        arith,
        bm_get_bit-bit bm total b fits,
        bm_get_bit-bit bm' total b (omega (arith, w.same_length)),
        w.bits b,
      ),
    )
