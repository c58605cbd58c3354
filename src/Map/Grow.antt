-- ===== src/Map/Grow.antt =====
-- `bm_extent_can_grow` of fs/map.c.
pub mod Room
use kanekfs.Base.{
  ℕ, ◌+◌, ◌-◌, ℤ, pos, negsuc, List, Option, some, ltb, leb, ◌==◌, ◌||◌, not, Bool, true, false,
  u64, if◌then◌else◌,
}
use kanekfs.Map.Bitmap.{◌>>=◌}
use kanekfs.Map.Count.{bm_count}

-- `rc != 0`
abbrev pub failed : ℤ → Bool
failed (pos n) = not (n == 0)
failed (negsuc n) = true

-- From the comment `count_result == 0 here, and that means we are starting with 1s`.
unfoldable pub ones_first : List ℕ → ℕ → ℕ → ℕ → Option ℤ
ones_first bm total_bits bit_address count = do
  (rc, ones) ← bm_count bm total_bits bit_address count 1
  if failed rc
      then some (negsuc 100)
      else if ones == count
      then some (negsuc 2)
      else if ones == 0
      then some (negsuc 3)
      else do
        let expected_zeroes = count - ones
        (rc, zeroes) ← bm_count bm total_bits (bit_address + ones) expected_zeroes 0
        some (
            if failed rc then negsuc 101 else if expected_zeroes == zeroes then pos 0 else negsuc 4)

unfoldable pub bm_extent_can_grow : List ℕ → ℕ → ℕ → ℕ → Option ℤ
bm_extent_can_grow bm total_bits bit_address count =
    if leb total_bits bit_address || ltb total_bits (u64 (bit_address + count)) || count == 0
    then some (negsuc 0)
    else do
      (rc, zeroes) ← bm_count bm total_bits bit_address count 0
      if failed rc
          then some (negsuc 99)
          else if ltb 0 zeroes
          then some (if zeroes == count then pos 0 else negsuc 1)
          else ones_first bm total_bits bit_address count
