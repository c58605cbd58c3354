-- ===== src/Map/Extent.antt =====
-- `bm_set_extent` of fs/map.c, in the three parts that its comments name: the first byte of an
-- extent that is not aligned, the whole bytes, and the bits that are left.
pub mod Marking
use kanekfs.Base.{
  ℕ, zero, suc, ◌+◌, ◌-◌, ◌*◌, ◌/◌, ◌%◌, bit_and, ℤ, pos, negsuc, List, Option, none, some,
  get_elem?, set, length, ltb, leb, ◌==◌, ◌||◌, u64, if◌then◌else◌,
}
use kanekfs.Map.Byte.{byte_set_bits}
use kanekfs.Map.Bitmap.{◌>>=◌, bm_set_bit}

unfoldable pub fill : ℕ → ℕ → ℕ → List ℕ → List ℕ
fill zero location byte bm = bm
fill (suc n) location byte bm = fill n (location + 1) byte (set bm location byte)

-- `memset( &bm[location], byte, n)`; a fault when it runs past the end.
unfoldable pub memset : List ℕ → ℕ → ℕ → ℕ → Option (List ℕ)
memset bm location byte n =
    if leb (location + n) (length bm) then some (fill n location byte bm) else none

-- From `extra_bits_to_mark` on: fewer than 8 bits are pending.
unfoldable pub set_extra_bits : List ℕ → ℕ → ℕ → ℕ → Option (ℤ × List ℕ)
set_extra_bits bm location_in_map pending_bits clear_or_set =
    let extra_bits_to_mark = pending_bits % 8 in
    if ltb 1 extra_bits_to_mark
    then (do
      byte ← get_elem? bm location_in_map
      let bm' = set bm location_in_map (byte_set_bits 0 extra_bits_to_mark byte clear_or_set)
      some (if pending_bits - extra_bits_to_mark == 0 then pos 0 else negsuc 1, bm'))
    else some (negsuc 1, bm)

-- From `bytes_to_mark` on.
unfoldable pub set_full_bytes : List ℕ → ℕ → ℕ → ℕ → Option (ℤ × List ℕ)
set_full_bytes bm location_in_map pending_bits clear_or_set =
    let bytes_to_mark = pending_bits / 8 in
    if leb 1 bytes_to_mark
    then (do
      bm' ← memset bm location_in_map (if clear_or_set == 0 then 0x00 else 0xff) bytes_to_mark
      let pending_bits' = pending_bits - bytes_to_mark * 8
      if pending_bits' == 0
          then some (pos 0, bm')
          else set_extra_bits bm' (location_in_map + bytes_to_mark) pending_bits' clear_or_set)
    else set_extra_bits bm location_in_map pending_bits clear_or_set

-- The first byte, when the address is not aligned to a byte.
unfoldable pub set_first_byte : List ℕ → ℕ → ℕ → ℕ → ℕ → Option (ℤ × List ℕ)
set_first_byte bm location_in_map aligned_to_byte num_bits_to_set clear_or_set = do
  byte ← get_elem? bm location_in_map
  let bits_to_mark_at_start =
      if ltb (u64 (aligned_to_byte + num_bits_to_set)) 8
      then num_bits_to_set
      else 8 - aligned_to_byte
  let bm' =
      set bm location_in_map (byte_set_bits aligned_to_byte bits_to_mark_at_start byte clear_or_set)
  let pending_bits = num_bits_to_set - bits_to_mark_at_start
  if pending_bits == 0
      then some (pos 0, bm')
      else set_full_bytes bm' (location_in_map + 1) pending_bits clear_or_set

unfoldable pub bm_set_extent : List ℕ → ℕ → ℕ → ℕ → ℕ → Option (ℤ × List ℕ)
bm_set_extent bm total_bits bit_address num_bits_to_set clear_or_set =
    if ltb total_bits bit_address || ltb total_bits (u64 (bit_address + num_bits_to_set))
    then some (negsuc 0, bm)
    else if num_bits_to_set == 1
    then bm_set_bit bm total_bits bit_address clear_or_set
    else let location_in_map = bit_address / 8 in
      let aligned_to_byte = bit_and bit_address 0x07 in
      if aligned_to_byte == 0
      then set_full_bytes bm location_in_map num_bits_to_set clear_or_set
      else set_first_byte bm location_in_map aligned_to_byte num_bits_to_set clear_or_set
