-- ===== src/Map/Count.antt =====
-- `bm_count` of fs/map.c. The result stands with `*count_result`.
pub mod Runs
pub mod RunLength
use kanekfs.Base.{
  ℕ, suc, ◌+◌, ◌-◌, ◌/◌, ◌%◌, ◌^◌, bit_and, ℤ, pos, negsuc, List, [], ◌∷◌, Option, none, some,
  get_elem?, drop, ltb, leb, ◌==◌, not, ◌&&◌, ◌||◌, u64, if◌then◌else◌,
}
use kanekfs.Map.Byte.{byte_count_bits}
use kanekfs.Map.Bitmap.{◌>>=◌}

-- `int64_t` passed as `int`. A negative result has the same effect as 0 where it is used, at
-- the start of a byte.
abbrev pub as_int : ℕ → ℕ
as_int n = let w = n % 2 ^ 32 in if ltb w (2 ^ 31) then w else 0

-- The loop, from the byte that `location_in_map` has reached. `pending_bits`, an `int64_t`, is
-- never negative below 2 ^ 63 bits.
unfoldable pub count_loop : List ℕ → ℕ → ℕ → ℕ → ℕ → Option (ℤ × ℕ)
count_loop [] num pending bits_count flag = if ltb bits_count num then none else some (negsuc 1, 0)
count_loop (byte ∷ rest) num pending bits_count flag =
    let more = count_loop rest num (pending - 8) (bits_count + 8) flag in
    let full = if leb pending 8 then some (pos 0, num) else more in
    if ltb bits_count num
    then (if not (byte == 0xff) && not (byte == 0x00)
        then some (pos 0, bits_count + byte_count_bits 0 (as_int pending) byte flag)
        else if flag == 1 && byte == 0xff || flag == 0 && byte == 0x00
        then full
        else some (pos 0, bits_count))
    else some (negsuc 1, 0)

unfoldable pub bm_count : List ℕ → ℕ → ℕ → ℕ → ℕ → Option (ℤ × ℕ)
bm_count bm total_bits bit_address num_bits_to_count clear_or_set =
    if leb total_bits bit_address || ltb total_bits (u64 (bit_address + num_bits_to_count))
    then some (negsuc 0, 0)
    else let location_in_map = bit_address / 8 in
      let aligned_to_byte = bit_and bit_address 0x07 in
      let num = num_bits_to_count in
      if aligned_to_byte == 0
      then count_loop (drop location_in_map bm) num num 0 clear_or_set
      else do
        byte ← get_elem? bm location_in_map
        let expected_bits = if leb 8 (u64 (aligned_to_byte + num)) then 8 - aligned_to_byte else num
        let bits_count = byte_count_bits aligned_to_byte expected_bits byte clear_or_set
        if leb num expected_bits || ltb bits_count expected_bits
            then some (pos 0, bits_count)
            else count_loop (drop (location_in_map + 1) bm) num (num - expected_bits) bits_count
                clear_or_set
