-- ===== src/Map/Find.antt =====
-- `bm_find` of fs/map.c. The result stands with `*found_address`.
pub mod FirstFree
use kanekfs.Base.{
  ℕ, suc, ◌+◌, ◌-◌, ◌*◌, ◌/◌, ◌%◌, bit_and, ℤ, pos, negsuc, List, [], ◌∷◌, Option, none, some, drop,
  ltb, leb, ◌==◌, ◌||◌, Bool, true, false, u32, u64, if◌then◌else◌,
}
use kanekfs.Map.Byte.{found, no_gap, end_of_byte, byte_find_gap}

-- The `do … while( 1)` loop from the byte that `location_in_map` has reached. `large` is
-- `may_have_a_large_gap`, `updated` is `updated_gap_size` (cut to an `int` by the call; a
-- negative one equals no count of bits, as its `uint32_t` value does not).
unfoldable pub find_loop : List ℕ → ℕ → ℕ → ℕ → ℕ → ℕ → Bool → ℕ → Option (ℤ × ℕ)
find_loop [] location aligned count gap_size updated large address = none
find_loop (byte ∷ rest) location aligned count gap_size updated large address =
    let (rc, bit_count) = byte_find_gap aligned (u32 updated) byte in
    let count' = if ltb count (8 - aligned) then 0 else count - (8 - aligned) in
    let shrunk = updated - bit_count in
    let grow = find_loop rest (location + 1) 0 count' gap_size shrunk true in
    elim rc [
      | found offset ↦
          if large
          then (if shrunk == 0 then some (pos 0, address) else grow address)
          else some (pos 0, location * 8 + offset)
      | no_gap ↦
          let restart = find_loop rest (location + 1) 0 count' gap_size gap_size false address in
          if ltb count' gap_size || count' == 0 then some (negsuc 0, 0) else restart
      | end_of_byte ↦ grow (if large then address else (location + 1) * 8 - bit_count)
    ]

-- `*found_address` is written before every return, so its first value does not matter.
unfoldable pub bm_find : List ℕ → ℕ → ℕ → ℕ → ℕ → Option (ℤ × ℕ)
bm_find bm total_bits bit_address count gap_size =
    if leb total_bits bit_address || gap_size == 0 || count == 0 || ltb count gap_size
    then some (negsuc 0, 0)
    else let count' =
        if ltb total_bits (u64 (bit_address + count)) then total_bits - bit_address else count in
      let location_in_map = bit_address / 8 in
      find_loop (drop location_in_map bm) location_in_map (bit_and bit_address 0x07) count' gap_size
        gap_size false 0
