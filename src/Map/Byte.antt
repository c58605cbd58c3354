-- ===== src/Map/Byte.antt =====
-- The helpers of fs/map.c that work on one byte: `byte_set_bits`, `byte_get_bit`,
-- `byte_count_bits` and `byte_find_gap`. A byte is a number below 256. The `char` parameters are
-- signed in C, which no caller can see: every use masks the low eight bits. The `int` parameters
-- are the non-negative ones that the bitmap functions pass.
pub mod Digits
pub mod Runs
pub mod Gaps
use kanekfs.Base.{
  ℕ, zero, suc, ◌+◌, ◌-◌, ◌^◌, bit_and, bit_or, bit_xor, Bool, true, false, ◌==◌, ltb, u8,
  if◌then◌else◌,
}

-- `SETBIT`; any other value of `clear_or_set` clears.
abbrev pub set_bit : ℕ
set_bit = 1

-- `to = start + numbits; if( to > 8) to = 8;`
abbrev pub stop_bit : ℕ → ℕ → ℕ
stop_bit start numbits = if ltb 8 (start + numbits) then 8 else start + numbits

-- `do{ mask |= (0x01 << start++); }while( start < to);` with rounds to spare.
unfoldable pub mask_loop : ℕ → ℕ → ℕ → ℕ → ℕ
mask_loop zero start to mask = mask
mask_loop (suc rounds) start to mask =
    let mask' = u8 (bit_or mask (2 ^ start)) in
    let rest = mask_loop rounds (start + 1) to mask' in if ltb (start + 1) to then rest else mask'

unfoldable pub byte_set_bits : ℕ → ℕ → ℕ → ℕ → ℕ
byte_set_bits start numbits byte clear_or_set =
    let mask = mask_loop 8 start (stop_bit start numbits) 0 in
    if clear_or_set == set_bit then bit_or byte mask else bit_and byte (bit_xor mask 0xff)

unfoldable pub byte_get_bit : ℕ → ℕ → ℕ
byte_get_bit byte bit = if bit_and byte (2 ^ bit) == 0 then 0 else 1

-- The loop of `byte_count_bits`, with rounds to spare.
unfoldable pub count_bits_loop : ℕ → ℕ → ℕ → ℕ → ℕ → ℕ → ℕ
count_bits_loop zero start to byte clear_or_set count = count
count_bits_loop (suc rounds) start to byte clear_or_set count =
    let on = bit_and (u8 (2 ^ start)) byte in
    let rest = count_bits_loop rounds (start + 1) to byte clear_or_set (count + 1) in
    let next = if ltb (start + 1) to then rest else count + 1 in
    if on == 0
    then (if clear_or_set == set_bit then count else next)
    else (if clear_or_set == set_bit then next else count)

unfoldable pub byte_count_bits : ℕ → ℕ → ℕ → ℕ → ℕ
byte_count_bits start numbits byte clear_or_set =
    count_bits_loop 8 start (stop_bit start numbits) byte clear_or_set 0

-- The three returns of `byte_find_gap`: an offset, -1 and -2.
pub data Gap : Type 0 where
  found : ℕ → Gap
  no_gap : Gap
  end_of_byte : Gap

-- The loop of `byte_find_gap`: the result, and `*count`.
unfoldable pub find_gap_loop : ℕ → ℕ → ℕ → ℕ → Bool → ℕ → ℕ → Gap × ℕ
find_gap_loop zero start numbits byte found_gap gap_index count =
    (if found_gap then end_of_byte else no_gap, count)
find_gap_loop (suc rounds) start numbits byte found_gap gap_index count =
    let on = bit_and (u8 (2 ^ start)) byte in
    let taken = find_gap_loop rounds (start + 1) numbits byte false (start + 1) 0 in
    let free = find_gap_loop rounds (start + 1) numbits byte true gap_index (count + 1) in
    let after = if count + 1 == numbits then (found gap_index, count + 1) else free in
    if on == 0 then after else taken

-- `while( start < 8)` runs 8 - start rounds.
unfoldable pub byte_find_gap : ℕ → ℕ → ℕ → Gap × ℕ
byte_find_gap start numbits byte = find_gap_loop (8 - start) start numbits byte false start 0
