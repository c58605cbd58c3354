-- ===== src/Map/Bitmap.antt =====
-- `bm_set_bit` and `bm_get_bit` of fs/map.c. A bitmap is the list of the bytes that `bm` points
-- to; a read or write past its end is a fault, `none`. An `int` result is a ℤ, and what a
-- function stores through a pointer stands beside it.
pub mod Sequence
pub mod Single
use kanekfs.Base.{
  ℕ, ◌/◌, ◌%◌, ℤ, pos, negsuc, List, Option, none, some, get_elem?, set, leb, if◌then◌else◌,
}
use kanekfs.Map.Byte.{byte_set_bits, byte_get_bit}

infixl 5 ◌>>=◌
abbrev pub ◌>>=◌ {ℓ κ} : {A : Type ℓ} {B : Type κ} → Option A → (A → Option B) → Option B
none >>= k = none
some x >>= k = k x

unfoldable pub bm_set_bit : List ℕ → ℕ → ℕ → ℕ → Option (ℤ × List ℕ)
bm_set_bit bm total_bits bit_address clear_or_set =
    if leb total_bits bit_address then some (negsuc 0, bm) else do
      let location_in_map = bit_address / 8
      byte ← get_elem? bm location_in_map
      some (pos 0, set bm location_in_map (byte_set_bits (bit_address % 8) 1 byte clear_or_set))

unfoldable pub bm_get_bit : List ℕ → ℕ → ℕ → Option ℤ
bm_get_bit bm total_bits bit_address =
    if leb total_bits bit_address
    then some (negsuc 0)
    else do byte ← get_elem? bm (bit_address / 8); some (pos (byte_get_bit byte (bit_address % 8)))
