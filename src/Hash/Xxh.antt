-- ===== src/Hash/Xxh.antt =====
-- What `xxh64` and `xxh32` of fs/hash.c share: constants, rotations and reads, on the list of the
-- bytes of the input. A read past its end is a fault, `none`. The machine is little-endian, as the
-- names of the reads say.
pub mod Wide
pub mod Narrow
pub mod Reads
pub mod Safe
pub mod SafeNarrow
pub mod Rotate
use kanekfs.Base.{
  ℕ, zero, suc, ◌+◌, ◌-◌, ◌*◌, ◌/◌, ◌%◌, ◌^◌, List, [], ◌∷◌, Option, none, some, ◌==◌, ltb, leb,
  u32, u64, bit_or, bit_xor, get_elem?, length, if◌then◌else◌,
}
use kanekfs.Map.Bitmap.{◌>>=◌}

abbrev pub prime32_1 : ℕ
prime32_1 = 2654435761

abbrev pub prime32_2 : ℕ
prime32_2 = 2246822519

abbrev pub prime32_3 : ℕ
prime32_3 = 3266489917

abbrev pub prime32_4 : ℕ
prime32_4 = 668265263

abbrev pub prime32_5 : ℕ
prime32_5 = 374761393

abbrev pub prime64_1 : ℕ
prime64_1 = 11400714785074694791

abbrev pub prime64_2 : ℕ
prime64_2 = 14029467366897019727

abbrev pub prime64_3 : ℕ
prime64_3 = 1609587929392839161

abbrev pub prime64_4 : ℕ
prime64_4 = 9650029242287828579

abbrev pub prime64_5 : ℕ
prime64_5 = 2870177450012600261

unfoldable pub xxh_rotl32 : ℕ → ℕ → ℕ
xxh_rotl32 x r = bit_or (u32 (x * 2 ^ r)) (x / 2 ^ (32 - r))

unfoldable pub xxh_rotl64 : ℕ → ℕ → ℕ
xxh_rotl64 x r = bit_or (u64 (x * 2 ^ r)) (x / 2 ^ (64 - r))

unfoldable pub get_unaligned_le32 : List ℕ → ℕ → Option ℕ
get_unaligned_le32 input p = do
  b0 ← get_elem? input p
  b1 ← get_elem? input (p + 1)
  b2 ← get_elem? input (p + 2)
  b3 ← get_elem? input (p + 3)
  some (b0 + b1 * 2 ^ 8 + b2 * 2 ^ 16 + b3 * 2 ^ 24)

unfoldable pub get_unaligned_le64 : List ℕ → ℕ → Option ℕ
get_unaligned_le64 input p = do
  low ← get_unaligned_le32 input p
  high ← get_unaligned_le32 input (p + 4)
  some (low + high * 2 ^ 32)

-- `v1` to `v4`
pub record Lanes : Type 0 where
  pub v1 : ℕ
  pub v2 : ℕ
  pub v3 : ℕ
  pub v4 : ℕ
