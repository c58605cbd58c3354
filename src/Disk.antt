-- ===== src/Disk.antt =====
-- Blocks in memory and on the device: fs/kfs_disk.h, and block_read and block_write of fs/eio.c.
-- Every access of the code is to a whole field at the offset of that field, so a block is a number
-- at each offset: the field that starts there. The bytes of a bitmap are fields of one byte.
pub mod Layout
pub mod Ids
use kanekfs.Base.{ℕ, ◌%◌, ◌^◌, List, [], ◌∷◌, ◌+◌, ◌-◌, ◌==◌, ltb, u8, u32, u64, if◌then◌else◌}

-- `KFS_BLOCKSIZE`
abbrev pub kfs_blocksize : ℕ
kfs_blocksize = 8192

abbrev pub Page : Type 0
Page = ℕ → ℕ

abbrev pub u16 : ℕ → ℕ
u16 n = n % 2 ^ 16

-- A write of a field that is already as wide as its place.
abbrev pub put_field : Page → ℕ → ℕ → Page
put_field page off v k = if k == off then v else page k

abbrev pub store16 : Page → ℕ → ℕ → Page
store16 page off v = put_field page off (u16 v)

abbrev pub store32 : Page → ℕ → ℕ → Page
store32 page off v = put_field page off (u32 v)

abbrev pub store64 : Page → ℕ → ℕ → Page
store64 page off v = put_field page off (u64 v)

-- `memset( page, 0, len)`
abbrev pub clear : Page → ℕ → Page
clear page len k = if ltb k len then 0 else page k

-- `strcpy( page + off, text)`, with the NUL at the end.
unfoldable pub store_text : Page → ℕ → List ℕ → Page
store_text page off [] = put_field page off 0
store_text page off (c ∷ text) = store_text (put_field page off c) (off + 1) text

-- The page from the byte `off` on, as a pointer into it sees it.
abbrev pub from_byte : Page → ℕ → Page
from_byte page off k = page (off + k)

-- `a - b` in a `uint64_t`.
abbrev pub sub64 : ℕ → ℕ → ℕ
sub64 a b = u64 (a + 2 ^ 64 - b)

abbrev pub Device : Type 0
Device = ℕ → Page

-- `block_write( fd, page, addr)`: the block has what the first `KFS_BLOCKSIZE` bytes hold. The
-- results of `lseek` and `write` are not looked at, and the result is always 0.
unfoldable pub block_write : Device → Page → ℕ → Device
block_write dev page addr b k =
    if b == addr then (if ltb k kfs_blocksize then page k else 0) else dev b k

unfoldable pub block_read : Device → ℕ → Page
block_read dev addr = dev addr
