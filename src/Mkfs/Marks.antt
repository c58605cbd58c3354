-- ===== src/Mkfs/Marks.antt =====
-- The map of the blocks while it is built: which bits `build_map` and `mark_blocks` set.
use kanekfs.Base.{
  ℕ, ◌+◌, ◌-◌, ◌*◌, ◌/◌, ◌%◌, ◌^◌, ◌≤◌, ◌<◌, ◌≡◌, refl, ap, ◌∙◌, arith, List, some, ℤ, pos, length,
  get_or, ◌==◌, ltb, ◌||◌, u64, inl, inr, Bool-cases, false, if◌then◌else◌,
}
use kanekfs.Bits.{bit_at}
use kanekfs.Map.Byte.Digits.{within}
use kanekfs.Map.Bitmap.Sequence.{bit, IsBytes, IsWritten, IsWritten-at}
use kanekfs.Map.Bitmap.Single.{bm_set_bit-IsWritten}
use kanekfs.Map.Extent.{bm_set_extent}
use kanekfs.Map.Extent.Marking.{marked_end, marked_code, bm_set_extent-Marked}
use kanekfs.Disk.{Page, store32, kfs_blocksize}
use kanekfs.Disk.Layout.{blockmap_magic, put_header, entries_root_leaf}
use kanekfs.Mkfs.{BlocksCalc}
use kanekfs.Mkfs.Tables.{MapBuffer, to_buffer, page_bytes}
use kanekfs.Mkfs.Build.{add_in_use, new_map, build_map, mark_blocks}
use kanekfs.Mkfs.Written.{length-page_bytes, page_bytes-get_or}

-- The end of the bits that `bm_set_extent` sets: it forgets a last bit that is the first of a byte,
-- except in an extent of one block.
abbrev pub end_of_marks : ℕ → ℕ → ℕ
end_of_marks addr blocks = if blocks == 1 then addr + 1 else marked_end (addr + blocks)

abbrev pub with_marks : ℕ → ℕ → (ℕ → ℕ) → ℕ → ℕ
with_marks addr blocks marks i = if within addr (end_of_marks addr blocks) i then 1 else marks i

-- A map of `size` bytes whose bits are `marks`.
pub record IsBlockMap (size : ℕ) (marks : ℕ → ℕ) (map : MapBuffer) : Type 0 where
  pub magic : map.header 0 ≡ blockmap_magic
  pub map_size : length map.bitmap ≡ size
  pub map_bytes : IsBytes map.bitmap
  pub map_bits : (i : ℕ) → bit map.bitmap i ≡ marks i

extent_marked :
    (bm : List ℕ) (total addr blocks : ℕ)
    → total ≤ length bm * 8
    → total < 2 ^ 64
    → IsBytes bm
    → 1 ≤ blocks
    → addr + blocks ≤ total
    → (code : ℤ) × (bm' : List ℕ) × (bm_set_extent bm total addr blocks 1 ≡ some (code, bm'))
      × IsWritten bm addr (end_of_marks addr blocks) 1 bm'
unfolding bm_set_extent
extent_marked bm total addr blocks room small is_bytes one fits = elim (Bool-cases (blocks == 1)) [
  | inl single ↦
      let (bm', returns, written) =
        bm_set_bit-IsWritten bm total addr 1 room is_bytes (ground arith) in
      let in_range : (ltb total addr || ltb total (u64 (addr + blocks))) ≡ false = ground arith in
      (pos 0, bm', rw (in_range, single) returns, IsWritten-at addr _ refl (ground arith) written)
  | inr more ↦
      let (bm', returns, written) =
        bm_set_extent-Marked bm total addr blocks 1 room small is_bytes (omega arith) (ground arith)
          fits in
      (marked_code (addr + blocks), bm', returns, IsWritten-at addr _ refl (ground arith) written)
]

pub mark_blocks-IsBlockMap :
    (bc : BlocksCalc) (size : ℕ) (marks : ℕ → ℕ) (map : MapBuffer) (addr blocks : ℕ)
    → IsBlockMap size marks map
    → bc.in_file_size_in_blocks ≤ size * 8
    → bc.in_file_size_in_blocks < 2 ^ 64
    → 1 ≤ blocks
    → addr + blocks ≤ bc.in_file_size_in_blocks
    → (map' : MapBuffer) × (mark_blocks bc addr blocks map ≡ some map')
      × IsBlockMap size (with_marks addr blocks marks) map'
unfolding mark_blocks
mark_blocks-IsBlockMap bc size marks map addr blocks is_map room small one fits =
    let (code, bm', returns, written) =
      extent_marked map.bitmap bc.in_file_size_in_blocks addr blocks
        (omega (arith, is_map.map_size)) small is_map.map_bytes one fits in
    (
      add_in_use (record map { bitmap = bm' }) blocks,
      rw returns refl,
      record {
        magic = is_map.magic;
        map_size = written.same_length ∙ is_map.map_size;
        map_bytes = written.bytes;
        map_bits = λ i. ground (arith, written.bits i, is_map.map_bits i);
      },
    )

-- What memory from `pages_alloc` held before the map was built there.
abbrev pub first_marks : BlocksCalc → (ℕ → Page) → ℕ → ℕ
first_marks bc pages_alloc =
    let blocks = bc.out_bitmap_size_in_blocks in
    bit (page_bytes (blocks * kfs_blocksize - 32) (pages_alloc blocks) 32)

-- The header is no part of the bitmap.
new_map-get_or :
    (eh_magic in_use capacity blocks : ℕ) (page : Page) (i : ℕ)
    → get_or (new_map eh_magic in_use capacity blocks page).bitmap i 0
      ≡ get_or (page_bytes (blocks * kfs_blocksize - 32) page 32) i 0
unfolding new_map to_buffer
new_map-get_or eh_magic in_use capacity blocks page i =
    let size : ℕ = blocks * kfs_blocksize - 32 in
    ground (
      arith,
      page_bytes-get_or size page 32 i,
      page_bytes-get_or size (put_header page eh_magic in_use capacity entries_root_leaf) 32 i,
    )

pub new_map-IsBytes :
    (eh_magic in_use capacity blocks : ℕ) (page : Page)
    → ((off : ℕ) → page off < 2 ^ 8)
    → IsBytes (new_map eh_magic in_use capacity blocks page).bitmap
unfolding new_map to_buffer
new_map-IsBytes eh_magic in_use capacity blocks page small i =
    let size : ℕ = blocks * kfs_blocksize - 32 in
    ground (
      arith,
      page_bytes-get_or size (put_header page eh_magic in_use capacity entries_root_leaf) 32 i,
      small (32 + i),
    )

pub build_map-IsBlockMap :
    (bc : BlocksCalc) (pages_alloc : ℕ → Page)
    → ((count off : ℕ) → pages_alloc count off < 2 ^ 8)
    → 1 ≤ bc.in_file_size_in_blocks
    → bc.in_file_size_in_blocks ≤ (bc.out_bitmap_size_in_blocks * kfs_blocksize - 32) * 8
    → (map : MapBuffer) × (build_map bc pages_alloc ≡ some map)
      × IsBlockMap
          (bc.out_bitmap_size_in_blocks * kfs_blocksize - 32)
          (with_marks 0 1 (first_marks bc pages_alloc))
          map
unfolding build_map new_map to_buffer bit
build_map-IsBlockMap bc pages_alloc small one room =
    let size : ℕ = bc.out_bitmap_size_in_blocks in
    let n : ℕ = bc.in_file_size_in_blocks in
    let bits = new_map blockmap_magic 0 n size (pages_alloc size) in
    let (bm', returns, written) =
      bm_set_bit-IsWritten bits.bitmap n 0 1
        (omega (arith, length-page_bytes (size * kfs_blocksize - 32) bits.header 32))
        (new_map-IsBytes blockmap_magic 0 n size (pages_alloc size) (small size)) one in
    (
      record { header = store32 bits.header 4 1; bitmap = bm' },
      rw returns refl,
      record {
        magic = refl;
        map_size =
            written.same_length ∙ length-page_bytes (size * kfs_blocksize - 32) bits.header 32;
        map_bytes = written.bytes;
        map_bits = λ i. ground (
          arith,
          written.bits i,
          ap (λ (t : ℕ). bit_at t (i % 8))
              (new_map-get_or blockmap_magic 0 n size (pages_alloc size) (i / 8)),
        );
      },
    )
