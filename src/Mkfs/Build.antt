-- ===== src/Mkfs/Build.antt =====
-- The functions of fs/kfs_mkfs.c that write a file system: `build_map`, `build_sinodes`,
-- `build_slots`, `write_map` and `build_filesystem_in_file`. What `pages_alloc` gives is an
-- argument: no file of the repository defines it. A fault of a bitmap function is `none`; its
-- result code is not looked at.
use kanekfs.Base.{
  ℕ, ◌+◌, ◌-◌, ◌*◌, ℤ, pos, negsuc, Option, none, some, Bool, ◌==◌, ltb, ◌&&◌, not, u64,
  if◌then◌else◌,
}
use kanekfs.Map.Bitmap.{◌>>=◌, bm_set_bit}
use kanekfs.Map.Extent.{bm_set_extent}
use kanekfs.Disk.{Page, Device, kfs_blocksize, store32, store64, clear, block_write}
use kanekfs.Disk.Ids.{fill_ids}
use kanekfs.Disk.Layout.{
  put_header, sizeof_header, sizeof_slot, sizeof_sinode, slots_bitmap_magic, slots_table_magic,
  sinode_bitmap_magic, sinode_table_magic, blockmap_magic, entries_root_leaf,
}
use kanekfs.Mkfs.{BlocksCalc, any}
use kanekfs.Mkfs.Superblock.{fs_map_block, slot_map_block, sinode_map_block, build_superblock}
use kanekfs.Mkfs.Tables.{MapBuffer, to_buffer, to_page, write_table, write_blocks, write_pages}

-- `eh_entries_in_use += n`
abbrev pub add_in_use : MapBuffer → ℕ → MapBuffer
add_in_use map n = record map { header = store32 map.header 4 (map.header 4 + n) }

-- `bm_set_extent` on the bitmap of the blocks.
unfoldable pub mark_blocks : BlocksCalc → ℕ → ℕ → MapBuffer → Option MapBuffer
mark_blocks bc addr blocks map = do
  marked ← bm_set_extent map.bitmap bc.in_file_size_in_blocks addr blocks 1
  some (add_in_use (record map { bitmap = marked.1 }) blocks)

-- A bitmap with its header, in `blocks` blocks.
unfoldable pub new_map : ℕ → ℕ → ℕ → ℕ → Page → MapBuffer
new_map eh_magic in_use capacity blocks page =
    to_buffer blocks (put_header page eh_magic in_use capacity entries_root_leaf)

unfoldable pub build_map : BlocksCalc → (ℕ → Page) → Option MapBuffer
build_map bc pages_alloc = do
  let size = bc.out_bitmap_size_in_blocks
  let map = new_map blockmap_magic 0 bc.in_file_size_in_blocks size (pages_alloc size)
  marked ← bm_set_bit map.bitmap bc.in_file_size_in_blocks 0 1
  some (record { header = store32 map.header 4 1; bitmap = marked.1 })

-- The first block of the table of super inodes. The first one's id is written over, since `sino`
-- has not moved on.
unfoldable pub first_sinodes : ℕ → BlocksCalc → Page → Page
first_sinodes now bc page =
    let p = put_header page sinode_table_magic 1 bc.out_sinodes_num entries_root_leaf in
    let sino = sizeof_header in
    let p = store64 (store64 (store64 p (sino + 40) now) (sino + 48) now) (sino + 56) now in
    let p = store64 (store64 p (sino + 64) 0xfffffffe) sino 0 in
    fill_ids (bc.out_sinodes_per_block - 1) sino sizeof_sinode 1 p

-- The table of super inodes.
unfoldable pub write_sinodes : ℕ → BlocksCalc → (ℕ → Page) → Device → Device
write_sinodes now bc pages_alloc dev =
    let p = first_sinodes now bc (pages_alloc 1) in
    write_table (bc.out_sinodes_table_in_blocks - 1) bc.out_sinodes_per_block sizeof_sinode 2
      (1 + (bc.out_sinodes_per_block - 1)) p (block_write dev p 1)

unfoldable pub build_sinodes :
    ℕ → BlocksCalc → (ℕ → Page) → MapBuffer → Device → Option (MapBuffer × Device)
build_sinodes now bc pages_alloc map dev = do
  let size = bc.out_sinodes_bitmap_blocks_num
  let page = clear (pages_alloc size) kfs_blocksize
  let si_map = new_map sinode_bitmap_magic 1 bc.out_sinodes_num size page
  marked ← bm_set_bit si_map.bitmap bc.out_sinodes_num 0 1
  let written =
      write_blocks size (sinode_map_block bc) (to_page (record si_map { bitmap = marked.1 }))
        (write_sinodes now bc pages_alloc dev)
  tables ← mark_blocks bc 1 bc.out_sinodes_table_in_blocks map
  maps ← mark_blocks bc (sinode_map_block bc) size tables
  some (maps, written)

-- The ids of the slots of the first block. The slots begin `sizeof_header` slots, and not bytes, after
-- the start of the page, so that the last ones lie behind its end.
unfoldable pub with_slots : BlocksCalc → Page → Page
with_slots bc page =
    let p = put_header page slots_table_magic 0 bc.out_slots_num entries_root_leaf in
    fill_ids bc.out_slots_per_block (sizeof_header * sizeof_slot) sizeof_slot 0 p

-- Where the last id that is written ends.
unfoldable pub end_of_slots : BlocksCalc → ℕ
end_of_slots bc =
    if bc.out_slots_per_block == 0
    then sizeof_header
    else sizeof_header * sizeof_slot + (bc.out_slots_per_block - 1) * sizeof_slot + 8

-- The first block of the table of slots: `room` is how many bytes lie at the address that
-- `pages_alloc( 1)` gives, and a write behind them is a fault.
unfoldable pub first_slots : ℕ → BlocksCalc → Page → Option Page
first_slots room bc page = if ltb room (end_of_slots bc) then none else some (with_slots bc page)

-- The table of slots, from its first block `p` on.
unfoldable pub write_slots : BlocksCalc → Page → Device → Device
write_slots bc p dev =
    let block_num = u64 (bc.out_sinodes_table_in_blocks + 1) in
    write_table (bc.out_slots_table_in_blocks - 1) bc.out_slots_per_block sizeof_slot
      (block_num + 1) bc.out_slots_per_block p (block_write dev p block_num)

unfoldable pub build_slots :
    ℕ → BlocksCalc → (ℕ → Page) → MapBuffer → Device → Option (MapBuffer × Device)
build_slots room bc pages_alloc map dev = do
  p ← first_slots room bc (pages_alloc 1)
  let size = bc.out_slots_bitmap_blocks_num
  let page = clear (pages_alloc size) kfs_blocksize
  let slot_map = new_map slots_bitmap_magic 0 bc.out_slots_num size page
  let written = write_blocks size (slot_map_block bc) (to_page slot_map) (write_slots bc p dev)
  tables ←
      mark_blocks bc (u64 (bc.out_sinodes_table_in_blocks + 1)) bc.out_slots_table_in_blocks map
  maps ← mark_blocks bc (slot_map_block bc) size tables
  some (maps, written)

unfoldable pub write_map : BlocksCalc → MapBuffer → Device → Option Device
write_map bc map dev = do
  let block_num = bc.out_bitmap_size_in_blocks
  marked ← mark_blocks bc (fs_map_block bc) block_num map
  some (write_blocks block_num (fs_map_block bc) (to_page marked) dev)

-- Once the file is open.
unfoldable pub build_in_file : ℕ → ℕ → BlocksCalc → (ℕ → Page) → Device → Option Device
build_in_file room now bc pages_alloc dev = do
  let page = pages_alloc 1
  let filled = write_pages bc.in_file_size_in_blocks 0 page dev
  map ← build_map bc pages_alloc
  sinodes ← build_sinodes now bc pages_alloc map (build_superblock now bc page filled)
  slots ← build_slots room bc pages_alloc sinodes.0 sinodes.1
  write_map bc slots.0 slots.1

-- `MKFS_CREATE_FILE`
abbrev pub mkfs_create_file : ℕ
mkfs_create_file = 0x100000

-- The result, and the device: `can_create` and `can_open` say what `create_file` and `open` do.
unfoldable pub build_filesystem_in_file :
    Bool → Bool → ℕ → ℕ → ℕ → BlocksCalc → (ℕ → Page) → Device → Option (ℤ × Device)
build_filesystem_in_file can_create can_open flags room now bc pages_alloc dev =
    if any flags mkfs_create_file && not can_create
    then some (negsuc 0, dev)
    else if not can_open
    then some (negsuc 0, dev)
    else do built ← build_in_file room now bc pages_alloc dev; some (pos 0, built)
