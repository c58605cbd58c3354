-- ===== src/Mkfs/Superblock.antt =====
-- `build_superblock` of fs/kfs_mkfs.c: what block 0 holds.
use kanekfs.Base.{ℕ, ◌+◌, List, [], ◌∷◌, u64}
use kanekfs.Disk.{
  Page, Device, kfs_blocksize, store32, store64, clear, store_text, sub64, block_write,
}
use kanekfs.Disk.Layout.{
  KfsExtent, put_extent, kfs_magic, sizeof_superblock, at_magic, at_flags, at_root, at_blocksize,
  at_si_table, at_slot_table, at_blockmap, at_c_time, at_m_time, at_a_time,
}
use kanekfs.Mkfs.{BlocksCalc}

-- The addresses of the maps, which lie at the end of the file.
unfoldable pub fs_map_block : BlocksCalc → ℕ
fs_map_block bc = sub64 bc.in_file_size_in_blocks bc.out_bitmap_size_in_blocks

unfoldable pub slot_map_block : BlocksCalc → ℕ
slot_map_block bc = sub64 (fs_map_block bc) bc.out_slots_bitmap_blocks_num

unfoldable pub sinode_map_block : BlocksCalc → ℕ
sinode_map_block bc = sub64 (slot_map_block bc) bc.out_sinodes_bitmap_blocks_num

-- "Good! U found the secret message!! 1234567890"
abbrev pub secret : List ℕ
secret =
    71 ∷ 111 ∷ 111 ∷ 100 ∷ 33 ∷ 32 ∷ 85 ∷ 32 ∷ 102 ∷ 111 ∷ 117 ∷ 110 ∷ 100 ∷ 32 ∷ 116 ∷ 104 ∷ 101
    ∷ 32 ∷ 115 ∷ 101 ∷ 99 ∷ 114 ∷ 101 ∷ 116 ∷ 32 ∷ 109 ∷ 101 ∷ 115 ∷ 115 ∷ 97 ∷ 103 ∷ 101 ∷ 33 ∷ 33
    ∷ 32 ∷ 49 ∷ 50 ∷ 51 ∷ 52 ∷ 53 ∷ 54 ∷ 55 ∷ 56 ∷ 57 ∷ 48 ∷ []

abbrev pub extent : ℕ → ℕ → ℕ → KfsExtent
extent addr size log = record {
  ee_block_addr = addr;
  ee_block_size = size;
  ee_log_size = log;
  ee_log_addr = 0;
}

-- The fields that say what the file is.
unfoldable pub store_identity : ℕ → Page → Page
store_identity now page =
    let sb = store32 (clear page sizeof_superblock) 0 kfs_magic in
    let sb = store32 (store32 sb at_magic kfs_magic) at_flags 0x0000 in
    let sb = store64 (store64 sb at_blocksize kfs_blocksize) at_root 0 in
    store64 (store64 (store64 sb at_c_time now) at_m_time now) at_a_time now

-- The super inodes: their number, and the extents of the table and of the map.
unfoldable pub store_si_table : BlocksCalc → Page → Page
store_si_table bc page =
    let sb = store64 (store64 page at_si_table bc.out_sinodes_num) (at_si_table + 8) 1 in
    let sb =
      put_extent sb (at_si_table + 32)
        (extent 1 bc.out_sinodes_table_in_blocks bc.out_sinodes_num) in
    put_extent sb (at_si_table + 16) (
      extent (sinode_map_block bc) bc.out_sinodes_bitmap_blocks_num
        bc.out_sinodes_bitmap_blocks_num)

unfoldable pub store_slot_table : BlocksCalc → Page → Page
store_slot_table bc page =
    let sb = store64 (store64 page at_slot_table bc.out_slots_num) (at_slot_table + 8) 0 in
    let sb = put_extent sb (at_slot_table + 32) (
      extent (u64 (bc.out_sinodes_table_in_blocks + 1)) bc.out_slots_table_in_blocks
        bc.out_slots_num) in
    put_extent sb (at_slot_table + 16)
      (extent (slot_map_block bc) bc.out_slots_bitmap_blocks_num bc.out_slots_bitmap_blocks_num)

unfoldable pub store_blockmap : BlocksCalc → Page → Page
store_blockmap bc page =
    let sb =
      put_extent page (at_blockmap + 16)
        (extent (fs_map_block bc) bc.out_bitmap_size_in_blocks bc.in_file_size_in_blocks) in
    put_extent sb (at_blockmap + 32) (extent 0 0 0)

unfoldable pub superblock : ℕ → BlocksCalc → Page → Page
superblock now bc page =
    let sb = store_si_table bc (store_identity now page) in
    store_text (store_blockmap bc (store_slot_table bc sb)) 512 secret

unfoldable pub build_superblock : ℕ → BlocksCalc → Page → Device → Device
build_superblock now bc page dev = block_write dev (superblock now bc page) 0
