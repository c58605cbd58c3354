-- ===== src/Super/Verify.antt =====
-- `kfs_verify` of fs/kfs_super.c, less what it prints.
use kanekfs.Base.{ℕ, ◌+◌, ◌-◌, ◌*◌, ◌/◌, ℤ, pos, negsuc, Bool, not, ◌==◌, u64, if◌then◌else◌}
use kanekfs.Disk.{Page, Device, kfs_blocksize, sub64, block_read}
use kanekfs.Disk.Layout.{
  KfsTable, get_table, at_magic, at_si_table, at_slot_table, at_blockmap, kfs_magic, sizeof_slot,
  sizeof_sinode, slots_bitmap_magic, slots_table_magic, sinode_bitmap_magic, sinode_table_magic,
  blockmap_magic,
}

-- What the calls of the system give: `stat`, the kind of the file, the first `malloc`, `open`, and
-- the second `malloc`.
pub record Opening : Type 0 where
  pub exists : Bool
  pub is_supported : Bool
  pub has_page : Bool
  pub can_open : Bool
  pub has_extent_page : Bool

-- The first word of the first block of an extent.
abbrev pub eh_magic : Device → ℕ → ℕ
eh_magic dev addr = block_read dev addr 0

abbrev pub last_block : KfsTable → ℕ
last_block t = sub64 (u64 (t.table_extent.ee_block_addr + t.table_extent.ee_block_size)) 1

-- The id of the last entry in a block with entries of `size` bytes.
abbrev pub last_id : Device → ℕ → ℕ → ℕ
last_id dev addr size = block_read dev addr ((kfs_blocksize / size - 1) * size)

-- The part with `extra_verification`.
unfoldable pub verify_extents : Device → Page → ℤ
verify_extents dev sb =
    let si_table = get_table sb at_si_table in
    let slot_table = get_table sb at_slot_table in
    let blockmap = get_table sb at_blockmap in
    if not (eh_magic dev si_table.table_extent.ee_block_addr == sinode_table_magic)
    then negsuc 0
    else if not (last_id dev (last_block si_table) sizeof_sinode == sub64 si_table.capacity 1)
    then negsuc 0
    else if not (eh_magic dev slot_table.table_extent.ee_block_addr == slots_table_magic)
    then negsuc 0
    else if not (last_id dev (last_block slot_table) sizeof_slot == sub64 slot_table.capacity 1)
    then negsuc 0
    else if not (eh_magic dev si_table.bitmap_extent.ee_block_addr == sinode_bitmap_magic)
    then negsuc 0
    else if not (eh_magic dev slot_table.bitmap_extent.ee_block_addr == slots_bitmap_magic)
    then negsuc 0
    else if not (eh_magic dev blockmap.bitmap_extent.ee_block_addr == blockmap_magic)
    then negsuc 0
    else pos 0

unfoldable pub kfs_verify : Opening → Device → ℕ → ℤ
kfs_verify call dev extra_verification =
    if not call.exists
    then negsuc 0
    else if not call.is_supported
    then negsuc 0
    else if not call.has_page
    then negsuc 0
    else if not call.can_open
    then negsuc 0
    else let sb = block_read dev 0 in
      if not (sb at_magic == kfs_magic)
      then negsuc 0
      else if extra_verification == 0
      then pos 0
      else if not call.has_extent_page
      then negsuc 0
      else verify_extents dev sb
