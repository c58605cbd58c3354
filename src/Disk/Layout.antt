-- ===== src/Disk/Layout.antt =====
-- The structures of fs/kfs_disk.h, as they lie in memory on a 64-bit machine, and its constants.
use kanekfs.Base.{ℕ, ◌+◌}
use kanekfs.Disk.{Page, store16, store32, store64}

abbrev pub kfs_magic : ℕ
kfs_magic = 0x1ba7ba

abbrev pub slots_bitmap_magic : ℕ
slots_bitmap_magic = 0x1a77e

abbrev pub slots_table_magic : ℕ
slots_table_magic = 0xdecaf

abbrev pub sinode_bitmap_magic : ℕ
sinode_bitmap_magic = 0xbad50da

abbrev pub sinode_table_magic : ℕ
sinode_table_magic = 0x00cafe

abbrev pub blockmap_magic : ℕ
blockmap_magic = 0xc001beb

abbrev pub entries_root_leaf : ℕ
entries_root_leaf = 0x000005

abbrev pub kfs_is_mounted : ℕ
kfs_is_mounted = 0x0008

abbrev pub one_megabyte : ℕ
one_megabyte = 1048576

abbrev pub one_gigabyte : ℕ
one_gigabyte = 1073741824

-- `sizeof`
abbrev pub sizeof_header : ℕ
sizeof_header = 32

abbrev pub sizeof_slot : ℕ
sizeof_slot = 40

abbrev pub sizeof_sinode : ℕ
sizeof_sinode = 96

abbrev pub sizeof_superblock : ℕ
sizeof_superblock = 224

-- `kfs_extent_t`
pub record KfsExtent : Type 0 where
  pub ee_block_addr : ℕ
  pub ee_block_size : ℕ
  pub ee_log_size : ℕ
  pub ee_log_addr : ℕ

abbrev pub get_extent : Page → ℕ → KfsExtent
get_extent page off = record {
  ee_block_addr = page off;
  ee_block_size = page (off + 8);
  ee_log_size = page (off + 10);
  ee_log_addr = page (off + 12);
}

abbrev pub put_extent : Page → ℕ → KfsExtent → Page
put_extent page off e =
    store32
      (store16 (store16 (store64 page off e.ee_block_addr) (off + 8) e.ee_block_size) (off + 10)
        e.ee_log_size)
      (off + 12) e.ee_log_addr

-- `kfs_table_t`
pub record KfsTable : Type 0 where
  pub capacity : ℕ
  pub in_use : ℕ
  pub bitmap_extent : KfsExtent
  pub table_extent : KfsExtent

abbrev pub get_table : Page → ℕ → KfsTable
get_table page off = record {
  capacity = page off;
  in_use = page (off + 8);
  bitmap_extent = get_extent page (off + 16);
  table_extent = get_extent page (off + 32);
}

abbrev pub put_table : Page → ℕ → KfsTable → Page
put_table page off t =
    put_extent
      (put_extent (store64 (store64 page off t.capacity) (off + 8) t.in_use) (off + 16)
        t.bitmap_extent)
      (off + 32) t.table_extent

-- The offsets in a `kfs_superblock_t`, whose file header comes first.
abbrev pub at_magic : ℕ
at_magic = 24

abbrev pub at_flags : ℕ
at_flags = 28

abbrev pub at_root : ℕ
at_root = 32

abbrev pub at_blocksize : ℕ
at_blocksize = 40

abbrev pub at_si_table : ℕ
at_si_table = 48

abbrev pub at_slot_table : ℕ
at_slot_table = 96

abbrev pub at_blockmap : ℕ
at_blockmap = 144

abbrev pub at_c_time : ℕ
at_c_time = 192

abbrev pub at_m_time : ℕ
at_m_time = 200

abbrev pub at_a_time : ℕ
at_a_time = 208

-- The first four fields of a `kfs_extent_header_t`, in order.
abbrev pub put_header : Page → ℕ → ℕ → ℕ → ℕ → Page
put_header page eh_magic in_use capacity flags =
    store16 (store32 (store32 (store32 page 0 eh_magic) 4 in_use) 8 capacity) 12 flags
