-- ===== src/Super/Memory.antt =====
-- The super block in memory, of fs/kfs_mem.h, and the copies between the two forms in
-- fs/kfs_super.c.
use kanekfs.Base.{ℕ, Bool, Option, none}
use kanekfs.Disk.{Page, store32, store64}
use kanekfs.Disk.Layout.{
  KfsExtent, KfsTable, get_table, put_table, at_magic, at_flags, at_root, at_si_table,
  at_slot_table, at_blockmap, at_c_time, at_m_time, at_a_time,
}

-- `extent_t`, less the fields of the part that is mapped.
pub record Extent : Type 0 where
  pub ex_block_addr : ℕ
  pub ex_block_size : ℕ
  pub ex_log_size : ℕ
  pub ex_log_addr : ℕ

-- `table_t`, less its cache.
pub record Table : Type 0 where
  pub table_capacity : ℕ
  pub table_in_use : ℕ
  pub map_extent : Extent
  pub entries_extent : Extent

-- `sb_t`. The page cache and the page of the super block are there or not.
pub record Sb : Type 0 where
  pub sb_magic : ℕ
  pub sb_root_super_inode : ℕ
  pub sb_page_cache : Option Bool
  pub sb_si_table : Table
  pub sb_slot_table : Table
  pub sb_blockmap : Table
  pub sb_c_time : ℕ
  pub sb_m_time : ℕ
  pub sb_a_time : ℕ
  pub sb_flags : ℕ

unfoldable pub ex_2_kfsex : Extent → KfsExtent
ex_2_kfsex ex = record {
  ee_block_addr = ex.ex_block_addr;
  ee_block_size = ex.ex_block_size;
  ee_log_size = ex.ex_log_size;
  ee_log_addr = ex.ex_log_addr;
}

unfoldable pub kfsex_2_ex : KfsExtent → Extent
kfsex_2_ex kex = record {
  ex_block_addr = kex.ee_block_addr;
  ex_block_size = kex.ee_block_size;
  ex_log_size = kex.ee_log_size;
  ex_log_addr = kex.ee_log_addr;
}

-- The four assignments that `kfssb_to_sb` repeats for each table.
unfoldable pub to_table : KfsTable → Table
to_table t = record {
  table_capacity = t.capacity;
  table_in_use = t.in_use;
  map_extent = kfsex_2_ex t.bitmap_extent;
  entries_extent = kfsex_2_ex t.table_extent;
}

unfoldable pub from_table : Table → KfsTable
from_table t = record {
  capacity = t.table_capacity;
  in_use = t.table_in_use;
  bitmap_extent = ex_2_kfsex t.map_extent;
  table_extent = ex_2_kfsex t.entries_extent;
}

unfoldable pub kfssb_to_sb : Page → Sb
kfssb_to_sb kfs_sb = record {
  sb_magic = kfs_sb at_magic;
  sb_root_super_inode = kfs_sb at_root;
  sb_page_cache = none;
  sb_si_table = to_table (get_table kfs_sb at_si_table);
  sb_slot_table = to_table (get_table kfs_sb at_slot_table);
  sb_blockmap = to_table (get_table kfs_sb at_blockmap);
  sb_c_time = kfs_sb at_c_time;
  sb_m_time = kfs_sb at_m_time;
  sb_a_time = kfs_sb at_a_time;
  sb_flags = kfs_sb at_flags;
}

-- The page, and the copy in memory, whose times change too.
unfoldable pub sb_to_kfssb : ℕ → Page → Sb → Page × Sb
sb_to_kfssb now ksb sb =
    let ksb = store64 (store64 ksb at_m_time now) at_a_time now in
    let ksb = store64 ksb at_root sb.sb_root_super_inode in
    let ksb = store32 ksb at_flags sb.sb_flags in
    let ksb = put_table ksb at_si_table (from_table sb.sb_si_table) in
    let ksb = put_table ksb at_slot_table (from_table sb.sb_slot_table) in
    (
      put_table ksb at_blockmap (from_table sb.sb_blockmap),
      record sb { sb_m_time = now; sb_a_time = now },
    )
