-- ===== src/Super/Mount.antt =====
-- `kfs_active`, `kfs_mount`, `kfs_umount` and `sb_to_kfssb` of fs/kfs_super.c. What the page cache
-- gives is an argument.
pub mod Cycle
use kanekfs.Base.{
  ℕ, ◌-◌, ◌^◌, ℤ, pos, negsuc, Bool, not, true, false, ◌==◌, bit_and, bit_or, bit_xor, Option, none,
  some, if◌then◌else◌,
}
use kanekfs.Map.Bitmap.{◌>>=◌}
use kanekfs.Disk.{Page, store32, store64}
use kanekfs.Disk.Layout.{kfs_magic, kfs_is_mounted, at_flags, at_m_time, at_a_time}
use kanekfs.Super.Memory.{Extent, Table, Sb, kfssb_to_sb, sb_to_kfssb}

-- `rc` is not 0.
abbrev pub is_failure : ℤ → Bool
is_failure (pos n) = not (n == 0)
is_failure (negsuc n) = true

-- A read of the flags of no cache is a fault.
unfoldable pub kfs_active : Sb → Option ℤ
kfs_active sb =
    if not (sb.sb_magic == kfs_magic)
    then some (negsuc 0)
    else if bit_and sb.sb_flags kfs_is_mounted == 0
    then some (negsuc 0)
    else (do is_active ← sb.sb_page_cache; some (if is_active then pos 0 else negsuc 0))

-- `kfs_open`, `pgcache_alloc`, `pgcache_enable_sync`, `pgcache_element_map_sync`,
-- `pgcache_element_sync`, and whether CACHE_ACTIVE is on.
pub record MountCalls : Type 0 where
  pub opens : Bool
  pub has_cache : Bool
  pub enables : Bool
  pub maps : Option Page
  pub syncs : ℤ
  pub is_active : Bool

-- The result, the super block in memory, its page, and whether the cache and the file are open.
pub record MountState : Type 0 where
  pub rc : ℤ
  pub sb : Sb
  pub page : Option Page
  pub is_open : Bool

abbrev pub not_mounted : ℤ → Sb → MountState
not_mounted code sb = record { rc = code; sb = sb; page = none; is_open = false }

-- From the page on that is mapped. When the copy is not active the result is 0 all the same.
unfoldable pub mount_page : ℕ → MountCalls → Page → Option MountState
mount_page now call kfs_sb = do
  let flags = bit_or (kfs_sb at_flags) kfs_is_mounted
  let sb = record (kfssb_to_sb kfs_sb) {
    sb_page_cache = some call.is_active;
    sb_flags = flags;
    sb_m_time = now;
    sb_a_time = now;
  }
  let page = store64 (store64 (store32 kfs_sb at_flags flags) at_m_time now) at_a_time now
  if is_failure call.syncs
      then some (record { rc = call.syncs; sb = sb; page = some page; is_open = false })
      else do
        active ← kfs_active sb
        some (record { rc = pos 0; sb = sb; page = some page; is_open = not (is_failure active) })

unfoldable pub kfs_mount : ℕ → MountCalls → Sb → Option MountState
kfs_mount now call sb =
    if not call.opens
    then some (not_mounted (negsuc 0) sb)
    else if not call.has_cache
    then some (not_mounted (negsuc 0) sb)
    else if not call.enables
    then some (not_mounted (negsuc 0) sb)
    else elim call.maps [
      | none ↦ some (not_mounted (negsuc 0) sb)
      | some page ↦ mount_page now call page
    ]

abbrev pub no_extent : Extent
no_extent = record { ex_block_addr = 0; ex_block_size = 0; ex_log_size = 0; ex_log_addr = 0 }

abbrev pub no_table : Table
no_table = record {
  table_capacity = 0;
  table_in_use = 0;
  map_extent = no_extent;
  entries_extent = no_extent;
}

-- `memset( &__sb, 0, sizeof( sb_t))`
abbrev pub no_sb : Sb
no_sb = record {
  sb_magic = 0;
  sb_root_super_inode = 0;
  sb_page_cache = none;
  sb_si_table = no_table;
  sb_slot_table = no_table;
  sb_blockmap = no_table;
  sb_c_time = 0;
  sb_m_time = 0;
  sb_a_time = 0;
  sb_flags = 0;
}

-- The result, the page of the super block, and the copy in memory.
unfoldable pub kfs_umount : ℕ → Page → Sb → Option (ℤ × Page × Sb)
kfs_umount now page sb = if not (sb.sb_magic == kfs_magic) then some (negsuc 0, page, sb) else (do
  active ← kfs_active sb
  let flags = bit_and sb.sb_flags (bit_xor kfs_is_mounted (2 ^ 64 - 1))
  let written = sb_to_kfssb now page (record sb { sb_flags = flags })
  some (if is_failure active then negsuc 0 else pos 0, written.0, no_sb))
