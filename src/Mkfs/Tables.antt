-- ===== src/Mkfs/Tables.antt =====
-- The blocks of a table and of a bitmap on their way to the device, for fs/kfs_mkfs.c.
use kanekfs.Base.{
  ℕ, zero, suc, ◌+◌, ◌-◌, ◌*◌, List, [], ◌∷◌, get_elem?, Option, none, some, ltb, if◌then◌else◌,
}
use kanekfs.Disk.{Page, Device, kfs_blocksize, clear, from_byte, block_write}
use kanekfs.Disk.Ids.{fill_ids}

-- The loop that writes the blocks of a table from the second on: `per_block` entries of `size`
-- bytes in each, whose ids go on from one block to the next.
unfoldable pub write_table : ℕ → ℕ → ℕ → ℕ → ℕ → Page → Device → Device
write_table zero per_block size block_num id page dev = dev
write_table (suc rounds) per_block size block_num id page dev =
    let filled = fill_ids per_block 0 size id (clear page kfs_blocksize) in
    write_table rounds per_block size (block_num + 1) (id + per_block) filled
      (block_write dev filled block_num)

-- The loop that writes the blocks of a bitmap.
unfoldable pub write_blocks : ℕ → ℕ → Page → Device → Device
write_blocks zero addr page dev = dev
write_blocks (suc rounds) addr page dev =
    write_blocks rounds (addr + 1) (from_byte page kfs_blocksize) (block_write dev page addr)

-- The loop that fills a new file with one page.
unfoldable pub write_pages : ℕ → ℕ → Page → Device → Device
write_pages zero addr page dev = dev
write_pages (suc rounds) addr page dev =
    write_pages rounds (addr + 1) page (block_write dev page addr)

-- The blocks of a bitmap in memory: the header of the first, and the bytes of all after it.
pub record MapBuffer : Type 0 where
  pub header : Page
  pub bitmap : List ℕ

-- `n` bytes from `off` on.
unfoldable pub page_bytes : ℕ → Page → ℕ → List ℕ
page_bytes zero page off = []
page_bytes (suc n) page off = page off ∷ page_bytes n page (off + 1)

abbrev pub or_zero : Option ℕ → ℕ
or_zero none = 0
or_zero (some x) = x

unfoldable pub to_buffer : ℕ → Page → MapBuffer
to_buffer blocks page = record {
  header = page;
  bitmap = page_bytes (blocks * kfs_blocksize - 32) page 32;
}

unfoldable pub to_page : MapBuffer → Page
to_page map k = if ltb k 32 then map.header k else or_zero (get_elem? map.bitmap (k - 32))
