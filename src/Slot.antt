-- ===== src/Slot.antt =====
-- `kfs_slot_reserve` and `kfs_slot_remove` of fs/kfs_slot.c, with the extents of fs/eio.c. The
-- parts that the two functions share, word for word, are one definition each. An access outside of
-- the page of a slot is a fault.
pub mod Failing
use kanekfs.Base.{
  ℕ, ◌+◌, ◌-◌, ◌*◌, ◌/◌, ◌%◌, ◌^◌, ℤ, pos, negsuc, List, Bool, not, ◌==◌, ltb, leb, ◌&&◌, bit_or,
  Option, none, some, u64, if◌then◌else◌,
}
use kanekfs.Map.Bitmap.{bm_set_bit}
use kanekfs.Map.Find.{bm_find}
use kanekfs.Disk.{Page, Device, kfs_blocksize, u16, store16, store32, block_read, block_write}
use kanekfs.Disk.Layout.{slots_bitmap_magic, slots_table_magic, sizeof_header, sizeof_slot}
use kanekfs.Mkfs.Tables.{MapBuffer, to_buffer, to_page}
use kanekfs.Super.Memory.{Sb}
use kanekfs.Super.Mount.{is_failure, kfs_active}

-- What `block_read`, `block_write`, `extent_read` and `extent_write` return, always.
abbrev pub io_rc : ℤ
io_rc = pos 0

-- `KFS_BLOCKSIZE * block_num`, an `int`: a product outside of its range is not defined, `none`.
unfoldable pub byte_count : ℕ → Option ℕ
byte_count block_num =
    if ltb (kfs_blocksize * block_num) (2 ^ 31) then some (kfs_blocksize * block_num) else none

-- What a read of `bytes` bytes, a whole number of blocks, leaves in memory.
unfoldable pub read_bytes : Device → Page → ℕ → ℕ → Page
read_bytes dev extent addr bytes k =
    if ltb k bytes then dev (addr + k / kfs_blocksize) (k % kfs_blocksize) else extent k

unfoldable pub extent_read : Device → Page → ℕ → ℕ → Option Page
extent_read dev extent addr block_num = elim (byte_count block_num) [
  | none ↦ none
  | some bytes ↦ some (read_bytes dev extent addr bytes)
]

-- What a write of `bytes` bytes, a whole number of blocks, leaves on the device.
unfoldable pub write_bytes : Device → Page → ℕ → ℕ → Device
write_bytes dev extent addr bytes b k =
    if leb addr b && ltb b (addr + bytes / kfs_blocksize)
    then (if ltb k kfs_blocksize then extent ((b - addr) * kfs_blocksize + k) else 0)
    else dev b k

unfoldable pub extent_write : Device → Page → ℕ → ℕ → Option Device
extent_write dev extent addr block_num = elim (byte_count block_num) [
  | none ↦ none
  | some bytes ↦ some (write_bytes dev extent addr bytes)
]

abbrev pub slot_in_use : ℕ
slot_in_use = 0x0100

-- The offset of `slot_flags` in a `kfs_slot_t`.
abbrev pub at_slot_flags : ℕ
at_slot_flags = 34

-- The super block in memory and the device.
pub record Slots : Type 0 where
  pub sb : Sb
  pub dev : Device

-- A part of a function goes on with a value, returns from the function, or faults.
pub data Run {ℓ} (A : Type ℓ) : Type ℓ where
  goes_on : A → Run A
  returns : ℤ → Slots → Run A
  faults : Run A

infixl 5 ◌>>=◌ ◌>>◌
abbrev pub ◌>>=◌ {ℓ κ} : {A : Type ℓ} {B : Type κ} → Run A → (A → Run B) → Run B
goes_on a >>= f = f a
returns rc s >>= f = returns rc s
faults >>= f = faults

abbrev pub ◌>>◌ {ℓ} : {B : Type ℓ} → Run (Unit {0}) → Run B → Run B
m >> k = m >>= λ _. k

-- `return( -1)` where the test holds.
abbrev pub fails_if : Bool → Slots → Run (Unit {0})
fails_if b s = if b then returns (negsuc 0) s else goes_on tt

-- A part that is not defined.
abbrev pub or_fault {ℓ} : {A : Type ℓ} → Option A → Run A
or_fault none = faults
or_fault (some a) = goes_on a

-- An access outside of a page.
abbrev pub faults_if : Bool → Run (Unit {0})
faults_if b = if b then faults else goes_on tt

-- `rc == 0`, which the code takes for the failure of a read or a write.
abbrev pub check_io : ℤ → Slots → Run (Unit {0})
check_io rc s = fails_if (not (is_failure rc)) s

unfoldable pub check_active : Slots → Run (Unit {0})
check_active s = elim (kfs_active s.sb) [ none ↦ faults | some rc ↦ fails_if (is_failure rc) s ]

-- `pages_alloc`: `none` is NULL.
abbrev pub reserved : Option Page → Slots → Run Page
reserved none s = returns (negsuc 0) s
reserved (some p) s = goes_on p

-- The map of the slots, from its allocation to the test of its magic number. The number of its blocks
-- is a field of 16 bits.
unfoldable pub read_map : Option Page → Slots → Run Page
read_map pages s = do
  let map_extent = s.sb.sb_slot_table.map_extent
  p ← reserved pages s
  p' ← or_fault (extent_read s.dev p map_extent.ex_block_addr (u16 map_extent.ex_block_size))
  check_io io_rc s
  fails_if (not (p' 0 == slots_bitmap_magic)) s
  goes_on p'

-- The copies of the map and of the super block, and the map on the device, once the bits are
-- those of `bitmap`.
unfoldable pub stored_map : Page → List ℕ → ℕ → Slots → Option Slots
stored_map p bitmap in_use s =
    let map_extent = s.sb.sb_slot_table.map_extent in
    let map : MapBuffer = record { header = store32 p 4 in_use; bitmap = bitmap } in
    elim (extent_write s.dev (to_page map) map_extent.ex_block_addr
      (u16 map_extent.ex_block_size)) [
        | none ↦ none
        | some dev ↦ some (record {
          sb = record s.sb { sb_slot_table = record s.sb.sb_slot_table { table_in_use = in_use } };
          dev = dev;
        })
      ]

-- The bit of a slot in the map, the number of slots in use, and the write of the map.
unfoldable pub set_slot : Page → ℕ → ℕ → ℕ → Slots → Run Slots
set_slot p slot_id clear_or_set in_use s =
    let slot_table = s.sb.sb_slot_table in
    let map = to_buffer (u16 slot_table.map_extent.ex_block_size) p in
    elim (bm_set_bit map.bitmap slot_table.table_capacity slot_id clear_or_set) [
      | none ↦ faults
      | some (rc, bitmap) ↦ (do
        s' ← or_fault (stored_map p bitmap in_use s)
        check_io io_rc s'
        goes_on s')
    ]

-- The block that the code takes for the one of a slot, and the offset in slots that it adds.
unfoldable pub slot_block : ℕ → ℕ
slot_block slot_id = u64 (slot_id * ((kfs_blocksize - sizeof_header) / sizeof_slot))

unfoldable pub slot_place : ℕ → ℕ
slot_place slot_id =
    (slot_id % kfs_blocksize + (if slot_block slot_id == 0 then 16 else 0)) * sizeof_slot

-- The slot in its block, with the flags that `flags` makes of the old ones. The test of the id
-- fails when the id is the right one.
unfoldable pub update_slot : Option Page → ℕ → (ℕ → ℕ) → Slots → Run Slots
update_slot pages slot_id flags s = do
  let table_extent = s.sb.sb_si_table.entries_extent
  fails_if (ltb table_extent.ex_block_size (slot_block slot_id)) s
  let addr = u64 (slot_block slot_id + table_extent.ex_block_addr)
  p ← reserved pages s
  check_io io_rc s
  let p' = block_read s.dev addr
  let place = slot_place slot_id
  faults_if (ltb kfs_blocksize (place + 8))
  fails_if (p' place == slot_id) s
  faults_if (ltb kfs_blocksize (place + at_slot_flags + 2))
  let written = store16 p' (place + at_slot_flags) (flags (p' (place + at_slot_flags)))
  let s' = record s { dev = block_write s.dev written addr }
  check_io io_rc s'
  goes_on s'

-- The number of slots in use, in the first block of the table of super inodes.
unfoldable pub update_index : Slots → Run Slots
update_index s = do
  let addr = s.sb.sb_si_table.entries_extent.ex_block_addr
  check_io io_rc s
  let p = block_read s.dev addr
  fails_if (not (p 0 == slots_table_magic)) s
  let s' = record s { dev = block_write s.dev (store32 p 4 s.sb.sb_slot_table.table_in_use) addr }
  check_io io_rc s'
  returns (pos 0) s'

-- The end of a function, if it does not fault.
abbrev pub outcome : Run Slots → Option (ℤ × Slots)
outcome (goes_on s) = some (pos 0, s)
outcome (returns rc s) = some (rc, s)
outcome faults = none

-- The slot that `bm_find` gives. A `bm_find` that fails ends the function.
unfoldable pub find_slot : Page → Slots → Run ℕ
find_slot p s =
    let total_slots = s.sb.sb_slot_table.table_capacity in
    let map = to_buffer (u16 s.sb.sb_slot_table.map_extent.ex_block_size) p in
    elim (bm_find map.bitmap total_slots 0 total_slots 1) [
      | none ↦ faults
      | some (rc, slot_id) ↦ (do fails_if (is_failure rc) s; goes_on slot_id)
    ]

-- The two results of `pages_alloc` are arguments.
unfoldable pub kfs_slot_reserve : Option Page → Option Page → Slots → Option (ℤ × Slots)
kfs_slot_reserve map_pages slot_page s = outcome do
  check_active s
  fails_if (ltb s.sb.sb_slot_table.table_capacity s.sb.sb_slot_table.table_in_use) s
  p ← read_map map_pages s
  fails_if (ltb (p 8) (p 4)) s
  slot_id ← find_slot p s
  s' ← set_slot p slot_id 1 (u64 (s.sb.sb_slot_table.table_in_use + 1)) s
  s'' ← update_slot slot_page slot_id (λ flags. bit_or flags slot_in_use) s'
  update_index s''

unfoldable pub kfs_slot_remove : ℕ → Option Page → Option Page → Slots → Option (ℤ × Slots)
kfs_slot_remove slot_id map_pages slot_page s = outcome do
  check_active s
  fails_if (ltb s.sb.sb_slot_table.table_capacity slot_id) s
  p ← read_map map_pages s
  s' ← set_slot p slot_id 0 (u64 (s.sb.sb_slot_table.table_in_use + 2 ^ 64 - 1)) s
  s'' ← update_slot slot_page slot_id (λ flags. 0) s'
  update_index s''
