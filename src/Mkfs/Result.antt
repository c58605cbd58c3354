-- ===== src/Mkfs/Result.antt =====
-- `build_in_file` of Mkfs/Build returns; the device that it leaves, and the map of the blocks that
-- it writes last.
use kanekfs.Base.{
  ℕ, ◌+◌, ◌-◌, ◌*◌, ◌^◌, ◌≤◌, ◌<◌, ◌≡◌, refl, arith, List, [], ◌∷◌, set, none, some, pos, length,
  u64, ltb, inl, inr, Bool-cases, if◌then◌else◌,
}
use kanekfs.Map.Bitmap.{bm_set_bit}
use kanekfs.Map.Byte.{byte_set_bits}
use kanekfs.Disk.{Page, Device, kfs_blocksize, clear}
use kanekfs.Disk.Layout.{slots_bitmap_magic, sinode_bitmap_magic}
use kanekfs.Mkfs.{BlocksCalc}
use kanekfs.Mkfs.Sizes.{IsLaidOut}
use kanekfs.Mkfs.Superblock.{fs_map_block, slot_map_block, sinode_map_block, build_superblock}
use kanekfs.Mkfs.Tables.{MapBuffer, to_buffer, to_page, write_blocks, write_pages}
use kanekfs.Mkfs.Build.{
  new_map, write_sinodes, build_sinodes, with_slots, end_of_slots, first_slots, write_slots,
  build_slots, write_map, build_in_file,
}
use kanekfs.Mkfs.Written.{length-page_bytes}
use kanekfs.Mkfs.Marks.{
  IsBlockMap, with_marks, first_marks, mark_blocks-IsBlockMap, build_map-IsBlockMap,
}

-- Where the maps lie.
pub record IsPlaced (bc : BlocksCalc) : Type 0 where
  pub fs_map_place : fs_map_block bc + bc.out_bitmap_size_in_blocks ≡ bc.in_file_size_in_blocks
  pub slot_map_place : slot_map_block bc + 1 ≡ fs_map_block bc
  pub sinode_map_place : sinode_map_block bc + 1 ≡ slot_map_block bc
  pub tables_before :
      1 + bc.out_sinodes_table_in_blocks + bc.out_slots_table_in_blocks ≤ sinode_map_block bc
  pub slots_place : u64 (bc.out_sinodes_table_in_blocks + 1) ≡ bc.out_sinodes_table_in_blocks + 1

pub IsLaidOut-IsPlaced : (n : ℕ) (bc : BlocksCalc) → n < 2 ^ 32 → IsLaidOut n bc → IsPlaced bc
unfolding fs_map_block slot_map_block sinode_map_block
IsLaidOut-IsPlaced n bc small laid =
    let fsb : ℕ = bc.out_bitmap_size_in_blocks in
    let room = laid.fits in
    let parts = laid.total_all in
    let size = laid.size_blocks in
    let one = laid.slots_map in
    let other = laid.sinodes_map in
    let fs : fs_map_block bc + fsb ≡ n = omega arith in
    let sl : slot_map_block bc + 1 ≡ fs_map_block bc = omega arith in
    let si : sinode_map_block bc + 1 ≡ slot_map_block bc = omega arith in
    record {
      fs_map_place = omega arith;
      slot_map_place = sl;
      sinode_map_place = si;
      tables_before = omega arith;
      slots_place = omega arith;
    }

-- The bits that are set in the map, in the order of the code.
unfoldable pub final_marks : BlocksCalc → (ℕ → ℕ) → ℕ → ℕ
final_marks bc first =
    let table = u64 (bc.out_sinodes_table_in_blocks + 1) in
    let sinodes =
      with_marks (sinode_map_block bc) bc.out_sinodes_bitmap_blocks_num
        (with_marks 1 bc.out_sinodes_table_in_blocks first) in
    with_marks (fs_map_block bc) bc.out_bitmap_size_in_blocks (
      with_marks (slot_map_block bc) bc.out_slots_bitmap_blocks_num
        (with_marks table bc.out_slots_table_in_blocks sinodes))

-- The bitmap of the super inodes, before its first bit is set.
unfoldable pub sinode_map : BlocksCalc → (ℕ → Page) → MapBuffer
sinode_map bc pages_alloc =
    let size = bc.out_sinodes_bitmap_blocks_num in
    new_map sinode_bitmap_magic 1 bc.out_sinodes_num size (clear (pages_alloc size) kfs_blocksize)

unfoldable pub slot_map : BlocksCalc → (ℕ → Page) → MapBuffer
slot_map bc pages_alloc =
    let size = bc.out_slots_bitmap_blocks_num in
    new_map slots_bitmap_magic 0 bc.out_slots_num size (clear (pages_alloc size) kfs_blocksize)

-- All that is written: `bm` is the bitmap of the super inodes, and `map` the map of the blocks.
unfoldable pub final_device : ℕ → BlocksCalc → (ℕ → Page) → Device → List ℕ → MapBuffer → Device
final_device now bc pages_alloc dev bm map =
    let filled = write_pages bc.in_file_size_in_blocks 0 (pages_alloc 1) dev in
    let sinodes =
      write_blocks bc.out_sinodes_bitmap_blocks_num (sinode_map_block bc)
        (to_page (record (sinode_map bc pages_alloc) { bitmap = bm }))
        (write_sinodes now bc pages_alloc (build_superblock now bc (pages_alloc 1) filled)) in
    let slots =
      write_blocks bc.out_slots_bitmap_blocks_num (slot_map_block bc)
        (to_page (slot_map bc pages_alloc))
        (write_slots bc (with_slots bc (pages_alloc 1)) sinodes) in
    write_blocks bc.out_bitmap_size_in_blocks (fs_map_block bc) (to_page map) slots

-- Whatever the capacity is that the bitmap is said to have.
first_bit_set :
    (bm : List ℕ) (total : ℕ)
    → 1 ≤ length bm
    → 1 ≤ total
    → (bm' : List ℕ) × (bm_set_bit bm total 0 1 ≡ some (pos 0, bm'))
unfolding bm_set_bit
first_bit_set [] total some_bytes some_bits = absurd (omega arith)
first_bit_set (byte ∷ bm) total some_bytes some_bits =
    (set (byte ∷ bm) 0 (byte_set_bits 0 1 byte 1), ground arith)

new_map-length :
    (eh_magic in_use capacity blocks : ℕ) (page : Page)
    → length (new_map eh_magic in_use capacity blocks page).bitmap ≡ blocks * kfs_blocksize - 32
unfolding new_map to_buffer
new_map-length eh_magic in_use capacity blocks page =
    length-page_bytes (blocks * kfs_blocksize - 32) _ 32

-- 204 slots end at byte 9408.
first_slots-room :
    (room : ℕ) (bc : BlocksCalc) (page : Page)
    → bc.out_slots_per_block ≡ 204
    → first_slots room bc page ≡ (if ltb room 9408 then none else some (with_slots bc page))
unfolding first_slots end_of_slots
first_slots-room room bc page h =
    let end : end_of_slots bc ≡ 9408 = rw (end_of_slots, h) refl in rw (first_slots, end) refl

-- All is written when there is room for the slots, and else a fault comes first.
pub build_in_file-returns :
    (room now n : ℕ) (bc : BlocksCalc) (pages_alloc : ℕ → Page) (dev : Device)
    → n < 2 ^ 32
    → IsLaidOut n bc
    → IsPlaced bc
    → ((count off : ℕ) → pages_alloc count off < 2 ^ 8)
    → (bm : List ℕ) × (map : MapBuffer) × (build_in_file room now bc pages_alloc dev
        ≡ (if ltb room 9408 then none else some (final_device now bc pages_alloc dev bm map)))
      × IsBlockMap
          (bc.out_bitmap_size_in_blocks * kfs_blocksize - 32)
          (final_marks bc (with_marks 0 1 (first_marks bc pages_alloc)))
          map
unfolding build_in_file build_sinodes build_slots write_map final_device final_marks sinode_map
    slot_map
build_in_file-returns room now n bc pages_alloc dev small laid placed is_byte =
    let size : ℕ = bc.out_bitmap_size_in_blocks * kfs_blocksize - 32 in
    let is_size = laid.size_blocks in
    let total = laid.total_all in
    let fits = laid.fits in
    let map_room : bc.in_file_size_in_blocks ≤ size * 8 = omega (arith, laid.blocks_map_all) in
    let narrow : bc.in_file_size_in_blocks < 2 ^ 64 = omega arith in
    let (m0, r0, w0) = build_map-IsBlockMap bc pages_alloc is_byte (omega arith) map_room in
    let si = sinode_map bc pages_alloc in
    let slots_at = placed.slots_place in
    let places = placed.fs_map_place in
    let slot_place = placed.slot_map_place in
    let sinode_place = placed.sinode_map_place in
    let before = placed.tables_before in
    let one = laid.sinodes_map in
    let other = laid.slots_map in
    let some_blocks = laid.sinodes_blocks in
    let more_blocks = laid.slots_blocks in
    let (bm, rb) =
      first_bit_set si.bitmap bc.out_sinodes_num
        (omega (
          arith,
          new_map-length sinode_bitmap_magic 1 bc.out_sinodes_num bc.out_sinodes_bitmap_blocks_num
              (clear (pages_alloc bc.out_sinodes_bitmap_blocks_num) kfs_blocksize),
        ))
        (omega (arith, laid.sinodes_num)) in
    let (m1, r1, w1) =
      mark_blocks-IsBlockMap bc size _ m0 1 bc.out_sinodes_table_in_blocks w0 map_room narrow
        (omega arith) (omega arith) in
    let (m2, r2, w2) =
      mark_blocks-IsBlockMap bc size _ m1 (sinode_map_block bc) bc.out_sinodes_bitmap_blocks_num w1
        map_room narrow (omega arith) (omega arith) in
    let (m3, r3, w3) =
      mark_blocks-IsBlockMap bc size _ m2 (u64 (bc.out_sinodes_table_in_blocks + 1))
        bc.out_slots_table_in_blocks w2 map_room narrow (omega arith) (omega arith) in
    let (m4, r4, w4) =
      mark_blocks-IsBlockMap bc size _ m3 (slot_map_block bc) bc.out_slots_bitmap_blocks_num w3
        map_room narrow (omega arith) (omega arith) in
    let (m5, r5, w5) =
      mark_blocks-IsBlockMap bc size _ m4 (fs_map_block bc) bc.out_bitmap_size_in_blocks w4 map_room
        narrow (omega arith) (omega arith) in
    let slots = first_slots-room room bc (pages_alloc 1) laid.slots_in_block in
    let returns : build_in_file room now bc pages_alloc dev
        ≡ (if ltb room 9408 then none else some (final_device now bc pages_alloc dev bm m5)) =
      elim (Bool-cases (ltb room 9408)) [
        | inl short ↦ rw (r0, rb, r1, r2, slots, short) refl
        | inr wide ↦ rw (r0, rb, r1, r2, slots, wide, r3, r4, r5) refl
      ] in
    (bm, m5, returns, w5)
