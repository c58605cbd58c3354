-- ===== src/Super/Built.antt =====
-- `kfs_verify` on the file systems that fs/kfs_mkfs.c builds.
use kanekfs.Base.{
  ℕ, ◌+◌, ◌*◌, ◌/◌, ◌^◌, ◌≤◌, ◌<◌, ◌≡◌, refl, ap, ◌∙◌, arith, pos, List, none, some, true, inl, inr,
  ltb, if◌then◌else◌, Bool-cases, u64,
}
use kanekfs.Disk.{Page, Device, kfs_blocksize, u16, sub64}
use kanekfs.Disk.Layout.{
  one_gigabyte, at_magic, at_si_table, at_slot_table, at_blockmap, kfs_magic, blockmap_magic,
}
use kanekfs.Mkfs.{any, Options, BlocksCalc}
use kanekfs.Mkfs.Compute.{compute_values}
use kanekfs.Mkfs.Sizes.{IsFull, IsLaidOut, compute_values-IsLaidOut}
use kanekfs.Mkfs.Superblock.{
  superblock, store_identity, store_si_table, store_slot_table, store_blockmap, fs_map_block,
  slot_map_block, sinode_map_block,
}
use kanekfs.Mkfs.Tables.{MapBuffer, to_page}
use kanekfs.Mkfs.Build.{mkfs_create_file, build_in_file, build_filesystem_in_file}
use kanekfs.Mkfs.Written.{write_blocks-first}
use kanekfs.Mkfs.Result.{IsPlaced, IsLaidOut-IsPlaced, final_device, build_in_file-returns}
use kanekfs.Mkfs.Final.{IsBuilt, final-IsBuilt}
use kanekfs.Super.Verify.{Opening, kfs_verify}
use kanekfs.Super.Checks.{HasExtents, kfs_verify_iff}

-- The fields of the super block that are looked at.
record HasFields (bc : BlocksCalc) (sb : Page) : Type 0 where
  magic : sb at_magic ≡ kfs_magic
  sinodes_capacity : sb at_si_table ≡ u64 bc.out_sinodes_num
  sinodes_addr : sb (at_si_table + 32) ≡ 1
  sinodes_size : sb (at_si_table + 40) ≡ u16 bc.out_sinodes_table_in_blocks
  sinodes_map_addr : sb (at_si_table + 16) ≡ u64 (sinode_map_block bc)
  slots_capacity : sb at_slot_table ≡ u64 bc.out_slots_num
  slots_addr : sb (at_slot_table + 32) ≡ u64 (u64 (bc.out_sinodes_table_in_blocks + 1))
  slots_size : sb (at_slot_table + 40) ≡ u16 bc.out_slots_table_in_blocks
  slots_map_addr : sb (at_slot_table + 16) ≡ u64 (slot_map_block bc)
  blocks_map_addr : sb (at_blockmap + 16) ≡ u64 (fs_map_block bc)

superblock-HasFields :
    (now : ℕ) (bc : BlocksCalc) (page : Page) → HasFields bc (superblock now bc page)
unfolding superblock store_identity store_si_table store_slot_table store_blockmap sinode_map_block
    slot_map_block fs_map_block kanekfs.Disk.store_text
superblock-HasFields now bc page = record {
  magic = refl;
  sinodes_capacity = refl;
  sinodes_addr = refl;
  sinodes_size = refl;
  sinodes_map_addr = refl;
  slots_capacity = refl;
  slots_addr = refl;
  slots_size = refl;
  slots_map_addr = refl;
  blocks_map_addr = refl;
}

on_device :
    {now : ℕ} {bc : BlocksCalc} {page : Page} {dev : Device}
    → IsBuilt now bc page dev
    → HasFields bc (dev 0)
on_device {now} {bc} {page} {dev} built =
    let fields = superblock-HasFields now bc page in
    record {
      magic = built.at_superblock at_magic (omega arith) ∙ fields.magic;
      sinodes_capacity = built.at_superblock at_si_table (omega arith) ∙ fields.sinodes_capacity;
      sinodes_addr = built.at_superblock (at_si_table + 32) (omega arith) ∙ fields.sinodes_addr;
      sinodes_size = built.at_superblock (at_si_table + 40) (omega arith) ∙ fields.sinodes_size;
      sinodes_map_addr =
          built.at_superblock (at_si_table + 16) (omega arith) ∙ fields.sinodes_map_addr;
      slots_capacity = built.at_superblock at_slot_table (omega arith) ∙ fields.slots_capacity;
      slots_addr = built.at_superblock (at_slot_table + 32) (omega arith) ∙ fields.slots_addr;
      slots_size = built.at_superblock (at_slot_table + 40) (omega arith) ∙ fields.slots_size;
      slots_map_addr =
          built.at_superblock (at_slot_table + 16) (omega arith) ∙ fields.slots_map_addr;
      blocks_map_addr =
          built.at_superblock (at_blockmap + 16) (omega arith) ∙ fields.blocks_map_addr;
    }

built-HasExtents :
    (now n : ℕ) (bc : BlocksCalc) (page : Page) (dev : Device)
    → n < 2 ^ 32
    → IsLaidOut n bc
    → IsPlaced bc
    → IsBuilt now bc page dev
    → dev (fs_map_block bc) 0 ≡ blockmap_magic
    → HasExtents dev (dev 0)
unfolding kanekfs.Disk.block_read
built-HasExtents now n bc page dev small laid placed built map_magic =
    let fields = on_device built in
    let s : ℕ = bc.out_sinodes_table_in_blocks in
    let t : ℕ = bc.out_slots_table_in_blocks in
    let some_blocks = laid.sinodes_blocks in
    let more_blocks = laid.slots_blocks in
    let s_short = laid.sinodes_short in
    let t_short = laid.slots_short in
    let e1 = fields.sinodes_addr in
    let e2 = fields.sinodes_size in
    let e3 = fields.slots_addr in
    let e4 = fields.slots_size in
    let e5 = placed.slots_place in
    let c1 = fields.sinodes_capacity in
    let c2 = fields.slots_capacity in
    let n1 = laid.sinodes_num in
    let n2 = laid.slots_num_all in
    let size = laid.size_blocks in
    let p1 = placed.fs_map_place in
    let p2 = placed.slot_map_place in
    let p3 = placed.sinode_map_place in
    record {
      sinode_table = ap (λ (b : ℕ). dev b 0) e1 ∙ built.at_sinodes;
      sinode_last = ap (λ (b : ℕ). dev b (84 * 96)) (omega arith) ∙ built.last_sinode ∙ omega arith;
      slot_table = ap (λ (b : ℕ). dev b 0) (omega arith) ∙ built.at_slots;
      slot_last = ap (λ (b : ℕ). dev b (203 * 40)) (omega arith) ∙ built.last_slot ∙ omega arith;
      sinode_map_there =
          ap (λ (b : ℕ). dev b 0) (omega (arith, fields.sinodes_map_addr)) ∙ built.at_sinode_map;
      slot_map_there =
          ap (λ (b : ℕ). dev b 0) (omega (arith, fields.slots_map_addr)) ∙ built.at_slot_map;
      block_map_there = ap (λ (b : ℕ). dev b 0) (omega (arith, fields.blocks_map_addr)) ∙ map_magic;
    }

final-map_magic :
    (now : ℕ) (bc : BlocksCalc) (pages_alloc : ℕ → Page) (dev : Device) (bm : List ℕ)
    (map : MapBuffer)
    → 1 ≤ bc.out_bitmap_size_in_blocks
    → map.header 0 ≡ blockmap_magic
    → final_device now bc pages_alloc dev bm map (fs_map_block bc) 0 ≡ blockmap_magic
unfolding final_device to_page
final-map_magic now bc pages_alloc dev bm map one magic =
    write_blocks-first _ (fs_map_block bc) (to_page map) _ 0 one (omega arith) ∙ magic

file_built :
    (flags room now : ℕ) (bc : BlocksCalc) (pages_alloc : ℕ → Page) (dev dev' : Device)
    → build_in_file room now bc pages_alloc dev ≡ (if ltb room 9408 then none else some dev')
    → build_filesystem_in_file true true flags room now bc pages_alloc dev
      ≡ (if ltb room 9408 then none else some (pos 0, dev'))
unfolding build_filesystem_in_file
file_built flags room now bc pages_alloc dev dev' returns =
    elim (Bool-cases (any flags mkfs_create_file)) [
      | inl new ↦ elim (Bool-cases (ltb room 9408)) [
        | inl short ↦ rw (new, returns, short) refl
        | inr wide ↦ rw (new, returns, wide) refl
      ]
      | inr old ↦ elim (Bool-cases (ltb room 9408)) [
        | inl short ↦ rw (old, returns, short) refl
        | inr wide ↦ rw (old, returns, wide) refl
      ]
    ]

-- All calls of the system go well.
pub record IsOpened (call : Opening) : Type 0 where
  pub it_exists : call.exists ≡ true
  pub it_is_supported : call.is_supported ≡ true
  pub it_has_page : call.has_page ≡ true
  pub it_can_open : call.can_open ≡ true
  pub it_has_extent_page : call.has_extent_page ≡ true

-- For a whole file system of 10 megabytes or more in a file below a gigabyte, with a percentage
-- from 2 to 90, where the file can be created and opened and `pages_alloc` gives memory whose cells
-- are bytes: `compute_values` gives sizes, and `build_filesystem_in_file` with them is a fault when
-- fewer than 9408 bytes lie at the address that `pages_alloc( 1)` gives, as in a page of 8192 bytes;
-- otherwise it returns 0 without a fault, and `kfs_verify` of what it wrote, with or without
-- `extra_verification`, returns 0 when the calls of the system go well.
pub kfs_verify-build_filesystem_in_file :
    (options : Options) (room now : ℕ) (pages_alloc : ℕ → Page) (dev : Device) (call : Opening)
    (extra_verification : ℕ)
    → IsFull options.flags
    → 2 ≤ options.percentage
    → options.percentage ≤ 90
    → 10485760 ≤ options.size
    → options.size < one_gigabyte
    → ((count off : ℕ) → pages_alloc count off < 2 ^ 8)
    → IsOpened call
    → (bc : BlocksCalc) × (dev' : Device) × (compute_values options ≡ some bc)
      × (build_filesystem_in_file true true options.flags room now bc pages_alloc dev
          ≡ (if ltb room 9408 then none else some (pos 0, dev')))
      × (kfs_verify call dev' extra_verification ≡ pos 0)
kfs_verify-build_filesystem_in_file options room now pages_alloc dev call extra is_full lo hi large
      small is_byte opened =
    let n : ℕ = options.size / kfs_blocksize in
    let few : n < 2 ^ 32 = omega arith in
    let (bc, computed, laid) = compute_values-IsLaidOut options is_full lo hi large small in
    let placed = IsLaidOut-IsPlaced n bc few laid in
    let (bm, map, returns, is_map) =
      build_in_file-returns room now n bc pages_alloc dev few laid placed is_byte in
    let dev' = final_device now bc pages_alloc dev bm map in
    let built = final-IsBuilt now n bc pages_alloc dev laid placed bm map in
    let map_magic = final-map_magic now bc pages_alloc dev bm map laid.blocks_map is_map.magic in
    let extents = built-HasExtents now n bc (pages_alloc 1) dev' few laid placed built map_magic in
    let accepted = (kfs_verify_iff call dev' extra).1 (record {
      file_exists = opened.it_exists;
      file_is_supported = opened.it_is_supported;
      page_given = opened.it_has_page;
      file_opens = opened.it_can_open;
      has_magic = (on_device built).magic;
      extent_page_given = λ _. opened.it_has_extent_page;
      has_extents = λ _. extents;
    }) in
    (
      bc,
      dev',
      computed,
      file_built options.flags room now bc pages_alloc dev dev' returns,
      accepted,
    )
