-- ===== src/Mkfs/Final.antt =====
-- What the device of Mkfs/Result holds, block by block.
use kanekfs.Base.{ℕ, ◌+◌, ◌-◌, ◌*◌, ◌≤◌, ◌<◌, ◌≡◌, inl, inr, refl, ◌∙◌, arith, List, u64}
use kanekfs.Disk.{Page, Device, kfs_blocksize}
use kanekfs.Disk.Ids.{fill_ids-before}
use kanekfs.Disk.Layout.{
  slots_bitmap_magic, slots_table_magic, sinode_bitmap_magic, sinode_table_magic,
}
use kanekfs.Mkfs.{BlocksCalc}
use kanekfs.Mkfs.Sizes.{IsLaidOut}
use kanekfs.Mkfs.Superblock.{
  fs_map_block, slot_map_block, sinode_map_block, superblock, build_superblock,
}
use kanekfs.Mkfs.Tables.{MapBuffer, to_page, to_buffer}
use kanekfs.Mkfs.Build.{first_sinodes, write_sinodes, with_slots, write_slots, new_map}
use kanekfs.Mkfs.Written.{
  Outside, block_write-other, block_write-same, write_table-other, write_table-last,
  write_blocks-other, write_blocks-first,
}
use kanekfs.Mkfs.Result.{IsPlaced, final_device, sinode_map, slot_map}

module _ (now : ℕ) (bc : BlocksCalc) (pages_alloc : ℕ → Page) where
  write_sinodes-other :
      (dev : Device) (b k : ℕ)
      → 1 ≤ bc.out_sinodes_table_in_blocks
      → Outside 1 (1 + bc.out_sinodes_table_in_blocks) b
      → write_sinodes now bc pages_alloc dev b k ≡ dev b k
  unfolding write_sinodes
  write_sinodes-other dev b k one out =
      write_table-other _ _ _ 2 _ _ _ b k
        (elim out [ inl l ↦ inl (omega arith) | inr r ↦ inr (omega arith) ])
      ∙ block_write-other dev _ 1 b k (elim out [ inl l ↦ omega arith | inr r ↦ omega arith ])

  write_sinodes-first :
      (dev : Device) (k : ℕ)
      → k < kfs_blocksize
      → write_sinodes now bc pages_alloc dev 1 k ≡ first_sinodes now bc (pages_alloc 1) k
  unfolding write_sinodes
  write_sinodes-first dev k h =
      write_table-other _ _ _ 2 _ _ _ 1 k (inl (omega arith)) ∙ block_write-same dev _ 1 k h

  write_sinodes-last :
      (dev : Device)
      → bc.out_sinodes_per_block ≡ 85
      → 2 ≤ bc.out_sinodes_table_in_blocks
      → write_sinodes now bc pages_alloc dev bc.out_sinodes_table_in_blocks (84 * 96)
        ≡ u64 (bc.out_sinodes_table_in_blocks * 85 - 1)
  unfolding write_sinodes
  write_sinodes-last dev e two =
      write_table-last _ bc.out_sinodes_per_block _ 2 _ _ _ _ (84 * 96)
        (bc.out_sinodes_table_in_blocks * 85 - 1) (omega arith) (omega arith) (omega arith)
        (omega arith) (omega arith) (rw e refl) (rw e (omega arith))

  -- The same for the slots, which come after the super inodes.
  write_slots-other :
      (dev : Device) (b k : ℕ)
      → 1 ≤ bc.out_slots_table_in_blocks
      → IsPlaced bc
      → Outside
          (bc.out_sinodes_table_in_blocks + 1)
          (bc.out_sinodes_table_in_blocks + 1 + bc.out_slots_table_in_blocks)
          b
      → write_slots bc (with_slots bc (pages_alloc 1)) dev b k ≡ dev b k
  unfolding write_slots
  write_slots-other dev b k one placed out = rw placed.slots_place (
      write_table-other _ _ _ _ _ _ _ b k
        (elim out [ inl l ↦ inl (omega arith) | inr r ↦ inr (omega arith) ])
      ∙ block_write-other dev _ _ b k (elim out [ inl l ↦ omega arith | inr r ↦ omega arith ]))

  write_slots-first :
      (dev : Device) (k : ℕ)
      → k < kfs_blocksize
      → IsPlaced bc
      → write_slots bc (with_slots bc (pages_alloc 1)) dev (bc.out_sinodes_table_in_blocks + 1) k
        ≡ with_slots bc (pages_alloc 1) k
  unfolding write_slots
  write_slots-first dev k h placed = rw placed.slots_place (
      write_table-other _ _ _ _ _ _ _ (bc.out_sinodes_table_in_blocks + 1) k (inl (omega arith))
      ∙ block_write-same dev _ (bc.out_sinodes_table_in_blocks + 1) k h)

  write_slots-last :
      (dev : Device)
      → bc.out_slots_per_block ≡ 204
      → 2 ≤ bc.out_slots_table_in_blocks
      → IsPlaced bc
      → write_slots bc
          (with_slots bc (pages_alloc 1))
          dev
          (bc.out_sinodes_table_in_blocks + bc.out_slots_table_in_blocks)
          (203 * 40)
        ≡ u64 (bc.out_slots_table_in_blocks * 204 - 1)
  unfolding write_slots
  write_slots-last dev e two placed =
      write_table-last _ bc.out_slots_per_block _ _ _ _ _ _ (203 * 40)
        (bc.out_slots_table_in_blocks * 204 - 1) (omega arith) (omega arith) (omega arith)
        (omega arith) (omega (arith, placed.slots_place)) (rw e refl) (rw e (omega arith))

-- What is read back of a file system that was built.
pub record IsBuilt (now : ℕ) (bc : BlocksCalc) (page : Page) (dev : Device) : Type 0 where
  pub at_superblock : (k : ℕ) → k < kfs_blocksize → dev 0 k ≡ superblock now bc page k
  pub at_sinodes : dev 1 0 ≡ sinode_table_magic
  pub last_sinode :
      dev bc.out_sinodes_table_in_blocks (84 * 96) ≡ u64 (bc.out_sinodes_table_in_blocks * 85 - 1)
  pub at_slots : dev (bc.out_sinodes_table_in_blocks + 1) 0 ≡ slots_table_magic
  pub last_slot :
      dev (bc.out_sinodes_table_in_blocks + bc.out_slots_table_in_blocks) (203 * 40)
      ≡ u64 (bc.out_slots_table_in_blocks * 204 - 1)
  pub at_sinode_map : dev (sinode_map_block bc) 0 ≡ sinode_bitmap_magic
  pub at_slot_map : dev (slot_map_block bc) 0 ≡ slots_bitmap_magic

module _ (now n : ℕ) (bc : BlocksCalc) (pages_alloc : ℕ → Page) (dev : Device)
    (laid : IsLaidOut n bc) (placed : IsPlaced bc) (bm : List ℕ) (map : MapBuffer) where
  -- The tables lie before the maps.
  final-below :
      (b k : ℕ)
      → b < sinode_map_block bc
      → (rest : Device) × (final_device now bc pages_alloc dev bm map b k
          ≡ write_slots bc (with_slots bc (pages_alloc 1)) rest b k)
        × ((d : Device) × (rest b k
              ≡ write_sinodes now bc pages_alloc (build_superblock now bc (pages_alloc 1) d) b k))
  unfolding final_device
  final-below b k h =
      let slot_place = placed.slot_map_place in
      let sinode_place = placed.sinode_map_place in
      (
        _,
        write_blocks-other bc.out_bitmap_size_in_blocks (fs_map_block bc) _ _ b k
              (inl (omega arith))
            ∙ write_blocks-other bc.out_slots_bitmap_blocks_num (slot_map_block bc) _ _ b k
                (inl (omega arith)),
        (
          _,
          write_blocks-other bc.out_sinodes_bitmap_blocks_num (sinode_map_block bc) _ _ b k (inl h),
        ),
      )

  final-superblock :
      (k : ℕ)
      → k < kfs_blocksize
      → final_device now bc pages_alloc dev bm map 0 k ≡ superblock now bc (pages_alloc 1) k
  unfolding build_superblock
  final-superblock k h =
      let some_blocks = laid.sinodes_blocks in
      let more_blocks = laid.slots_blocks in
      let (rest, e, (d, e')) = final-below 0 k (omega (arith, placed.tables_before)) in
      e
      ∙ write_slots-other now bc pages_alloc rest 0 k (omega arith) placed (inl (omega arith))
      ∙ e'
      ∙ write_sinodes-other now bc pages_alloc _ 0 k (omega arith) (inl (omega arith))
      ∙ block_write-same d _ 0 k h

  -- The tables.
  final-sinode :
      (b k : ℕ)
      → 1 ≤ b
      → b ≤ bc.out_sinodes_table_in_blocks
      → (rest : Device) × (final_device now bc pages_alloc dev bm map b k
          ≡ write_sinodes now bc pages_alloc rest b k)
  final-sinode b k lo hi =
      let more_blocks = laid.slots_blocks in
      let (rest, e, (d, e')) = final-below b k (omega (arith, placed.tables_before)) in
      (
        _,
        e
            ∙ write_slots-other now bc pages_alloc rest b k (omega arith) placed (inl (omega arith))
            ∙ e',
      )

  pub final-IsBuilt : IsBuilt now bc (pages_alloc 1) (final_device now bc pages_alloc dev bm map)
  unfolding final_device first_sinodes with_slots sinode_map slot_map new_map to_buffer to_page
  final-IsBuilt =
      let some_blocks = laid.sinodes_blocks in
      let more_blocks = laid.slots_blocks in
      let before = placed.tables_before in
      let slot_place = placed.slot_map_place in
      let sinode_place = placed.sinode_map_place in
      let one = laid.sinodes_map in
      let other = laid.slots_map in
      let s : ℕ = bc.out_sinodes_table_in_blocks in
      let t : ℕ = bc.out_slots_table_in_blocks in
      let (r1, e1) = final-sinode 1 0 (omega arith) (omega arith) in
      let (r2, e2) = final-sinode s (84 * 96) (omega arith) (omega arith) in
      let (r3, e3, _) = final-below (s + 1) 0 (omega arith) in
      let (r4, e4, _) = final-below (s + t) (203 * 40) (omega arith) in
      record {
        at_superblock = final-superblock;
        at_sinodes =
            e1
            ∙ write_sinodes-first now bc pages_alloc r1 0 (omega arith)
            ∙ fill_ids-before _ _ _ _ _ 0 (omega arith);
        last_sinode =
            e2 ∙ write_sinodes-last now bc pages_alloc r2 laid.sinodes_in_block some_blocks;
        at_slots =
            e3
            ∙ write_slots-first now bc pages_alloc r3 0 (omega arith) placed
            ∙ fill_ids-before _ _ _ _ _ 0 (omega arith);
        last_slot =
            e4 ∙ write_slots-last now bc pages_alloc r4 laid.slots_in_block more_blocks placed;
        at_sinode_map =
            write_blocks-other _ (fs_map_block bc) _ _ (sinode_map_block bc) 0 (inl (omega arith))
            ∙ write_blocks-other _ (slot_map_block bc) _ _ (sinode_map_block bc) 0
                (inl (omega arith))
            ∙ write_slots-other now bc pages_alloc _ (sinode_map_block bc) 0 (omega arith) placed
                (inr (omega arith))
            ∙ write_blocks-first _ (sinode_map_block bc) _ _ 0 (omega arith) (omega arith);
        at_slot_map =
            write_blocks-other _ (fs_map_block bc) _ _ (slot_map_block bc) 0 (inl (omega arith))
            ∙ write_blocks-first _ (slot_map_block bc) _ _ 0 (omega arith) (omega arith);
      }
