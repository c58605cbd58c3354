-- ===== src/Mkfs/Used.antt =====
-- The map of the blocks as a whole.
use kanekfs.Base.{
  ℕ, ◌+◌, ◌-◌, ◌/◌, ◌≤◌, ◌<◌, ◌^◌, ◌≡◌, refl, ◌∙◌, arith, get_or, ◌*◌, ◌%◌, leb, ◌==◌, inl, inr,
  Bool-cases, none, some, ltb, if◌then◌else◌,
}
use kanekfs.Bits.{zero_bit}
use kanekfs.Map.Bitmap.Sequence.{bit}
use kanekfs.Disk.{Page, Device, kfs_blocksize}
use kanekfs.Disk.Layout.{one_gigabyte}
use kanekfs.Mkfs.{Options, BlocksCalc}
use kanekfs.Mkfs.Compute.{compute_values}
use kanekfs.Mkfs.Sizes.{IsFull, IsLaidOut, compute_values-IsLaidOut}
use kanekfs.Mkfs.Superblock.{fs_map_block, sinode_map_block}
use kanekfs.Mkfs.Tables.{page_bytes}
use kanekfs.Mkfs.Build.{build_in_file}
use kanekfs.Mkfs.Written.{page_bytes-get_or}
use kanekfs.Mkfs.Marks.{with_marks, first_marks}
use kanekfs.Mkfs.Result.{
  IsPlaced, IsLaidOut-IsPlaced, final_marks, final_device, build_in_file-returns,
}
use kanekfs.Mkfs.Occupied.{
  block_bit, forgets, occupied, with_marks-out, forgets-out, final-block_bit,
}
use kanekfs.Mkfs.Regions.{
  sinode_marks, in_extent, first_layer, final-slot, final-at_sinode_map, final-at_slot_map,
  final-at_fs_map, final-at_slots, final-sinode_map, sinode_map-out, slot_marks, sinode_map_marks,
}

module _ (n : ℕ) (bc : BlocksCalc) (laid : IsLaidOut n bc) (placed : IsPlaced bc) (first : ℕ → ℕ)
    (zeros : (i : ℕ) → first i ≡ 0) (b : ℕ) where
  -- Before the maps, only the tables set bits.
  final-table :
      b < sinode_map_block bc
      → b ≤ bc.out_sinodes_table_in_blocks
      → final_marks bc (with_marks 0 1 first) b ≡ sinode_marks bc first b
  unfolding slot_marks sinode_map_marks
  final-table before hi =
      let place = placed.sinode_map_place in
      let one = laid.sinodes_map in
      final-slot n bc laid placed first zeros b (omega arith)
      ∙ with_marks-out (bc.out_sinodes_table_in_blocks + 1) bc.out_slots_table_in_blocks
          (sinode_map_marks bc first) b (omega (arith, laid.slots_blocks)) (inl (omega arith))
      ∙ with_marks-out (sinode_map_block bc) bc.out_sinodes_bitmap_blocks_num
          (sinode_marks bc first) b (omega arith) (inl before)

  final-at_sinodes :
      1 ≤ b
      → b ≤ bc.out_sinodes_table_in_blocks
      → final_marks bc (with_marks 0 1 first) b
        ≡ (if forgets 1 bc.out_sinodes_table_in_blocks b then 0 else 1)
  unfolding sinode_marks
  final-at_sinodes lo hi =
      let before = placed.tables_before in
      final-table (omega arith) hi
      ∙ in_extent n bc laid placed first zeros b 1 bc.out_sinodes_table_in_blocks
          (with_marks 0 1 first) (omega (arith, laid.sinodes_blocks)) lo (omega arith)
          (first_layer n bc laid placed first zeros b lo)

  final-at_superblock : b ≡ 0 → final_marks bc (with_marks 0 1 first) b ≡ 1
  unfolding sinode_marks
  final-at_superblock e =
      let before = placed.tables_before in
      final-table (omega arith) (omega arith)
      ∙ with_marks-out 1 bc.out_sinodes_table_in_blocks (with_marks 0 1 first) b
          (omega (arith, laid.sinodes_blocks)) (inl (omega arith))
      ∙ rw e refl

  final-gap :
      bc.out_sinodes_table_in_blocks + bc.out_slots_table_in_blocks < b
      → b < sinode_map_block bc
      → final_marks bc (with_marks 0 1 first) b ≡ 0
  final-gap lo hi =
      let place = placed.sinode_map_place in
      final-sinode_map n bc laid placed first zeros b lo (omega arith)
      ∙ sinode_map-out n bc laid placed first zeros b (omega arith) (inl hi)

  -- What each region says about `occupied`.
  final-occupied : b < n → final_marks bc (with_marks 0 1 first) b ≡ occupied bc b
  unfolding occupied
  final-occupied inside =
      let s : ℕ = bc.out_sinodes_table_in_blocks in
      let t : ℕ = bc.out_slots_table_in_blocks in
      let slot_place = placed.slot_map_place in
      let place = placed.sinode_map_place in
      let before = placed.tables_before in
      let s_some = laid.sinodes_blocks in
      let t_some = laid.slots_blocks in
      let out1 = forgets-out 1 s (λ _. 0) b (omega arith) in
      let out2 = forgets-out (s + 1) t (λ _. 0) b (omega arith) in
      let out3 =
        forgets-out (fs_map_block bc) bc.out_bitmap_size_in_blocks (λ _. 0) b laid.blocks_map in
      elim (Bool-cases (leb b (s + t))) [
        | inl low ↦
            let o3 = out3 (inl (ground arith)) in
            elim (Bool-cases (leb b s)) [
              | inl lower ↦
                  let o2 = out2 (inl (ground arith)) in
                  elim (Bool-cases (b == 0)) [
                    | inl zero_b ↦
                        let o1 = out1 (inl (ground arith)) in
                        final-at_superblock (ground arith) ∙ rw (low, o1, o2, o3) refl
                    | inr other ↦
                        final-at_sinodes (ground arith) (ground arith)
                        ∙ (elim (Bool-cases (forgets 1 s b)) [
                          | inl f ↦ rw (low, o2, o3, f) refl
                          | inr f ↦ rw (low, o2, o3, f) refl
                        ])
                  ]
              | inr upper ↦
                  let o1 = out1 (inr (ground arith)) in
                  final-at_slots n bc laid placed first zeros b (ground arith) (ground arith)
                  ∙ (elim (Bool-cases (forgets (s + 1) t b)) [
                    | inl f ↦ rw (low, o1, o3, f) refl
                    | inr f ↦ rw (low, o1, o3, f) refl
                  ])
            ]
        | inr high ↦
            let o1 = out1 (inr (ground arith)) in
            let o2 = out2 (inr (ground arith)) in
            elim (Bool-cases (leb (sinode_map_block bc) b)) [
              | inl maps ↦ elim (Bool-cases (leb (fs_map_block bc) b)) [
                | inl last ↦
                    final-at_fs_map n bc laid placed first zeros b (ground arith) inside
                    ∙ (elim (Bool-cases
                        (forgets (fs_map_block bc) bc.out_bitmap_size_in_blocks b)) [
                          | inl f ↦ rw (high, maps, o1, o2, f) refl
                          | inr f ↦ rw (high, maps, o1, o2, f) refl
                        ])
                | inr one_block ↦
                    let o3 = out3 (inl (ground arith)) in
                    elim (Bool-cases (b == sinode_map_block bc)) [
                      | inl first_map ↦
                          final-at_sinode_map n bc laid placed first zeros b (ground arith)
                          ∙ rw (high, maps, o1, o2, o3) refl
                      | inr second_map ↦
                          final-at_slot_map n bc laid placed first zeros b (ground arith)
                          ∙ rw (high, maps, o1, o2, o3) refl
                    ]
              ]
              | inr gap ↦ final-gap (ground arith) (ground arith) ∙ rw (high, gap) refl
            ]
      ]

no_marks :
    (bc : BlocksCalc) (pages_alloc : ℕ → Page)
    → ((count off : ℕ) → pages_alloc count off ≡ 0)
    → (i : ℕ) → first_marks bc pages_alloc i ≡ 0
unfolding bit
no_marks bc pages_alloc zeros i =
    let size : ℕ = bc.out_bitmap_size_in_blocks in
    let no_byte : get_or (page_bytes (size * kfs_blocksize - 32) (pages_alloc size) 32) (i / 8) 0
        ≡ 0 =
      ground (
        arith,
        page_bytes-get_or (size * kfs_blocksize - 32) (pages_alloc size) 32 (i / 8),
        zeros size (32 + i / 8),
      ) in
    rw no_byte (zero_bit (i % 8))

-- For a whole file system of 10 megabytes or more in a file below a gigabyte, with a percentage
-- from 2 to 90, where `pages_alloc` gives zeroed memory: `build_in_file` with the sizes that
-- `compute_values` gives is a fault when fewer than 9408 bytes lie at the address that
-- `pages_alloc( 1)` gives, as in a page of 8192 bytes; otherwise it leaves a map of the blocks on
-- the device in which the bit of every block of the file is 1 if the block belongs to the super
-- block, a table, or a map, and 0 otherwise; except that the last block of the table of super
-- inodes, of the table of slots, or of the map of the blocks when it takes two or more, has a bit of
-- 0 if its number is divisible by 8.
pub build_in_file-occupied :
    (options : Options) (room now : ℕ) (pages_alloc : ℕ → Page) (dev : Device)
    → IsFull options.flags
    → 2 ≤ options.percentage
    → options.percentage ≤ 90
    → 10485760 ≤ options.size
    → options.size < one_gigabyte
    → ((count off : ℕ) → pages_alloc count off ≡ 0)
    → (bc : BlocksCalc) × (dev' : Device) × (compute_values options ≡ some bc)
      × (build_in_file room now bc pages_alloc dev ≡ (if ltb room 9408 then none else some dev'))
      × ((b : ℕ)
          → b < options.size / kfs_blocksize
          → block_bit dev' (fs_map_block bc) b ≡ occupied bc b)
build_in_file-occupied options room now pages_alloc dev is_full lo hi large small zeros =
    let n : ℕ = options.size / kfs_blocksize in
    let few : n < 2 ^ 32 = omega arith in
    let (bc, computed, laid) = compute_values-IsLaidOut options is_full lo hi large small in
    let placed = IsLaidOut-IsPlaced n bc few laid in
    let (bm, map, returns, is_map) =
      build_in_file-returns room now n bc pages_alloc dev few laid placed
        (λ count off. omega (arith, zeros count off)) in
    (
      bc,
      final_device now bc pages_alloc dev bm map,
      computed,
      returns,
      λ b inside.
          final-block_bit now bc pages_alloc dev bm map b (omega (arith, laid.blocks_map_all))
          ∙ is_map.map_bits b
          ∙ final-occupied n bc laid placed (first_marks bc pages_alloc)
              (no_marks bc pages_alloc zeros) b inside,
    )
