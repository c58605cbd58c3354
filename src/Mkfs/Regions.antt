-- ===== src/Mkfs/Regions.antt =====
-- The bits that `build_in_file` sets, region by region of the file.
use kanekfs.Base.{ℕ, ◌+◌, ◌≤◌, ◌<◌, ◌≡◌, refl, ap, ◌∙◌, arith, false, inl, inr, if◌then◌else◌}
use kanekfs.Mkfs.{BlocksCalc}
use kanekfs.Mkfs.Sizes.{IsLaidOut}
use kanekfs.Mkfs.Superblock.{fs_map_block, slot_map_block, sinode_map_block}
use kanekfs.Mkfs.Written.{Outside}
use kanekfs.Mkfs.Marks.{with_marks}
use kanekfs.Mkfs.Result.{IsPlaced, final_marks}
use kanekfs.Mkfs.Occupied.{forgets, with_marks-out, with_marks-in}

-- The map after each of the calls that set bits, but the last.
unfoldable pub sinode_marks : BlocksCalc → (ℕ → ℕ) → ℕ → ℕ
sinode_marks bc first = with_marks 1 bc.out_sinodes_table_in_blocks (with_marks 0 1 first)

unfoldable pub sinode_map_marks : BlocksCalc → (ℕ → ℕ) → ℕ → ℕ
sinode_map_marks bc first =
    with_marks (sinode_map_block bc) bc.out_sinodes_bitmap_blocks_num (sinode_marks bc first)

unfoldable pub slot_marks : BlocksCalc → (ℕ → ℕ) → ℕ → ℕ
slot_marks bc first =
    with_marks (bc.out_sinodes_table_in_blocks + 1) bc.out_slots_table_in_blocks
      (sinode_map_marks bc first)

unfoldable pub slot_map_marks : BlocksCalc → (ℕ → ℕ) → ℕ → ℕ
slot_map_marks bc first =
    with_marks (slot_map_block bc) bc.out_slots_bitmap_blocks_num (slot_marks bc first)

module _ (n : ℕ) (bc : BlocksCalc) (laid : IsLaidOut n bc) (placed : IsPlaced bc) (first : ℕ → ℕ)
    (zeros : (i : ℕ) → first i ≡ 0) (b : ℕ) where
  pub final-slot_map :
      b < fs_map_block bc → final_marks bc (with_marks 0 1 first) b ≡ (slot_map_marks bc first) b
  unfolding final_marks slot_map_marks slot_marks sinode_map_marks sinode_marks
  final-slot_map h = rw placed.slots_place (
      with_marks-out (fs_map_block bc) bc.out_bitmap_size_in_blocks (slot_map_marks bc first) b
        laid.blocks_map (inl h))

  pub final-slot :
      b < slot_map_block bc → final_marks bc (with_marks 0 1 first) b ≡ (slot_marks bc first) b
  unfolding slot_map_marks
  final-slot h =
      let place = placed.slot_map_place in
      final-slot_map (omega arith)
      ∙ with_marks-out (slot_map_block bc) bc.out_slots_bitmap_blocks_num (slot_marks bc first) b
          (omega (arith, laid.slots_map)) (inl h)

  pub final-sinode_map :
      bc.out_sinodes_table_in_blocks + bc.out_slots_table_in_blocks < b
      → b < slot_map_block bc
      → final_marks bc (with_marks 0 1 first) b ≡ (sinode_map_marks bc first) b
  unfolding slot_marks
  final-sinode_map lo hi =
      final-slot hi
      ∙ with_marks-out (bc.out_sinodes_table_in_blocks + 1) bc.out_slots_table_in_blocks
          (sinode_map_marks bc first) b (omega (arith, laid.slots_blocks)) (inr (omega arith))

  -- Outside the tables and maps.
  pub first_layer : 1 ≤ b → with_marks 0 1 first b ≡ 0
  first_layer h = with_marks-out 0 1 first b (omega arith) (inr (omega arith)) ∙ zeros b

  sinode_marks-out : bc.out_sinodes_table_in_blocks < b → (sinode_marks bc first) b ≡ 0
  unfolding sinode_marks
  sinode_marks-out h =
      with_marks-out 1 bc.out_sinodes_table_in_blocks (with_marks 0 1 first) b
        (omega (arith, laid.sinodes_blocks)) (inr (omega arith))
      ∙ first_layer (omega arith)

  -- The value in an extent that no other writes to.
  pub in_extent :
      (addr blocks : ℕ) (marks : ℕ → ℕ)
      → 1 ≤ blocks
      → addr ≤ b
      → b < addr + blocks
      → marks b ≡ 0
      → with_marks addr blocks marks b ≡ (if forgets addr blocks b then 0 else 1)
  in_extent addr blocks marks one lo hi zero_there =
      with_marks-in addr blocks marks b one lo hi
      ∙ ap (λ (v : ℕ). if forgets addr blocks b then v else 1) zero_there

  pub single_block : (addr : ℕ) {blocks : ℕ} → blocks ≡ 1 → forgets addr blocks b ≡ false
  single_block addr e = rw e refl

  pub final-at_sinode_map : b ≡ sinode_map_block bc → final_marks bc (with_marks 0 1 first) b ≡ 1
  unfolding sinode_map_marks
  final-at_sinode_map e =
      let place = placed.sinode_map_place in
      let before = placed.tables_before in
      let one = laid.sinodes_map in
      final-sinode_map (omega arith) (omega arith)
      ∙ in_extent (sinode_map_block bc) bc.out_sinodes_bitmap_blocks_num (sinode_marks bc first)
          (omega arith) (omega arith) (omega arith) (sinode_marks-out (omega arith))
      ∙ rw (single_block (sinode_map_block bc) one) refl

  pub sinode_map-out :
      bc.out_sinodes_table_in_blocks < b
      → Outside (sinode_map_block bc) (sinode_map_block bc + 1) b
      → (sinode_map_marks bc first) b ≡ 0
  unfolding sinode_map_marks
  sinode_map-out lo out =
      let one = laid.sinodes_map in
      with_marks-out (sinode_map_block bc) bc.out_sinodes_bitmap_blocks_num (sinode_marks bc first)
        b (omega arith) (elim out [ inl l ↦ inl l | inr r ↦ inr (omega arith) ])
      ∙ sinode_marks-out lo

  pub slot-out :
      bc.out_sinodes_table_in_blocks + bc.out_slots_table_in_blocks < b
      → sinode_map_block bc < b
      → (slot_marks bc first) b ≡ 0
  unfolding slot_marks
  slot-out lo after =
      with_marks-out (bc.out_sinodes_table_in_blocks + 1) bc.out_slots_table_in_blocks
        (sinode_map_marks bc first) b (omega (arith, laid.slots_blocks)) (inr (omega arith))
      ∙ sinode_map-out (omega arith) (inr (omega arith))

  pub final-at_slot_map : b ≡ slot_map_block bc → final_marks bc (with_marks 0 1 first) b ≡ 1
  unfolding slot_map_marks
  final-at_slot_map e =
      let place = placed.sinode_map_place in
      let slot_place = placed.slot_map_place in
      let before = placed.tables_before in
      let one = laid.slots_map in
      final-slot_map (omega arith)
      ∙ in_extent (slot_map_block bc) bc.out_slots_bitmap_blocks_num (slot_marks bc first)
          (omega arith) (omega arith) (omega arith) (slot-out (omega arith) (omega arith))
      ∙ rw (single_block (slot_map_block bc) one) refl

  slot_map-out : slot_map_block bc < b → (slot_map_marks bc first) b ≡ 0
  unfolding slot_map_marks
  slot_map-out h =
      let place = placed.sinode_map_place in
      let before = placed.tables_before in
      let one = laid.slots_map in
      with_marks-out (slot_map_block bc) bc.out_slots_bitmap_blocks_num (slot_marks bc first) b
        (omega arith) (inr (omega arith))
      ∙ slot-out (omega arith) (omega arith)

  pub final-at_fs_map :
      fs_map_block bc ≤ b
      → b < n
      → final_marks bc (with_marks 0 1 first) b
        ≡ (if forgets (fs_map_block bc) bc.out_bitmap_size_in_blocks b then 0 else 1)
  unfolding final_marks slot_map_marks slot_marks sinode_map_marks sinode_marks
  final-at_fs_map lo hi =
      let slot_place = placed.slot_map_place in
      rw placed.slots_place (
        in_extent (fs_map_block bc) bc.out_bitmap_size_in_blocks (slot_map_marks bc first)
          laid.blocks_map lo (omega (arith, placed.fs_map_place, laid.size_blocks))
          (slot_map-out (omega arith)))

  pub final-at_slots :
      bc.out_sinodes_table_in_blocks < b
      → b ≤ bc.out_sinodes_table_in_blocks + bc.out_slots_table_in_blocks
      → final_marks bc (with_marks 0 1 first) b ≡ (
          if forgets (bc.out_sinodes_table_in_blocks + 1) bc.out_slots_table_in_blocks b
          then 0
          else 1)
  unfolding slot_marks
  final-at_slots lo hi =
      let place = placed.sinode_map_place in
      let before = placed.tables_before in
      final-slot (omega arith)
      ∙ in_extent (bc.out_sinodes_table_in_blocks + 1) bc.out_slots_table_in_blocks
          (sinode_map_marks bc first) (omega (arith, laid.slots_blocks)) (omega arith) (omega arith)
          (sinode_map-out lo (inl (omega arith)))
