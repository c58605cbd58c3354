-- ===== src/Mkfs/Occupied.antt =====
-- Which blocks the map on the device says to be in use, after a file system was built.
use kanekfs.Base.{
  ℕ, zero, suc, ◌+◌, ◌-◌, ◌*◌, ◌/◌, ◌%◌, ◌≤◌, ◌<◌, ◌≡◌, ◌≢◌, refl, ap, ◌∙◌, arith, List, [], ◌∷◌,
  get_or, get_elem?, Bool, true, false, ltb, leb, ◌==◌, ◌||◌, ◌&&◌, inl, inr, Bool-cases,
  if◌then◌else◌,
}
use kanekfs.Bits.{bit_at}
use kanekfs.Map.Bitmap.Sequence.{bit}
use kanekfs.Disk.{Page, Device, kfs_blocksize}
use kanekfs.Mkfs.{BlocksCalc}
use kanekfs.Mkfs.Superblock.{fs_map_block, sinode_map_block}
use kanekfs.Mkfs.Tables.{MapBuffer, or_zero, to_page}
use kanekfs.Mkfs.Written.{Outside, write_blocks-at}
use kanekfs.Mkfs.Marks.{with_marks}
use kanekfs.Mkfs.Result.{final_device}

-- The bit of block `b` in the map that starts at block `addr`, after a header of 32 bytes.
unfoldable pub block_bit : Device → ℕ → ℕ → ℕ
block_bit dev addr b =
    let place = 32 + b / 8 in
    bit_at (dev (addr + place / kfs_blocksize) (place % kfs_blocksize)) (b % 8)

-- The last block of an extent of two blocks or more, if its bit is the first of a byte.
abbrev pub forgets : ℕ → ℕ → ℕ → Bool
forgets addr blocks b = ltb 1 blocks && (b + 1 == addr + blocks && b % 8 == 0)

-- The blocks of the super block and the tables, and those of the maps.
abbrev pub in_use_by : BlocksCalc → ℕ → Bool
in_use_by bc b =
    leb b (bc.out_sinodes_table_in_blocks + bc.out_slots_table_in_blocks)
    || leb (sinode_map_block bc) b

abbrev pub forgotten : BlocksCalc → ℕ → Bool
forgotten bc b =
    forgets 1 bc.out_sinodes_table_in_blocks b
    || forgets (bc.out_sinodes_table_in_blocks + 1) bc.out_slots_table_in_blocks b
    || forgets (fs_map_block bc) bc.out_bitmap_size_in_blocks b

-- The map as it comes out: the blocks in use, less those that were forgotten.
unfoldable pub occupied : BlocksCalc → ℕ → ℕ
occupied bc b = if in_use_by bc b then (if forgotten bc b then 0 else 1) else 0

cell-get_or : (map : MapBuffer) (i : ℕ) → to_page map (32 + i) ≡ get_or map.bitmap i 0
unfolding to_page
cell-get_or map i =
    let in_bitmap : ltb (32 + i) 32 ≡ false = ground arith in
    let place : 32 + i - 32 ≡ i = omega arith in rw (in_bitmap, place) (value map.bitmap i)
  where
    value : (xs : List ℕ) (i : ℕ) → or_zero (get_elem? xs i) ≡ get_or xs i 0
    value [] i = refl
    value (x ∷ xs) zero = refl
    value (x ∷ xs) (suc i) = value xs i

pub final-block_bit :
    (now : ℕ) (bc : BlocksCalc) (pages_alloc : ℕ → Page) (dev : Device) (bm : List ℕ)
    (map : MapBuffer) (b : ℕ)
    → b < bc.out_bitmap_size_in_blocks * 65280
    → block_bit (final_device now bc pages_alloc dev bm map) (fs_map_block bc) b ≡ bit map.bitmap b
unfolding block_bit final_device bit
final-block_bit now bc pages_alloc dev bm map b inside =
    let place : ℕ = 32 + b / 8 in
    let whole : place / kfs_blocksize * kfs_blocksize + place % kfs_blocksize ≡ 32 + b / 8 =
      omega arith in
    ap (λ (t : ℕ). bit_at t (b % 8))
      (write_blocks-at bc.out_bitmap_size_in_blocks (fs_map_block bc) (to_page map) _
          (place / kfs_blocksize) (place % kfs_blocksize) (omega arith) (omega arith)
        ∙ ap (λ (t : ℕ). to_page map t) whole
        ∙ cell-get_or map (b / 8))

-- One extent.
module _ (addr blocks : ℕ) (marks : ℕ → ℕ) (b : ℕ) (one : 1 ≤ blocks) where
  pub with_marks-out : Outside addr (addr + blocks) b → with_marks addr blocks marks b ≡ marks b
  with_marks-out out = elim out [ inl l ↦ ground arith | inr r ↦ ground arith ]

  pub forgets-out : Outside addr (addr + blocks) b → forgets addr blocks b ≡ false
  forgets-out out = elim out [ inl l ↦ ground arith | inr r ↦ ground arith ]

  -- Where the first bit of a byte is alone at the end, and where it is not.
  alone_case :
      1 < blocks
      → (addr + blocks) % 8 ≡ 1
      → addr ≤ b
      → b < addr + blocks
      → (if leb addr b && ltb b (addr + blocks - 1) then 1 else marks b)
        ≡ (if forgets addr blocks b then marks b else 1)
  alone_case more alone lo hi =
      let several : ltb 1 blocks ≡ true = ground arith in
      let from : leb addr b ≡ true = ground arith in
      elim (Bool-cases (b + 1 == addr + blocks)) [
        | inl last ↦
            let first_bit : (b % 8 == 0) ≡ true = ground arith in
            let short : ltb b (addr + blocks - 1) ≡ false = ground arith in
            rw (several, last, first_bit, from, short) refl
        | inr other ↦
            let inside : ltb b (addr + blocks - 1) ≡ true = ground arith in
            rw (several, other, from, inside) refl
      ]

  shared_case :
      (addr + blocks) % 8 ≢ 1
      → addr ≤ b
      → b < addr + blocks
      → (if leb addr b && ltb b (addr + blocks) then 1 else marks b)
        ≡ (if forgets addr blocks b then marks b else 1)
  shared_case shared lo hi =
      let from : leb addr b ≡ true = ground arith in
      let inside : ltb b (addr + blocks) ≡ true = ground arith in
      elim (Bool-cases (b + 1 == addr + blocks)) [
        | inl last ↦
            let first_bit : (b % 8 == 0) ≡ false = ground arith in
            elim (Bool-cases (ltb 1 blocks)) [
              | inl several ↦ rw (several, last, first_bit, from, inside) refl
              | inr single ↦ rw (single, from, inside) refl
            ]
        | inr other ↦ elim (Bool-cases (ltb 1 blocks)) [
          | inl several ↦ rw (several, other, from, inside) refl
          | inr single ↦ rw (single, from, inside) refl
        ]
      ]

  pub with_marks-in :
      addr ≤ b
      → b < addr + blocks
      → with_marks addr blocks marks b ≡ (if forgets addr blocks b then marks b else 1)
  with_marks-in lo hi = elim (Bool-cases (blocks == 1)) [
    | inl single ↦ rw single (ground arith)
    | inr more ↦ rw more (elim (Bool-cases ((addr + blocks) % 8 == 1)) [
      | inl alone ↦ rw alone (alone_case (ground arith) (ground arith) lo hi)
      | inr shared ↦ rw shared (shared_case (ground arith) lo hi)
    ])
  ]
