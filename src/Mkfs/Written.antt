-- ===== src/Mkfs/Written.antt =====
-- What the loops of Mkfs/Tables leave on the device.
use kanekfs.Base.{
  ℕ, zero, suc, ◌+◌, ◌-◌, ◌*◌, ◌≤◌, ◌<◌, ◌≡◌, ◌≢◌, ◌⊎◌, inl, inr, refl, ap, ◌∙◌, arith, ltb, u64,
  get_or, length, if◌then◌else◌,
}
use kanekfs.Disk.{Page, Device, clear, kfs_blocksize, from_byte, block_write}
use kanekfs.Disk.Ids.{fill_ids, fill_ids-entry}
use kanekfs.Mkfs.Tables.{write_table, write_blocks, page_bytes}

-- Outside the blocks from `lo` to `hi`.
abbrev pub Outside : ℕ → ℕ → ℕ → Type 0
Outside lo hi b = (b < lo) ⊎ (hi ≤ b)

pub block_write-other :
    (dev : Device) (page : Page) (addr b k : ℕ) → b ≢ addr → block_write dev page addr b k ≡ dev b k
unfolding block_write
block_write-other dev page addr b k h = ground arith

pub block_write-same :
    (dev : Device) (page : Page) (addr k : ℕ)
    → k < kfs_blocksize
    → block_write dev page addr addr k ≡ page k
unfolding block_write
block_write-same dev page addr k h = ground arith

pub write_table-other :
    (rounds per_block size block_num id : ℕ) (page : Page) (dev : Device) (b k : ℕ)
    → Outside block_num (block_num + rounds) b
    → write_table rounds per_block size block_num id page dev b k ≡ dev b k
unfolding write_table
write_table-other zero per_block size block_num id page dev b k h = refl
write_table-other (suc rounds) per_block size block_num id page dev b k h =
    write_table-other rounds per_block size (block_num + 1) (id + per_block) _ _ b k
      (elim h [ inl l ↦ inl (omega arith) | inr r ↦ inr (omega arith) ])
    ∙ block_write-other dev _ block_num b k (elim h [ inl l ↦ omega arith | inr r ↦ omega arith ])

-- Entry `j` of block `r`.
pub write_table-entry :
    (rounds per_block size block_num id : ℕ) (page : Page) (dev : Device) (r j : ℕ)
    → 0 < size
    → r < rounds
    → j < per_block
    → j * size < kfs_blocksize
    → write_table rounds per_block size block_num id page dev (block_num + r) (j * size)
      ≡ u64 (id + r * per_block + j)
unfolding write_table
write_table-entry zero per_block size block_num id page dev r j s h l w = absurd (omega arith)
write_table-entry (suc rounds) per_block size block_num id page dev zero j s h l w =
    let z : block_num + 0 ≡ block_num = omega arith in
    let e : id + 0 * per_block + j ≡ id + j = omega arith in
    rw (z, e)
      (write_table-other rounds per_block size (block_num + 1) (id + per_block) _ _ block_num
          (j * size) (inl (omega arith))
        ∙ block_write-same dev _ block_num (j * size) w
        ∙ ap (λ (t : ℕ). fill_ids per_block 0 size id (clear page kfs_blocksize) t) (omega arith)
        ∙ fill_ids-entry per_block 0 size id _ j s l)
write_table-entry (suc rounds) per_block size block_num id page dev (suc r) j s h l w =
    let z : block_num + suc r ≡ block_num + 1 + r = omega arith in
    let e : id + suc r * per_block + j ≡ id + per_block + r * per_block + j = grind arith in
    rw (z, e)
      (write_table-entry rounds per_block size (block_num + 1) (id + per_block) _ _ r j s
        (omega arith) l w)

-- The last entry of the last block.
pub write_table-last :
    (rounds per_block size block_num id : ℕ) (page : Page) (dev : Device) (b cell last : ℕ)
    → 0 < size
    → 0 < per_block
    → 0 < rounds
    → cell < kfs_blocksize
    → b + 1 ≡ block_num + rounds
    → cell ≡ (per_block - 1) * size
    → last + 1 ≡ id + rounds * per_block
    → write_table rounds per_block size block_num id page dev b cell ≡ u64 last
write_table-last rounds zero size block_num id page dev b cell last s p q w e f g =
    absurd (omega arith)
write_table-last zero (suc j) size block_num id page dev b cell last s p q w e f g =
    absurd (omega arith)
write_table-last (suc r) (suc j) size block_num id page dev b cell last s p q w e f g =
    let place : b ≡ block_num + r = omega arith in
    let j_same : suc j - 1 ≡ j = omega arith in
    let at : cell ≡ j * size = f ∙ ap (λ (t : ℕ). t * size) j_same in
    let spread : suc r * suc j ≡ r * suc j + suc j = grind arith in
    let target : last ≡ id + r * suc j + j = omega arith in
    let inside : j * size < kfs_blocksize = omega arith in
    rw (place, at, target)
      (write_table-entry (suc r) (suc j) size block_num id page dev r j s (omega arith)
        (omega arith) inside)

pub write_blocks-other :
    (rounds addr : ℕ) (page : Page) (dev : Device) (b k : ℕ)
    → Outside addr (addr + rounds) b
    → write_blocks rounds addr page dev b k ≡ dev b k
unfolding write_blocks
write_blocks-other zero addr page dev b k h = refl
write_blocks-other (suc rounds) addr page dev b k h =
    write_blocks-other rounds (addr + 1) _ _ b k
      (elim h [ inl l ↦ inl (omega arith) | inr r ↦ inr (omega arith) ])
    ∙ block_write-other dev page addr b k (elim h [ inl l ↦ omega arith | inr r ↦ omega arith ])

pub write_blocks-at :
    (rounds addr : ℕ) (page : Page) (dev : Device) (r k : ℕ)
    → r < rounds
    → k < kfs_blocksize
    → write_blocks rounds addr page dev (addr + r) k ≡ page (r * kfs_blocksize + k)
unfolding write_blocks
write_blocks-at zero addr page dev r k h l = absurd (omega arith)
write_blocks-at (suc rounds) addr page dev zero k h l =
    let z : addr + 0 ≡ addr = omega arith in
    let e : 0 * kfs_blocksize + k ≡ k = omega arith in
    rw (z, e)
      (write_blocks-other rounds (addr + 1) _ _ addr k (inl (omega arith))
        ∙ block_write-same dev page addr k l)
write_blocks-at (suc rounds) addr page dev (suc r) k h l =
    let z : addr + suc r ≡ addr + 1 + r = omega arith in
    let e : kfs_blocksize + (r * kfs_blocksize + k) ≡ suc r * kfs_blocksize + k = omega arith in
    rw z (
      write_blocks-at rounds (addr + 1) (from_byte page kfs_blocksize) _ r k (omega arith) l
      ∙ ap (λ (t : ℕ). page t) e)

pub write_blocks-first :
    (rounds addr : ℕ) (page : Page) (dev : Device) (k : ℕ)
    → 0 < rounds
    → k < kfs_blocksize
    → write_blocks rounds addr page dev addr k ≡ page k
write_blocks-first rounds addr page dev k h l =
    let z : addr ≡ addr + 0 = omega arith in
    let e : 0 * kfs_blocksize + k ≡ k = omega arith in
    ap (λ (t : ℕ). write_blocks rounds addr page dev t k) z
    ∙ write_blocks-at rounds addr page dev 0 k h l
    ∙ ap (λ (t : ℕ). page t) e

pub length-page_bytes : (n : ℕ) (page : Page) (off : ℕ) → length (page_bytes n page off) ≡ n
unfolding page_bytes
length-page_bytes zero page off = refl
length-page_bytes (suc n) page off = ap suc (length-page_bytes n page (off + 1))

pub page_bytes-get_or :
    (n : ℕ) (page : Page) (off i : ℕ)
    → get_or (page_bytes n page off) i 0 ≡ (if ltb i n then page (off + i) else 0)
unfolding page_bytes
page_bytes-get_or zero page off i = ground arith
page_bytes-get_or (suc n) page off zero = let e : off + 0 ≡ off = omega arith in rw e (ground arith)
page_bytes-get_or (suc n) page off (suc i) =
    let e : off + 1 + i ≡ off + suc i = omega arith in
    page_bytes-get_or n page (off + 1) i ∙ rw e (ground arith)
