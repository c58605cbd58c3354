-- ===== src/Mkfs/Sizes.antt =====
-- What `compute_values` gives for a whole file system in a file, of which a percentage is for slots
-- and super inodes.
use kanekfs.Base.{
  ℕ, ◌+◌, ◌-◌, ◌*◌, ◌/◌, ◌%◌, ◌^◌, ◌≤◌, ◌<◌, ◌≡◌, refl, ◌∙◌, arith, bit_or, some, Bool, true, false,
  ◌==◌, ltb, ◌||◌, inl, inr, Bool-cases,
}
use kanekfs.Disk.{kfs_blocksize}
use kanekfs.Disk.Layout.{one_gigabyte}
use kanekfs.Mkfs.{Options, BlocksCalc, any, cmd_kfs, cmd_meta, cmd_sis, opt_i, opt_s, opt_p}
use kanekfs.Mkfs.Flags.{any-bit_or}
use kanekfs.Mkfs.Floats.{unit, float_part}
use kanekfs.Mkfs.Compute.{
  div_up, bits_per_block, slots_per_block, sinodes_per_block, fill_in, items_blocks, share_slots,
  share_sinodes, compute_part, compute_size, compute_total, compute_values,
}
use kanekfs.Mkfs.Parts.{float_part-between}

-- A whole file system, `kfs`, with a percentage, and no number of super inodes or of slots.
pub record IsFull (flags : ℕ) : Type 0 where
  pub is_kfs : any flags cmd_kfs ≡ true
  pub has_percentage : any flags opt_p ≡ true
  pub no_sinodes : any flags opt_i ≡ false
  pub no_slots : any flags opt_s ≡ false

-- A file of `n` blocks has a place for the super block, each table and its bitmap, and the map of
-- the blocks; no number is too large for its field on the disk.
pub record IsLaidOut (n : ℕ) (bc : BlocksCalc) : Type 0 where
  pub size_blocks : bc.in_file_size_in_blocks ≡ n
  pub sinodes_in_block : bc.out_sinodes_per_block ≡ 85
  pub slots_in_block : bc.out_slots_per_block ≡ 204
  pub sinodes_blocks : 2 ≤ bc.out_sinodes_table_in_blocks
  pub slots_blocks : 2 ≤ bc.out_slots_table_in_blocks
  pub sinodes_short : bc.out_sinodes_table_in_blocks < 2 ^ 16
  pub slots_short : bc.out_slots_table_in_blocks < 2 ^ 16
  pub sinodes_map : bc.out_sinodes_bitmap_blocks_num ≡ 1
  pub slots_map : bc.out_slots_bitmap_blocks_num ≡ 1
  pub blocks_map : 1 ≤ bc.out_bitmap_size_in_blocks
  pub blocks_map_short : bc.out_bitmap_size_in_blocks < 2 ^ 16
  pub blocks_map_all : n ≤ bc.out_bitmap_size_in_blocks * 65280
  pub sinodes_num : bc.out_sinodes_num ≡ bc.out_sinodes_table_in_blocks * 85
  pub slots_num_all : bc.out_slots_num ≡ bc.out_slots_table_in_blocks * 204
  pub total_all :
      bc.out_total_blocks_required
      ≡ 1 + bc.out_sinodes_table_in_blocks + bc.out_sinodes_bitmap_blocks_num
        + bc.out_slots_table_in_blocks + bc.out_slots_bitmap_blocks_num
        + bc.out_bitmap_size_in_blocks
  pub fits : bc.out_total_blocks_required ≤ n

full : Options → ℕ → BlocksCalc
full options i = compute_total (share_sinodes i (share_slots i (fill_in options)))

items_between :
    (n p : ℕ)
    → 2 ≤ p
    → p ≤ 90
    → 1280 ≤ n
    → (12 ≤ float_part n p / 2 / unit) × (float_part n p / 2 / unit * 2000 ≤ n * 905)
items_between n p lo hi large =
    let h = float_part-between n p lo hi in (omega (arith, h.0, h.1), omega (arith, h.0, h.1))

compute_values-full :
    (options : Options)
    → IsFull options.flags
    → 2 ≤ options.percentage
    → options.percentage ≤ 90
    → options.size < one_gigabyte
    → compute_values options
      ≡ some
          (full options (float_part (options.size / kfs_blocksize) options.percentage / 2 / unit))
unfolding compute_values compute_part compute_size fill_in items_blocks full
compute_values-full options is_full lo hi small =
    let small_items = float_part-between (options.size / kfs_blocksize) options.percentage lo hi in
    let in_range : ltb (float_part (options.size / kfs_blocksize) options.percentage / 2 / unit)
          (2 ^ 64)
        ≡ true =
      let n : ℕ = options.size / kfs_blocksize in
      let few : n ≤ 131072 = omega arith in
      let i = float_part n options.percentage / 2 / unit in
      let small_i : i < 2 ^ 64 = omega (arith, small_items.0) in ground arith in
    rw
      (
        any-bit_or options.flags (bit_or cmd_kfs cmd_meta) cmd_sis,
        any-bit_or options.flags cmd_kfs cmd_meta,
        any-bit_or options.flags opt_i opt_s,
        is_full.is_kfs,
        is_full.has_percentage,
        is_full.no_sinodes,
        is_full.no_slots,
        in_range,
      )
      refl

record IsMapSize (n blocks : ℕ) : Type 0 where
  one_or_more : 1 ≤ blocks
  few : blocks ≤ 4
  enough : n ≤ blocks * 65280
  tight : blocks * 65280 ≤ n + 65279

map_blocks : (n : ℕ) → 1 ≤ n → n ≤ 131072 → IsMapSize n (div_up n bits_per_block)
map_blocks n some_blocks few = elim (Bool-cases (n % bits_per_block == 0)) [
  | inl even ↦
      let e : n % 65280 ≡ 0 = ground arith in
      rw even (record {
        one_or_more = omega arith;
        few = omega arith;
        enough = omega arith;
        tight = omega arith;
      })
  | inr odd ↦
      let e : 1 ≤ n % 65280 = ground arith in
      rw odd (record {
        one_or_more = omega arith;
        few = omega arith;
        enough = omega arith;
        tight = omega arith;
      })
]

with_kfs : (a : Bool) {b : Bool} → b ≡ true → (a || b) ≡ true
with_kfs true e = refl
with_kfs false e = e

full-IsLaidOut :
    (options : Options) (i : ℕ)
    → IsFull options.flags
    → 12 ≤ i
    → i * 2000 ≤ options.size / kfs_blocksize * 905
    → options.size < one_gigabyte
    → IsLaidOut (options.size / kfs_blocksize) (full options i)
unfolding full compute_total share_sinodes share_slots fill_in
full-IsLaidOut options i is_full least most small =
    let n : ℕ = options.size / kfs_blocksize in
    let few : n ≤ 131072 = omega arith in
    let one_map : div_up i bits_per_block ≡ 1 = ground arith in
    let total_one : (any options.flags (bit_or cmd_meta cmd_kfs)) ≡ true =
      any-bit_or options.flags cmd_meta cmd_kfs
      ∙ with_kfs (any options.flags cmd_meta) is_full.is_kfs in
    let few_maps = map_blocks n (omega arith) few in
    let table_sinodes : (i - 1) * sinodes_per_block ≡ (i - 1) * 85 = refl in
    let table_slots : (i - 1) * slots_per_block ≡ (i - 1) * 204 = refl in
    rw (one_map, total_one)
      (record {
        size_blocks = refl;
        sinodes_in_block = refl;
        slots_in_block = refl;
        sinodes_blocks = omega arith;
        slots_blocks = omega arith;
        sinodes_short = omega arith;
        slots_short = omega arith;
        sinodes_map = refl;
        slots_map = refl;
        blocks_map = few_maps.one_or_more;
        blocks_map_short = omega (arith, few_maps.few);
        blocks_map_all = few_maps.enough;
        sinodes_num = omega arith;
        slots_num_all = omega arith;
        total_all = omega (arith, few_maps.few);
        fits = omega (arith, few_maps.few, few_maps.tight);
      })

-- For a whole file system of 10 megabytes or more in a file below a gigabyte, with a percentage
-- from 2 to 90, `compute_values` gives sizes for which every part has its place in the file.
pub compute_values-IsLaidOut :
    (options : Options)
    → IsFull options.flags
    → 2 ≤ options.percentage
    → options.percentage ≤ 90
    → 10485760 ≤ options.size
    → options.size < one_gigabyte
    → (bc : BlocksCalc) × (compute_values options ≡ some bc)
      × IsLaidOut (options.size / kfs_blocksize) bc
compute_values-IsLaidOut options is_full lo hi large small =
    let n : ℕ = options.size / kfs_blocksize in
    let items = items_between n options.percentage lo hi (omega arith) in
    (
      full options (float_part n options.percentage / 2 / unit),
      compute_values-full options is_full lo hi small,
      full-IsLaidOut options (float_part n options.percentage / 2 / unit) is_full items.0 items.1
          small,
    )
