-- ===== src/Mkfs/Compute.antt =====
-- `compute_values` of fs/kfs_mkfs.c: how many blocks the tables and the bitmaps of a file system
-- take. A conversion of a `float` that no `uint64_t` holds is undefined: `none`.
use kanekfs.Base.{
  ℕ, ◌+◌, ◌-◌, ◌*◌, ◌/◌, ◌%◌, ◌^◌, bit_or, Option, none, some, ◌==◌, ltb, ◌&&◌, not, u64,
  if◌then◌else◌,
}
use kanekfs.Map.Bitmap.{◌>>=◌}
use kanekfs.Disk.{kfs_blocksize}
use kanekfs.Disk.Layout.{sizeof_header, sizeof_slot, sizeof_sinode, one_megabyte}
use kanekfs.Mkfs.{Options, BlocksCalc, any, cmd_kfs, cmd_meta, cmd_sis, opt_i, opt_s, opt_p}
use kanekfs.Mkfs.Floats.{unit, float_part, double_whole}

abbrev pub slots_per_block : ℕ
slots_per_block = (kfs_blocksize - sizeof_header) / sizeof_slot

abbrev pub sinodes_per_block : ℕ
sinodes_per_block = (kfs_blocksize - sizeof_header) / sizeof_sinode

abbrev pub bits_per_block : ℕ
bits_per_block = (kfs_blocksize - sizeof_header) * 8

-- `( n / per) + rem`, where `rem` is 1 if the division leaves a rest.
abbrev pub div_up : ℕ → ℕ → ℕ
div_up n per = n / per + (if n % per == 0 then 0 else 1)

-- `(uint64_t) x`
abbrev pub to_uint64 : ℕ → Option ℕ
to_uint64 x = if ltb (x / unit) (2 ^ 64) then some (x / unit) else none

-- What `compute_values` keeps: `total_blocks_required`, and `blocks_calc`.
pub record Calc : Type 0 where
  pub total : ℕ
  pub bc : BlocksCalc

-- The fields that are filled in before the first real computation.
unfoldable pub fill_in : Options → Calc
fill_in options = record {
  total = if any options.flags (bit_or cmd_meta cmd_kfs) then 1 else 0;
  bc = record {
    in_sinodes_num = if any options.flags (bit_or opt_i opt_s) then options.sinodes_num else 0;
    in_slots_num = if any options.flags (bit_or opt_i opt_s) then options.slots_num else 0;
    in_file_size_in_mbytes = options.size / one_megabyte;
    in_file_size_in_blocks = options.size / kfs_blocksize;
    in_percentage = if any options.flags opt_p then options.percentage else 0;
    out_sinodes_per_block = sinodes_per_block;
    out_slots_per_block = slots_per_block;
    out_bitmap_size_in_blocks = 0;
    out_slots_table_in_blocks = 0;
    out_slots_bitmap_blocks_num = 0;
    out_sinodes_table_in_blocks = 0;
    out_sinodes_bitmap_blocks_num = 0;
    out_sinodes_num = 0;
    out_slots_num = 0;
    out_total_blocks_required = 0;
  };
}

-- `items_blocks`; the halves of such a number have no digit too many.
unfoldable pub items_blocks : ℕ → BlocksCalc → ℕ
items_blocks flags bc =
    let part = float_part bc.in_file_size_in_blocks bc.in_percentage in
    if any flags cmd_kfs then part / 2 else part

-- `blocks` for the slots, of which the bitmap takes some.
unfoldable pub share_slots : ℕ → Calc → Calc
share_slots blocks calc = record {
  total = u64 (calc.total + blocks);
  bc = record calc.bc {
    out_slots_bitmap_blocks_num = div_up blocks bits_per_block;
    out_slots_table_in_blocks = blocks - div_up blocks bits_per_block;
    out_slots_num = u64 ((blocks - div_up blocks bits_per_block) * slots_per_block);
  };
}

unfoldable pub share_sinodes : ℕ → Calc → Calc
share_sinodes blocks calc = record {
  total = u64 (calc.total + blocks);
  bc = record calc.bc {
    out_sinodes_bitmap_blocks_num = div_up blocks bits_per_block;
    out_sinodes_table_in_blocks = blocks - div_up blocks bits_per_block;
    out_sinodes_num = u64 ((blocks - div_up blocks bits_per_block) * sinodes_per_block);
  };
}

-- The branch for a part of the file, given as a percentage.
unfoldable pub compute_part : ℕ → Calc → Option Calc
compute_part flags calc = do
  let items = items_blocks flags calc.bc
  with_slots ←
      if any flags (bit_or cmd_kfs cmd_meta) && not (any flags opt_s)
      then (do blocks ← to_uint64 items; some (share_slots blocks calc))
      else some calc
  if any flags (bit_or cmd_kfs cmd_meta) && not (any flags opt_i)
      then (do blocks ← to_uint64 items; some (share_sinodes blocks with_slots))
      else some with_slots

-- The branches for a number of super inodes, and of slots.
unfoldable pub compute_sinodes : Calc → Calc
compute_sinodes calc =
    let blocks = div_up calc.bc.in_sinodes_num sinodes_per_block in
    record {
      total = u64 (calc.total + (div_up blocks bits_per_block + blocks));
      bc = record calc.bc {
        out_sinodes_bitmap_blocks_num = div_up blocks bits_per_block;
        out_sinodes_table_in_blocks = blocks;
        out_sinodes_num = u64 (blocks * sinodes_per_block);
      };
    }

unfoldable pub compute_slots : Calc → Calc
compute_slots calc =
    let blocks = div_up calc.bc.in_slots_num slots_per_block in
    record {
      total = u64 (calc.total + (div_up blocks bits_per_block + blocks));
      bc = record calc.bc {
        out_slots_bitmap_blocks_num = div_up blocks bits_per_block;
        out_slots_table_in_blocks = blocks;
        out_slots_num = u64 (blocks * slots_per_block);
      };
    }

-- The size of the device, from the blocks that are required and the percentage; a division by 0
-- gives no `uint64_t`.
unfoldable pub compute_size : ℕ → Calc → Option Calc
compute_size flags calc =
    if any flags (bit_or opt_i opt_s)
    then (do
      blocks ←
          if calc.bc.in_percentage == 0
          then none
          else to_uint64 (double_whole calc.total calc.bc.in_percentage)
      some (record calc {
        bc = record calc.bc {
          in_file_size_in_blocks = blocks;
          in_file_size_in_mbytes = blocks / 128;
        };
      }))
    else some calc

unfoldable pub compute_total : Calc → BlocksCalc
compute_total calc =
    let bitmap_size = div_up calc.bc.in_file_size_in_blocks bits_per_block in
    record calc.bc {
      out_bitmap_size_in_blocks = bitmap_size;
      out_total_blocks_required = u64 (calc.total + bitmap_size);
    }

unfoldable pub compute_values : Options → Option BlocksCalc
compute_values options = do
  let calc = fill_in options
  parts ←
      if any options.flags (bit_or (bit_or cmd_kfs cmd_meta) cmd_sis)
      then compute_part options.flags calc
      else if any options.flags opt_i
      then some (compute_sinodes calc)
      else if any options.flags opt_s
      then some (compute_slots calc)
      else some calc
  sized ← compute_size options.flags parts
  some (compute_total sized)
