-- ===== src/Mkfs.antt =====
-- The builder of file systems, fs/kfs_mkfs.c: what it is asked for, and what it computes. The
-- global variables `options` and `blocks_calc` are arguments and results.
pub mod Numbers
pub mod Decimal
pub mod Floats
pub mod Rounding
pub mod Parts
pub mod Flags
pub mod Compute
pub mod Sizes
pub mod Superblock
pub mod Tables
pub mod Build
pub mod Written
pub mod Marks
pub mod Result
pub mod Final
pub mod Occupied
pub mod Regions
pub mod Used
pub mod Parse
use kanekfs.Base.{ℕ, ◌^◌, not, ◌==◌, Bool, bit_and}

abbrev pub cmd_kfs : ℕ
cmd_kfs = 0x000001

abbrev pub cmd_meta : ℕ
cmd_meta = 0x000002

abbrev pub cmd_sis : ℕ
cmd_sis = 0x000004

abbrev pub cmd_graph : ℕ
cmd_graph = 0x000008

abbrev pub opt_v : ℕ
opt_v = 0x000010

abbrev pub opt_h : ℕ
opt_h = 0x000020

abbrev pub opt_f : ℕ
opt_f = 0x000040

abbrev pub opt_d : ℕ
opt_d = 0x000080

abbrev pub opt_i : ℕ
opt_i = 0x000100

abbrev pub opt_s : ℕ
opt_s = 0x000200

abbrev pub opt_p : ℕ
opt_p = 0x000400

abbrev pub opt_w : ℕ
opt_w = 0x000800

abbrev pub opt_m : ℕ
opt_m = 0x001000

abbrev pub opt_k : ℕ
opt_k = 0x002000

abbrev pub opt_x_items : ℕ
opt_x_items = 0x004000

abbrev pub opt_x_blocks : ℕ
opt_x_blocks = 0x008000

-- `options_t`, less the texts of the arguments.
pub record Options : Type 0 where
  pub flags : ℕ
  pub size : ℕ
  pub percentage : ℕ
  pub sinodes_num : ℕ
  pub slots_num : ℕ

-- `blocks_calc_t`
pub record BlocksCalc : Type 0 where
  pub in_sinodes_num : ℕ
  pub in_slots_num : ℕ
  pub in_file_size_in_mbytes : ℕ
  pub in_file_size_in_blocks : ℕ
  pub in_percentage : ℕ
  pub out_sinodes_per_block : ℕ
  pub out_slots_per_block : ℕ
  pub out_bitmap_size_in_blocks : ℕ
  pub out_slots_table_in_blocks : ℕ
  pub out_slots_bitmap_blocks_num : ℕ
  pub out_sinodes_table_in_blocks : ℕ
  pub out_sinodes_bitmap_blocks_num : ℕ
  pub out_sinodes_num : ℕ
  pub out_slots_num : ℕ
  pub out_total_blocks_required : ℕ

-- `flags & mask`, as a condition.
abbrev pub any : ℕ → ℕ → Bool
any flags mask = not (bit_and flags mask == 0)
