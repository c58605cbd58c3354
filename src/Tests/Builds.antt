-- ===== src/Tests/Builds.antt =====
-- fs/kfs_mkfs.c and fs/kfs_super.c on a file of 20 megabytes.
use kanekfs.Base.{
  ℕ, ◌+◌, ◌*◌, ◌==◌, if◌then◌else◌, ◌/◌, ◌<◌, ◌≡◌, ◌↔◌, refl, arith, List, [], ◌∷◌, some, pos, true,
  u64,
}
use kanekfs.Disk.{Page, Device, kfs_blocksize}
use kanekfs.Disk.Layout.{one_megabyte, one_gigabyte, kfs_magic}
use kanekfs.Mkfs.{Options, BlocksCalc}
use kanekfs.Mkfs.Numbers.{isalpha, toupper, validate_size, validate_num}
use kanekfs.Mkfs.Decimal.{decimal, validate-decimal}
use kanekfs.Mkfs.Compute.{compute_values}
use kanekfs.Mkfs.Sizes.{IsFull, IsLaidOut, compute_values-IsLaidOut}
use kanekfs.Mkfs.Superblock.{fs_map_block}
use kanekfs.Mkfs.Build.{build_in_file, build_filesystem_in_file}
use kanekfs.Mkfs.Occupied.{block_bit, occupied}
use kanekfs.Mkfs.Used.{build_in_file-occupied}
use kanekfs.Mkfs.Parse.{Arguments, Opt, missing, check_options, parse_opts}
use kanekfs.Mkfs.Parse.Ends.{IsOver, parse_opts-IsOver}
use kanekfs.Mkfs.Parse.Checked.{Ensures, IsChecked, check_options-Ensures}
use kanekfs.Super.Verify.{Opening, kfs_verify}
use kanekfs.Super.Checks.{IsAccepted, kfs_verify_iff}
use kanekfs.Super.Built.{IsOpened, kfs_verify-build_filesystem_in_file}
use kanekfs.Super.Memory.{Sb}
use kanekfs.Super.Mount.{MountCalls, no_sb, kfs_mount, kfs_umount}
use kanekfs.Super.Mount.Cycle.{
  IsExtentFields, IsTableFields, IsUnmounted, IsMountable, with_times, kfs_umount-kfs_mount,
}

-- `mkfs kfs -f FILE -d 20M -p 10`, and memory and a device full of zeroes.
abbrev asked : Options
asked = record { flags = 0x4c1; size = 20971520; percentage = 10; sinodes_num = 0; slots_num = 0 }

abbrev zeroes : ℕ → Page
zeroes n off = 0

abbrev calls : Opening
calls = record {
  exists = true;
  is_supported = true;
  has_page = true;
  can_open = true;
  has_extent_page = true;
}

asked-IsFull : IsFull asked.flags
asked-IsFull = record { is_kfs = refl; has_percentage = refl; no_sinodes = refl; no_slots = refl }

calls-IsOpened : IsOpened calls
calls-IsOpened = record {
  it_exists = refl;
  it_is_supported = refl;
  it_has_page = refl;
  it_can_open = refl;
  it_has_extent_page = refl;
}

compute_values-IsLaidOut_example :
    (bc : BlocksCalc) × (compute_values asked ≡ some bc) × IsLaidOut (asked.size / kfs_blocksize) bc
compute_values-IsLaidOut_example =
    compute_values-IsLaidOut asked asked-IsFull (omega arith) (omega arith) (omega arith)
      (omega arith)

kfs_verify-build_filesystem_in_file_example :
    (bc : BlocksCalc) × (dev' : Device) × (compute_values asked ≡ some bc)
    × (build_filesystem_in_file true true asked.flags 9408 5 bc zeroes zeroes ≡ some (pos 0, dev'))
    × (kfs_verify calls dev' 1 ≡ pos 0)
kfs_verify-build_filesystem_in_file_example =
    kfs_verify-build_filesystem_in_file asked 9408 5 zeroes zeroes calls 1 asked-IsFull
      (omega arith) (omega arith) (omega arith) (omega arith) (λ count off. omega arith)
      calls-IsOpened

build_in_file-occupied_example :
    (bc : BlocksCalc) × (dev' : Device) × (compute_values asked ≡ some bc)
    × (build_in_file 9408 5 bc zeroes zeroes ≡ some dev')
    × ((b : ℕ)
        → b < asked.size / kfs_blocksize
        → block_bit dev' (fs_map_block bc) b ≡ occupied bc b)
build_in_file-occupied_example =
    build_in_file-occupied asked 9408 5 zeroes zeroes asked-IsFull (omega arith) (omega arith)
      (omega arith) (omega arith) (λ count off. refl)

kfs_verify_iff_example : (kfs_verify calls zeroes 1 ≡ pos 0) ↔ IsAccepted calls zeroes 1
kfs_verify_iff_example = kfs_verify_iff calls zeroes 1

-- A super block of zeroes but for the magic number.
abbrev sb_page : Page
sb_page k = if k == 24 then kfs_magic else 0

no-IsExtentFields : (off : ℕ) → 24 < off → IsExtentFields sb_page off
no-IsExtentFields off h = record {
  addr_width = ground arith;
  size_width = ground arith;
  log_size_width = ground arith;
  log_addr_width = ground arith;
}

no-IsTableFields : (off : ℕ) → 24 < off → IsTableFields sb_page off
no-IsTableFields off h = record {
  capacity_width = ground arith;
  in_use_width = ground arith;
  map_width = no-IsExtentFields (off + 16) (omega arith);
  table_width = no-IsExtentFields (off + 32) (omega arith);
}

sb_page-IsUnmounted : IsUnmounted sb_page
sb_page-IsUnmounted = record {
  has_magic = refl;
  not_mounted_yet = refl;
  flags_width = omega arith;
  root_width = omega arith;
  si_width = no-IsTableFields 48 (omega arith);
  slot_width = no-IsTableFields 96 (omega arith);
  blockmap_width = no-IsTableFields 144 (omega arith);
}

abbrev mount_calls : MountCalls
mount_calls = record {
  opens = true;
  has_cache = true;
  enables = true;
  maps = some sb_page;
  syncs = pos 0;
  is_active = true;
}

mount_calls-IsMountable : IsMountable mount_calls sb_page
mount_calls-IsMountable = record {
  it_opens = refl;
  it_has_cache = refl;
  it_enables = refl;
  it_maps = refl;
  it_syncs = refl;
  it_is_active = refl;
}

kfs_umount-kfs_mount_example :
    (mounted : Sb) × (mounted_page : Page) × (page' : Page) × (kfs_mount 7 mount_calls no_sb
      ≡ some (record { rc = pos 0; sb = mounted; page = some mounted_page; is_open = true }))
    × (kfs_umount 9 mounted_page mounted ≡ some (pos 0, page', no_sb))
    × ((k : ℕ) → page' k ≡ with_times sb_page 9 k)
kfs_umount-kfs_mount_example =
    kfs_umount-kfs_mount 7 9 mount_calls sb_page no_sb mount_calls-IsMountable sb_page-IsUnmounted

-- "kfs" with `-f a`, `-d 20M` and `-p 10`
abbrev options : List Opt
options =
    record { opt = 102; optarg = some (97 ∷ []) }
    ∷ record { opt = 100; optarg = some (50 ∷ 48 ∷ 77 ∷ []) }
    ∷ record { opt = 112; optarg = some (49 ∷ 48 ∷ []) }
    ∷ []

parse_opts-IsOver_example : IsOver (parse_opts (some (107 ∷ 102 ∷ 115 ∷ [])) options missing)
parse_opts-IsOver_example = parse_opts-IsOver (some (107 ∷ 102 ∷ 115 ∷ [])) options missing

abbrev arguments : Arguments
arguments = record {
  flags = 0x4c1;
  str_size = 50 ∷ 48 ∷ 77 ∷ [];
  str_sinodes_num = [];
  str_slots_num = [];
  str_percentage = 49 ∷ 48 ∷ [];
}

check_options-Ensures_example :
    Ensures (IsChecked arguments missing) (check_options arguments missing)
check_options-Ensures_example = check_options-Ensures arguments missing

validate-decimal_example :
    (validate_num (decimal 3 20 []) ≡ 20)
    × (validate_size (decimal 3 20 []) ≡ 20)
    × ((c : ℕ)
        → isalpha c ≡ true
        → toupper c ≡ 77
        → validate_size (decimal 3 20 (c ∷ [])) ≡ u64 (20 * one_megabyte))
    × ((c : ℕ)
        → isalpha c ≡ true
        → toupper c ≡ 71
        → validate_size (decimal 3 20 (c ∷ [])) ≡ u64 (20 * one_gigabyte))
validate-decimal_example = validate-decimal 3 20 (omega arith) (omega arith)
