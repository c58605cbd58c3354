-- ===== src/Mkfs/Parse.antt =====
-- `parse_opts` of fs/kfs_mkfs.c. The options that `getopt` finds, and what `stat` says of the file,
-- are arguments. What is printed is left out.
pub mod Ends
pub mod Checked
use kanekfs.Base.{
  ℕ, ◌+◌, ◌-◌, List, [], ◌∷◌, ℤ, pos, negsuc, Option, none, some, Bool, true, false, not, ◌&&◌,
  ◌||◌, ◌==◌, ltb, length, bit_and, bit_or, u32, if◌then◌else◌,
}
use kanekfs.Mkfs.{
  Options, any, cmd_kfs, cmd_meta, cmd_sis, cmd_graph, opt_v, opt_h, opt_f, opt_d, opt_i, opt_s,
  opt_p, opt_w, opt_m, opt_k, opt_x_items, opt_x_blocks,
}
use kanekfs.Mkfs.Build.{mkfs_create_file}
use kanekfs.Mkfs.Numbers.{validate_size, validate_num}

-- How a part of the function ends: it goes on with a value, calls `exit`, returns, or writes past
-- the end of a field or through NULL. A call of `exit` at the end of the checks shows the options.
pub data Step {ℓ} (A : Type ℓ) : Type ℓ where
  goes_on : A → Step A
  exits : ℕ → Step A
  returns : ℤ → Step A
  faults : Step A

infixl 5 ◌>>=◌
abbrev pub ◌>>=◌ {ℓ κ} : {A : Type ℓ} {B : Type κ} → Step A → (A → Step B) → Step B
goes_on x >>= k = k x
exits code >>= k = exits code
returns rc >>= k = returns rc
faults >>= k = faults

abbrev pub mkfs_is_blockdevice : ℕ
mkfs_is_blockdevice = 0x200000

abbrev pub mkfs_is_regular_file : ℕ
mkfs_is_regular_file = 0x400000

abbrev pub mkfs_default_percentage : ℕ
mkfs_default_percentage = 10

-- `MIN_FS`
abbrev pub min_fs : ℕ
min_fs = 10485760

abbrev pub exit_failure : ℕ
exit_failure = 1

-- The flags, and the texts that are read later.
pub record Arguments : Type 0 where
  pub flags : ℕ
  pub str_size : List ℕ
  pub str_sinodes_num : List ℕ
  pub str_slots_num : List ℕ
  pub str_percentage : List ℕ

-- `strncmp( s, word, length of the word) == 0`
unfoldable pub starts_with : List ℕ → List ℕ → Bool
starts_with s [] = true
starts_with [] (c ∷ word) = false
starts_with (d ∷ s) (c ∷ word) = d == c && starts_with s word

-- "kfs", "meta", "sis", "graph"
unfoldable pub command_flag : List ℕ → Step ℕ
command_flag command =
    if starts_with command (107 ∷ 102 ∷ 115 ∷ [])
    then goes_on cmd_kfs
    else if starts_with command (109 ∷ 101 ∷ 116 ∷ 97 ∷ [])
    then goes_on cmd_meta
    else if starts_with command (115 ∷ 105 ∷ 115 ∷ [])
    then goes_on cmd_sis
    else if starts_with command (103 ∷ 114 ∷ 97 ∷ 112 ∷ 104 ∷ [])
    then goes_on cmd_graph
    else exits exit_failure

-- `strcpy` of `optarg` into a field of `size` bytes.
unfoldable pub copied : ℕ → Option (List ℕ) → Step (List ℕ)
copied size none = faults
copied size (some text) = if ltb (length text) size then goes_on text else faults

pub record Opt : Type 0 where
  pub opt : ℕ
  pub optarg : Option (List ℕ)

abbrev pub with_flag : Arguments → ℕ → Arguments
with_flag args flag = record args { flags = bit_or args.flags flag }

-- `-x`: "blocks" is followed by the test for "items", whose `else` ends the program.
unfoldable pub option_x : Arguments → Option (List ℕ) → Step Arguments
option_x args none = faults
option_x args (some text) =
    if starts_with text (105 ∷ 116 ∷ 101 ∷ 109 ∷ 115 ∷ [])
    then (do metadata_file ← copied 240 (some text); goes_on (with_flag args opt_x_items))
    else exits exit_failure

-- The `switch`.
unfoldable pub parse_option : Arguments → Opt → Step Arguments
parse_option args o =
    if o.opt == 102
    then (do file_name ← copied 240 o.optarg; goes_on (with_flag args opt_f))
    else if o.opt == 100
    then (do text ← copied 32 o.optarg; goes_on (record (with_flag args opt_d) { str_size = text }))
    else if o.opt == 105
    then (do
      text ← copied 24 o.optarg
      goes_on (record (with_flag args opt_i) { str_sinodes_num = text }))
    else if o.opt == 115
    then (do
      text ← copied 24 o.optarg
      goes_on (record (with_flag args opt_s) { str_slots_num = text }))
    else if o.opt == 112
    then (do
      text ← copied 10 o.optarg
      goes_on (record (with_flag args opt_p) { str_percentage = text }))
    else if o.opt == 107
    then (do str_key ← copied 20 o.optarg; goes_on (with_flag args opt_k))
    else if o.opt == 119
    then (do conf_file ← copied 240 o.optarg; goes_on (with_flag args opt_w))
    else if o.opt == 109
    then (do metadata_file ← copied 240 o.optarg; goes_on (with_flag args opt_m))
    else if o.opt == 120
    then option_x args o.optarg
    else if o.opt == 118
    then goes_on (with_flag args opt_v)
    else if o.opt == 104
    then goes_on (with_flag args opt_h)
    else exits exit_failure

unfoldable pub parse_options : Arguments → List Opt → Step Arguments
parse_options args [] = goes_on args
parse_options args (o ∷ opts) = do next ← parse_option args o; parse_options next opts

-- `(flags & (a|b)) == (a|b)`
abbrev pub both : ℕ → ℕ → ℕ → Bool
both flags a b = bit_and flags (bit_or a b) == bit_or a b

-- The combinations of options that are refused.
unfoldable pub is_invalid : ℕ → Bool
is_invalid flags =
    any flags opt_h
    || (bit_and flags opt_v == flags
        || (both flags opt_p opt_s
            || (both flags opt_p opt_i
                || (both flags cmd_meta opt_i
                    || (both flags cmd_graph opt_i
                        || (both flags cmd_sis opt_s
                            || (any flags (bit_or (bit_or cmd_meta cmd_graph) cmd_sis)
                                && not (any flags opt_k))))))))

-- A file, as `stat` sees it.
pub data FileKind : Type 0 where
  missing : FileKind
  regular : ℕ → FileKind
  blockdevice : ℕ → FileKind
  other : FileKind

-- The help, the file name that is required, and the combinations.
unfoldable pub check_flags : ℕ → Step Bool
check_flags flags = do
  let need_file = not (any flags (bit_or opt_x_blocks opt_x_items))
  if any flags opt_h
      then exits 0
      else if need_file && not (any flags opt_f)
      then exits exit_failure
      else if is_invalid flags
      then exits exit_failure
      else goes_on need_file

unfoldable pub check_size : Arguments → Step ℕ
check_size args =
    if any args.flags opt_d
    then (let size = validate_size args.str_size in
        if size == 0
        then returns (negsuc 0)
        else if ltb size min_fs
        then returns (negsuc 0)
        else goes_on size)
    else goes_on 0

-- A number too large for the `int` is cut off; one that comes out negative is refused too.
unfoldable pub check_percentage : Arguments → Step ℕ
check_percentage args =
    if any args.flags opt_p
    then (let percentage = u32 (validate_num args.str_percentage) in
        if ltb percentage 2 || ltb 90 percentage then returns (negsuc 0) else goes_on percentage)
    else goes_on mkfs_default_percentage

unfoldable pub check_num : ℕ → ℕ → List ℕ → Step ℕ
check_num flags flag text =
    if any flags flag
    then (let num = validate_num text in if num == 0 then returns (negsuc 0) else goes_on num)
    else goes_on 0

abbrev pub set_flags : Options → ℕ → Options
set_flags options mask = record options { flags = bit_or options.flags mask }

-- What the file that is there says of the size and the flags.
unfoldable pub check_file : FileKind → Options → Step Options
check_file missing options = goes_on (
    if not (any options.flags opt_x_items)
    then set_flags options (bit_or mkfs_create_file mkfs_is_regular_file)
    else options)
check_file (regular st_size) options = goes_on (
    set_flags (record options { size = if ltb 0 st_size then st_size else options.size })
      (bit_or mkfs_is_regular_file opt_s))
check_file (blockdevice bd_size) options =
    goes_on (set_flags (record options { size = bd_size }) (bit_or mkfs_is_blockdevice opt_s))
check_file other options = returns (negsuc 0)

-- All after the loop of `getopt`, up to the options that are checked.
unfoldable pub check_options : Arguments → FileKind → Step Options
check_options args file = do
  need_file ← check_flags args.flags
  size ← check_size args
  percentage ← check_percentage args
  sinodes_num ← check_num args.flags opt_i args.str_sinodes_num
  slots_num ← check_num args.flags opt_s args.str_slots_num
  let options : Options = record {
    flags = args.flags;
    size = size;
    percentage = percentage;
    sinodes_num = sinodes_num;
    slots_num = slots_num;
  }
  checked ← if need_file then check_file file options else goes_on options
  if any checked.flags mkfs_create_file && not (any checked.flags opt_d)
      then returns (negsuc 0)
      else goes_on checked

-- `command` is the first argument, if there is one. At its end the function calls `exit( 0)`.
unfoldable pub parse_opts : Option (List ℕ) → List Opt → FileKind → Step Options
parse_opts none opts file = exits exit_failure
parse_opts (some command) opts file = do
  flag ← command_flag command
  args ←
      parse_options
        (record {
          flags = flag;
          str_size = [];
          str_sinodes_num = [];
          str_slots_num = [];
          str_percentage = [];
        })
        opts
  options ← check_options args file
  exits 0
