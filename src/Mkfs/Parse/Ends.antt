-- ===== src/Mkfs/Parse/Ends.antt =====
-- How `parse_opts` ends, and what the checks let through.
use kanekfs.Base.{ℕ, List, [], ◌∷◌, negsuc, Option, none, some, Bool, true, false, if◌then◌else◌}
use kanekfs.Mkfs.{Options, opt_i, opt_s, opt_x_items}
use kanekfs.Mkfs.Parse.{
  Step, goes_on, exits, returns, faults, ◌>>=◌, Arguments, Opt, FileKind, missing, regular,
  blockdevice, other, check_flags, check_size, check_percentage, check_num, check_file,
  check_options, copied, option_x, starts_with, with_flag, command_flag, parse_options, parse_opts,
  parse_option,
}

-- No step returns 0 or more.
data IsSound {ℓ} {A : Type ℓ} : Step A → Type ℓ where
  going : (x : A) → IsSound (goes_on x)
  exited : (code : ℕ) → IsSound (exits code)
  refused : (n : ℕ) → IsSound (returns (negsuc n))
  faulted : IsSound faults

-- The program is over: `main` goes on only after a result of 0 or more.
pub data IsOver {ℓ} {A : Type ℓ} : Step A → Type ℓ where
  over_exited : (code : ℕ) → IsOver (exits code)
  over_refused : (n : ℕ) → IsOver (returns (negsuc n))
  over_faulted : IsOver faults

bind-IsOver {ℓ κ} :
    {A : Type ℓ} {B : Type κ} {s : Step A} {k : A → Step B}
    → IsSound s
    → ((x : A) → IsOver (k x))
    → IsOver (s >>= k)
bind-IsOver (going x) rest = rest x
bind-IsOver (exited code) rest = over_exited code
bind-IsOver (refused n) rest = over_refused n
bind-IsOver faulted rest = over_faulted

bind-IsSound {ℓ κ} :
    {A : Type ℓ} {B : Type κ} {s : Step A} {k : A → Step B}
    → IsSound s
    → ((x : A) → IsSound (k x))
    → IsSound (s >>= k)
bind-IsSound (going x) rest = rest x
bind-IsSound (exited code) rest = exited code
bind-IsSound (refused n) rest = refused n
bind-IsSound faulted rest = faulted

if_IsSound {ℓ} :
    {A : Type ℓ} (b : Bool) {s t : Step A} → IsSound s → IsSound t → IsSound (if b then s else t)
if_IsSound true hs ht = hs
if_IsSound false hs ht = ht

check_flags-IsSound : (flags : ℕ) → IsSound (check_flags flags)
unfolding check_flags
check_flags-IsSound flags = search (if_IsSound, exited, going)

check_size-IsSound : (args : Arguments) → IsSound (check_size args)
unfolding check_size
check_size-IsSound args = search (if_IsSound, refused, going)

check_percentage-IsSound : (args : Arguments) → IsSound (check_percentage args)
unfolding check_percentage
check_percentage-IsSound args = search (if_IsSound, refused, going)

check_num-IsSound : (flags flag : ℕ) (text : List ℕ) → IsSound (check_num flags flag text)
unfolding check_num
check_num-IsSound flags flag text = search (if_IsSound, refused, going)

check_file-IsSound : (file : FileKind) (options : Options) → IsSound (check_file file options)
unfolding check_file
check_file-IsSound missing options = going _
check_file-IsSound (regular st_size) options = going _
check_file-IsSound (blockdevice bd_size) options = going _
check_file-IsSound other options = refused _

check_options-IsSound : (args : Arguments) (file : FileKind) → IsSound (check_options args file)
unfolding check_options
check_options-IsSound args file = bind-IsSound (check_flags-IsSound args.flags) (λ need_file.
    bind-IsSound (check_size-IsSound args) (λ size.
      bind-IsSound (check_percentage-IsSound args) (λ percentage.
        bind-IsSound (check_num-IsSound args.flags opt_i args.str_sinodes_num) (λ sinodes_num.
          bind-IsSound (check_num-IsSound args.flags opt_s args.str_slots_num) (λ slots_num.
            bind-IsSound (if_IsSound need_file (check_file-IsSound file _) (going _))
              (λ checked. search (if_IsSound, refused, going)))))))

copied-IsSound : (size : ℕ) (text : Option (List ℕ)) → IsSound (copied size text)
unfolding copied
copied-IsSound size none = faulted
copied-IsSound size (some text) = search (if_IsSound, going, faulted)

-- An option with a text of at most `size` bytes.
copy-IsSound :
    (size : ℕ) (text : Option (List ℕ)) (k : List ℕ → Arguments)
    → IsSound (copied size text >>= λ t. goes_on (k t))
copy-IsSound size text k = bind-IsSound (copied-IsSound size text) (λ t. going (k t))

option_x-IsSound : (args : Arguments) (text : Option (List ℕ)) → IsSound (option_x args text)
unfolding option_x
option_x-IsSound args none = faulted
option_x-IsSound args (some text) =
    if_IsSound (starts_with text (105 ∷ 116 ∷ 101 ∷ 109 ∷ 115 ∷ []))
      (copy-IsSound 240 (some text) (λ _. with_flag args opt_x_items)) (exited _)

parse_option-IsSound : (args : Arguments) (o : Opt) → IsSound (parse_option args o)
unfolding parse_option
parse_option-IsSound args o =
    search (if_IsSound, copy-IsSound, option_x-IsSound, going, exited) depth 14

parse_options-IsSound : (args : Arguments) (opts : List Opt) → IsSound (parse_options args opts)
unfolding parse_options
parse_options-IsSound args [] = going args
parse_options-IsSound args (o ∷ opts) =
    bind-IsSound (parse_option-IsSound args o) (λ next. parse_options-IsSound next opts)

command_flag-IsSound : (command : List ℕ) → IsSound (command_flag command)
unfolding command_flag
command_flag-IsSound command = search (if_IsSound, going, exited)

-- Whatever the arguments and the file are, `parse_opts` calls `exit`, or returns a number below 0,
-- or faults: `main` never goes on to compute sizes or to build a file system.
pub parse_opts-IsOver :
    (command : Option (List ℕ)) (opts : List Opt) (file : FileKind)
    → IsOver (parse_opts command opts file)
unfolding parse_opts
parse_opts-IsOver none opts file = over_exited _
parse_opts-IsOver (some command) opts file = bind-IsOver (command_flag-IsSound command) (λ flag.
    bind-IsOver (parse_options-IsSound _ opts)
      (λ args. bind-IsOver (check_options-IsSound args file) (λ options. over_exited 0)))
