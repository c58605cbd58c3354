-- ===== src/Mkfs/Parse/Checked.antt =====
-- What the checks of `parse_opts` let through.
use kanekfs.Base.{
  ℕ, ◌≤◌, ◌≡◌, refl, sym, ◌∙◌, arith, List, Bool, true, false, not, ◌&&◌, ◌||◌, ◌==◌, ltb, bit_or,
  ℤ, negsuc, u32, inl, inr, Bool-cases, if◌then◌else◌,
}
use kanekfs.Mkfs.{Options, any, opt_h, opt_f, opt_i, opt_s, opt_d, opt_p, opt_x_items, opt_x_blocks}
use kanekfs.Mkfs.Build.{mkfs_create_file}
use kanekfs.Mkfs.Numbers.{validate_size, validate_num}
use kanekfs.Mkfs.Parse.{
  Step, goes_on, exits, returns, faults, ◌>>=◌, Arguments, FileKind, missing, regular, blockdevice,
  other, both, is_invalid, check_flags, check_size, check_percentage, check_num, check_file,
  check_options, min_fs,
}

-- If the step goes on, it does so with a value for which `P` holds.
pub data Ensures {ℓ κ} {A : Type ℓ} (P : A → Type κ) : Step A → Type (ℓ ⊔ κ) where
  ensured : (x : A) → P x → Ensures P (goes_on x)
  when_exits : (code : ℕ) → Ensures P (exits code)
  when_returns : (rc : ℤ) → Ensures P (returns rc)
  when_faults : Ensures P faults

bind-Ensures {ℓ κ μ ν} :
    {A : Type ℓ} {B : Type κ} {Q : A → Type μ} {P : B → Type ν} {s : Step A} {k : A → Step B}
    → Ensures Q s
    → ((x : A) → Q x → Ensures P (k x))
    → Ensures P (s >>= k)
bind-Ensures (ensured x q) rest = rest x q
bind-Ensures (when_exits code) rest = when_exits code
bind-Ensures (when_returns rc) rest = when_returns rc
bind-Ensures when_faults rest = when_faults

if_Ensures {ℓ κ} :
    {A : Type ℓ} {P : A → Type κ} (b : Bool) {s t : Step A}
    → (b ≡ true → Ensures P s)
    → (b ≡ false → Ensures P t)
    → Ensures P (if b then s else t)
if_Ensures true yes_case no_case = yes_case refl
if_Ensures false yes_case no_case = no_case refl

clash : {b : Bool} → b ≡ false → b ≡ true → ⊥
clash {b} no_case yes_case = let e : false ≡ true = sym no_case ∙ yes_case in ground arith

or_false : {a b : Bool} → (a || b) ≡ false → (a ≡ false) × (b ≡ false)
or_false {a = true} e = absurd (clash refl (sym e))
or_false {a = false} e = (refl, e)

between : (n : ℕ) → (ltb n 2 ≡ false) × (ltb 90 n ≡ false) → (2 ≤ n) × (n ≤ 90)
between n h = let low = h.0 in let high = h.1 in (ground arith, ground arith)

check_flags-Ensures :
    (flags : ℕ) → Ensures (λ (_ : Bool). is_invalid flags ≡ false) (check_flags flags)
unfolding check_flags
check_flags-Ensures flags =
    let need_file = not (any flags (bit_or opt_x_blocks opt_x_items)) in
    if_Ensures (any flags opt_h) (λ _. when_exits 0)
      (λ _.
        if_Ensures (need_file && not (any flags opt_f)) (λ _. when_exits 1)
          (λ _. if_Ensures (is_invalid flags) (λ _. when_exits 1) (λ e. ensured need_file e)))

check_size-Ensures :
    (args : Arguments)
    → Ensures (λ size. any args.flags opt_d ≡ true → min_fs ≤ size) (check_size args)
unfolding check_size
check_size-Ensures args =
    let size : ℕ = validate_size args.str_size in
    if_Ensures (any args.flags opt_d)
      (λ _.
        if_Ensures (size == 0) (λ _. when_returns (negsuc 0))
          (λ _.
            if_Ensures (ltb size min_fs) (λ _. when_returns (negsuc 0))
              (λ large. ensured size (λ _. ground arith))))
      (λ less. ensured 0 (λ more. absurd (clash less more)))

check_percentage-Ensures :
    (args : Arguments)
    → Ensures (λ percentage. (2 ≤ percentage) × (percentage ≤ 90)) (check_percentage args)
unfolding check_percentage
check_percentage-Ensures args =
    let percentage : ℕ = u32 (validate_num args.str_percentage) in
    if_Ensures (any args.flags opt_p)
      (λ _.
        if_Ensures (ltb percentage 2 || ltb 90 percentage) (λ _. when_returns (negsuc 0))
          (λ fine. ensured percentage (between percentage (or_false fine))))
      (λ _. ensured 10 (omega arith, omega arith))

check_num-Ensures :
    (flags flag : ℕ) (text : List ℕ)
    → Ensures (λ num. any flags flag ≡ true → 1 ≤ num) (check_num flags flag text)
unfolding check_num
check_num-Ensures flags flag text =
    let num : ℕ = validate_num text in
    if_Ensures (any flags flag)
      (λ _.
        if_Ensures (num == 0) (λ _. when_returns (negsuc 0))
          (λ some_num. ensured num (λ _. ground arith)))
      (λ less. ensured 0 (λ more. absurd (clash less more)))

abbrev pub is_missing : FileKind → Bool
is_missing missing = true
is_missing (regular st_size) = false
is_missing (blockdevice bd_size) = false
is_missing other = false

-- What holds of options that passed.
pub record IsChecked (args : Arguments) (file : FileKind) (options : Options) : Type 0 where
  pub percentage_from : 2 ≤ options.percentage
  pub percentage_to : options.percentage ≤ 90
  pub sinodes_asked : any args.flags opt_i ≡ true → 1 ≤ options.sinodes_num
  pub slots_asked : any args.flags opt_s ≡ true → 1 ≤ options.slots_num
  pub size_asked : is_missing file ≡ true → any args.flags opt_d ≡ true → min_fs ≤ options.size
  pub not_sinodes_too : both args.flags opt_p opt_i ≡ false
  pub not_slots_too : both args.flags opt_p opt_s ≡ false

invalid_both :
    (flags : ℕ)
    → is_invalid flags ≡ false
    → (both flags opt_p opt_i ≡ false) × (both flags opt_p opt_s ≡ false)
unfolding is_invalid
invalid_both flags e =
    let slots = or_false (or_false (or_false e).1).1 in
    let sinodes = or_false slots.1 in (sinodes.0, slots.0)

check_file-Ensures :
    (args : Arguments) (file : FileKind) (options : Options)
    → ((checked : Options)
        → checked.percentage ≡ options.percentage
        → checked.sinodes_num ≡ options.sinodes_num
        → checked.slots_num ≡ options.slots_num
        → (is_missing file ≡ true → checked.size ≡ options.size)
        → IsChecked args file checked)
    → Ensures (IsChecked args file) (check_file file options)
unfolding check_file
check_file-Ensures args missing options keep = elim (Bool-cases (any options.flags opt_x_items)) [
  | inl items ↦ rw items (ensured _ (keep options refl refl refl (λ _. refl)))
  | inr create ↦ rw create (ensured _ (keep _ refl refl refl (λ _. refl)))
]
check_file-Ensures args (regular st_size) options keep =
    ensured _ (keep _ refl refl refl (λ e. absurd (clash refl e)))
check_file-Ensures args (blockdevice bd_size) options keep =
    ensured _ (keep _ refl refl refl (λ e. absurd (clash refl e)))
check_file-Ensures args other options keep = when_returns (negsuc 0)

-- Of options that `check_options` lets through, the percentage is from 2 to 90; a number of super
-- inodes or of slots that was asked for is not 0, and was not asked for together with a percentage;
-- and if the file does not exist, a size that was asked for is at least 10 megabytes.
pub check_options-Ensures :
    (args : Arguments) (file : FileKind) → Ensures (IsChecked args file) (check_options args file)
unfolding check_options
check_options-Ensures args file = bind-Ensures (check_flags-Ensures args.flags) (λ need_file valid.
    bind-Ensures (check_size-Ensures args) (λ size large.
      bind-Ensures (check_percentage-Ensures args) (λ percentage part.
        bind-Ensures (check_num-Ensures args.flags opt_i args.str_sinodes_num) (λ sinodes si.
          bind-Ensures (check_num-Ensures args.flags opt_s args.str_slots_num) (λ slots sl.
            let options : Options = record {
              flags = args.flags;
              size = size;
              percentage = percentage;
              sinodes_num = sinodes;
              slots_num = slots;
            } in
            let keep : (checked : Options)
                → checked.percentage ≡ options.percentage
                → checked.sinodes_num ≡ options.sinodes_num
                → checked.slots_num ≡ options.slots_num
                → (is_missing file ≡ true → checked.size ≡ options.size)
                → IsChecked args file checked =
              λ checked p i s z. record {
                percentage_from = omega (arith, part.0);
                percentage_to = omega (arith, part.1);
                sinodes_asked = λ a. omega (arith, si a);
                slots_asked = λ a. omega (arith, sl a);
                size_asked = λ m a. omega (arith, z m, large a);
                not_sinodes_too = (invalid_both args.flags valid).0;
                not_slots_too = (invalid_both args.flags valid).1;
              } in
            bind-Ensures
              (if_Ensures need_file (λ _. check_file-Ensures args file options keep)
                (λ _. ensured options (keep options refl refl refl (λ _. refl))))
              (λ checked ok.
                if_Ensures (any checked.flags mkfs_create_file && not (any checked.flags opt_d))
                  (λ _. when_returns (negsuc 0)) (λ _. ensured checked ok)))))))
