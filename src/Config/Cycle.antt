-- ===== src/Config/Cycle.antt =====
-- A printed configuration, and what kfs_config_read of fs/kfs_config.c reads from it.
use kanekfs.Base.{
  ℕ, zero, suc, ◌+◌, ◌/◌, ◌%◌, ◌^◌, ◌<◌, ℤ, pos, negsuc, List, [], ◌∷◌, Bool, true, false, not,
  ◌&&◌, ◌==◌, leb, ltb, ◌≡◌, refl, ◌∙◌, arith, some, length,
}
use kanekfs.Text.{isspace}
use kanekfs.Mkfs.Numbers.{isdigit, digits_from}
use kanekfs.Mkfs.Decimal.{decimal, strtoul-decimal}
use kanekfs.Config.{
  Config, codes, empty_config, skip_spaces, signed, atoi, to_int, set_value, starts_by, equal,
  kfs_config_read,
}
use kanekfs.Config.Words.{is_clean, IsClean}
use kanekfs.Config.Settings.{
  IsWord, IsKey, AreWords, print_settings, set_values, read_lines-settings,
}

-- An `int`, with ten digits.
abbrev pub print_int : ℤ → List ℕ
print_int (pos n) = decimal 10 n []
print_int (negsuc n) = 45 ∷ decimal 10 (suc n) []

abbrev pub IsInt : ℤ → Type 0
IsInt (pos n) = n < 2 ^ 31
IsInt (negsuc n) = n < 2 ^ 31

abbrev pub settings : Config → List (List ℕ × List ℕ)
settings conf =
    (codes "kfs_file", conf.kfs_file)
    ∷ (codes "sock_file", conf.sock_file)
    ∷ (codes "pid_file", conf.pid_file)
    ∷ (codes "cache_page_len", print_int conf.cache_page_len)
    ∷ (codes "cache_ino_len", print_int conf.cache_ino_len)
    ∷ (codes "cache_graph_len", print_int conf.cache_graph_len)
    ∷ (codes "cache_path_len", print_int conf.cache_path_len)
    ∷ (codes "max_clients", print_int conf.max_clients)
    ∷ (codes "threads_pool", print_int conf.threads_pool)
    ∷ (codes "root_super_inode", print_int conf.root_super_inode)
    ∷ (codes "sock_buffer_size", print_int conf.sock_buffer_size)
    ∷ []

-- The names of the files are words, and the numbers are of the type `int`.
pub record IsPrintable (conf : Config) : Type 0 where
  pub kfs_file_word : IsWord conf.kfs_file
  pub pid_file_word : IsWord conf.pid_file
  pub sock_file_word : IsWord conf.sock_file
  pub cache_page_len_int : IsInt conf.cache_page_len
  pub cache_ino_len_int : IsInt conf.cache_ino_len
  pub cache_path_len_int : IsInt conf.cache_path_len
  pub cache_graph_len_int : IsInt conf.cache_graph_len
  pub threads_pool_int : IsInt conf.threads_pool
  pub max_clients_int : IsInt conf.max_clients
  pub root_super_inode_int : IsInt conf.root_super_inode
  pub sock_buffer_size_int : IsInt conf.sock_buffer_size

clean_digit : (n : ℕ) → is_clean (48 + n % 10) ≡ true
clean_digit n = ground arith

decimal-IsClean : (width n : ℕ) (text : List ℕ) → IsClean text → IsClean (decimal width n text)
unfolding decimal
decimal-IsClean zero n text h = h
decimal-IsClean (suc width) n text h =
    decimal-IsClean width (n / 10) ((48 + n % 10) ∷ text) (clean_digit n, h)

length-decimal : (width n : ℕ) (text : List ℕ) → length (decimal width n text) ≡ width + length text
unfolding decimal
length-decimal zero n text = omega arith
length-decimal (suc width) n text =
    length-decimal width (n / 10) ((48 + n % 10) ∷ text) ∙ omega arith

print_int-IsWord : (z : ℤ) → IsWord (print_int z)
print_int-IsWord (pos n) =
    let len : length (decimal 10 n []) ≡ 10 = length-decimal 10 n [] in
    (omega (arith, len), omega (arith, len), decimal-IsClean 10 n [] tt)
print_int-IsWord (negsuc n) =
    let len : length (decimal 10 (suc n) []) ≡ 10 = length-decimal 10 (suc n) [] in
    (omega (arith, len), omega (arith, len), (refl, decimal-IsClean 10 (suc n) [] tt))

digit_starts :
    (c : ℕ) → isdigit c ≡ true → (isspace c ≡ false) × ((c == 45) ≡ false) × ((c == 43) ≡ false)
digit_starts c h = (ground arith, ground arith, ground arith)

-- Digits in front of a digit.
atoi-digit :
    (c : ℕ) (s : List ℕ) → isdigit c ≡ true → atoi (c ∷ s) ≡ to_int false (digits_from 0 (c ∷ s))
unfolding atoi skip_spaces signed
atoi-digit c s h =
    let (space, minus, plus) = digit_starts c h in
    rw (atoi, skip_spaces, space, signed, minus, plus) refl

digit_is : (n : ℕ) → isdigit (48 + n % 10) ≡ true
digit_is n = ground arith

atoi-decimal :
    (width n c : ℕ) (s : List ℕ)
    → isdigit c ≡ true
    → atoi (decimal width n (c ∷ s)) ≡ to_int false (digits_from 0 (decimal width n (c ∷ s)))
unfolding decimal
atoi-decimal zero n c s h = atoi-digit c s h
atoi-decimal (suc width) n c s h = atoi-decimal width (n / 10) (48 + n % 10) (c ∷ s) (digit_is n)

atoi-print_int : (z : ℤ) → IsInt z → atoi (print_int z) ≡ some z
unfolding atoi signed skip_spaces decimal digits_from
atoi-print_int (pos n) h =
    let value : digits_from 0 (decimal 10 n []) ≡ n =
      strtoul-decimal 10 n [] (omega arith) (omega arith) in
    let small : ltb n (2 ^ 31) ≡ true = ground arith in
    atoi-decimal 9 (n / 10) (48 + n % 10) [] (digit_is n) ∙ rw (value, small) refl
atoi-print_int (negsuc n) h =
    let value : digits_from 0 (decimal 10 (suc n) []) ≡ suc n =
      strtoul-decimal 10 (suc n) [] (omega arith) (omega arith) in
    let small : leb (suc n) (2 ^ 31) ≡ true = ground arith in rw (value, small) refl

all_clean : List ℕ → Bool
all_clean [] = true
all_clean (c ∷ s) = is_clean c && all_clean s

-- A literal that can be a key.
is_key : List ℕ → Bool
unfolding all_clean
is_key s = leb 1 (length s) && leb (length s) 60 && all_clean s && not (starts_by 35 s)

all_clean-IsClean : (s : List ℕ) → all_clean s ≡ true → IsClean s
unfolding all_clean
all_clean-IsClean [] h = tt
all_clean-IsClean (c ∷ s) h = (ground arith, all_clean-IsClean s (ground arith))

literal-IsKey : (s : List ℕ) → is_key s ≡ true → IsKey s
unfolding is_key
literal-IsKey s h = ((ground arith, ground arith, all_clean-IsClean s (ground arith)), ground arith)

settings-AreWords : (conf : Config) → IsPrintable conf → AreWords (settings conf)
unfolding is_key all_clean
settings-AreWords conf p = (
  literal-IsKey (codes "kfs_file") refl,
  p.kfs_file_word,
  (
    literal-IsKey (codes "sock_file") refl,
    p.sock_file_word,
    (
      literal-IsKey (codes "pid_file") refl,
      p.pid_file_word,
      (
        literal-IsKey (codes "cache_page_len") refl,
        print_int-IsWord conf.cache_page_len,
        (
          literal-IsKey (codes "cache_ino_len") refl,
          print_int-IsWord conf.cache_ino_len,
          (
            literal-IsKey (codes "cache_graph_len") refl,
            print_int-IsWord conf.cache_graph_len,
            (
              literal-IsKey (codes "cache_path_len") refl,
              print_int-IsWord conf.cache_path_len,
              (
                literal-IsKey (codes "max_clients") refl,
                print_int-IsWord conf.max_clients,
                (
                  literal-IsKey (codes "threads_pool") refl,
                  print_int-IsWord conf.threads_pool,
                  (
                    literal-IsKey (codes "root_super_inode") refl,
                    print_int-IsWord conf.root_super_inode,
                    (
                      literal-IsKey (codes "sock_buffer_size") refl,
                      print_int-IsWord conf.sock_buffer_size,
                      tt,
                    ),
                  ),
                ),
              ),
            ),
          ),
        ),
      ),
    ),
  ),
)

set_values-settings :
    (conf : Config)
    → IsPrintable conf
    → set_values (settings conf) empty_config ≡ some (pos 0, conf)
unfolding set_values set_value equal
set_values-settings conf p =
    rw
      (
        atoi-print_int conf.cache_page_len p.cache_page_len_int,
        atoi-print_int conf.cache_ino_len p.cache_ino_len_int,
        atoi-print_int conf.cache_graph_len p.cache_graph_len_int,
        atoi-print_int conf.cache_path_len p.cache_path_len_int,
        atoi-print_int conf.max_clients p.max_clients_int,
        atoi-print_int conf.threads_pool p.threads_pool_int,
        atoi-print_int conf.root_super_inode p.root_super_inode_int,
        atoi-print_int conf.sock_buffer_size p.sock_buffer_size_int,
      )
      refl

-- A configuration whose file names are words of at most 60 characters, without white space, an
-- equals sign or a NUL, and whose numbers are of the type `int`, is read back by `kfs_config_read`,
-- with the result 0, from a file with a line `key = value` for each of its fields.
pub kfs_config_read-print_settings :
    (conf : Config)
    → IsPrintable conf
    → kfs_config_read (some (print_settings (settings conf))) ≡ some (pos 0, conf)
unfolding kfs_config_read
kfs_config_read-print_settings conf p =
    read_lines-settings (settings conf) empty_config (settings-AreWords conf p)
    ∙ set_values-settings conf p
