-- ===== src/Config.antt =====
-- `kfs_config_read`, of fs/kfs_config.c and, the same text, of fs/kfs_io.c. A string is the list of
-- its characters without the NUL, and a file the list of its characters.
pub mod Lines
pub mod Words
pub mod Trim
pub mod Settings
pub mod Cycle
use Prim.Native.Char.{code}
use Prim.Native.String.{String}
use kanekfs.Base.{
  ℕ, zero, suc, ◌-◌, ◌^◌, ℤ, pos, negsuc, List, [], ◌∷◌, Bool, true, false, ◌==◌, ltb, leb, ◌||◌,
  Option, none, some, if◌then◌else◌,
}
use kanekfs.Map.Bitmap.{◌>>=◌}
use kanekfs.Text.{isspace, trim}
use kanekfs.Mkfs.Numbers.{digits_from}

-- The codes of a literal.
abbrev pub codes : String → List ℕ
codes String.[] = []
codes (String.◌∷◌ c s) = code c ∷ codes s

-- `KFS_FILENAME_LEN`
abbrev pub kfs_filename_len : ℕ
kfs_filename_len = 128

-- `kfs_config_t`. A token of a line is shorter than the arrays that it is copied to.
pub record Config : Type 0 where
  pub kfs_file : List ℕ
  pub pid_file : List ℕ
  pub sock_file : List ℕ
  pub cache_page_len : ℤ
  pub cache_ino_len : ℤ
  pub cache_path_len : ℤ
  pub cache_graph_len : ℤ
  pub threads_pool : ℤ
  pub max_clients : ℤ
  pub root_super_inode : ℤ
  pub sock_buffer_size : ℤ

-- After `memset( conf, 0, sizeof( kfs_config_t))`.
abbrev pub empty_config : Config
empty_config = record {
  kfs_file = [];
  pid_file = [];
  sock_file = [];
  cache_page_len = pos 0;
  cache_ino_len = pos 0;
  cache_path_len = pos 0;
  cache_graph_len = pos 0;
  threads_pool = pos 0;
  max_clients = pos 0;
  root_super_inode = pos 0;
  sock_buffer_size = pos 0;
}

-- The first line counts if it has a character.
abbrev pub started : List ℕ × List (List ℕ) → List (List ℕ)
started ([], lines) = lines
started (c ∷ line, lines) = (c ∷ line) ∷ lines

-- A line of `fgets` and those after it, where `left` more characters fit into the buffer.
unfoldable pub fgets_from : ℕ → List ℕ → List ℕ × List (List ℕ)
fgets_from left [] = ([], [])
fgets_from left (c ∷ text) =
    let is_last = c == 10 || leb left 1 in
    let more = fgets_from (if is_last then kfs_filename_len - 1 else left - 1) text in
    if is_last then (c ∷ [], started more) else (c ∷ more.0, more.1)

-- What the calls of `fgets` give until they return NULL.
unfoldable pub fgets_lines : List ℕ → List (List ℕ)
fgets_lines text = started (fgets_from (kfs_filename_len - 1) text)

-- A buffer as a string, up to the first NUL.
unfoldable pub until_nul : List ℕ → List ℕ
until_nul [] = []
until_nul (c ∷ s) = let rest = until_nul s in if c == 0 then [] else c ∷ rest

-- `strtok` with the delimiters " =": the token, and where the next call goes on.
abbrev pub is_delim : ℕ → Bool
is_delim c = c == 32 || c == 61

unfoldable pub skip_delims : List ℕ → List ℕ
skip_delims [] = []
skip_delims (c ∷ s) = let rest = skip_delims s in if is_delim c then rest else c ∷ s

unfoldable pub take_token : List ℕ → List ℕ × List ℕ
take_token [] = ([], [])
take_token (c ∷ s) =
    let (token, rest) = take_token s in if is_delim c then ([], s) else (c ∷ token, rest)

unfoldable pub strtok : List ℕ → Option (List ℕ × List ℕ)
strtok s = elim (skip_delims s) [ [] ↦ none | c ∷ rest ↦ some (take_token (c ∷ rest)) ]

-- `strcmp( s, t) == 0`
unfoldable pub equal : List ℕ → List ℕ → Bool
equal [] [] = true
equal [] (d ∷ t) = false
equal (c ∷ s) [] = false
equal (c ∷ s) (d ∷ t) = let rest = equal s t in if c == d then rest else false

unfoldable pub skip_spaces : List ℕ → List ℕ
skip_spaces [] = []
skip_spaces (c ∷ s) = let rest = skip_spaces s in if isspace c then rest else c ∷ s

abbrev pub negative : ℕ → ℤ
negative zero = pos 0
negative (suc n) = negsuc n

-- An `int`; `atoi` of a number outside of its range is not defined, `none`.
abbrev pub to_int : Bool → ℕ → Option ℤ
to_int true n = if leb n (2 ^ 31) then some (negative n) else none
to_int false n = if ltb n (2 ^ 31) then some (pos n) else none

unfoldable pub signed : List ℕ → Option ℤ
signed [] = some (pos 0)
signed (c ∷ s) =
    if c == 45
    then to_int true (digits_from 0 s)
    else if c == 43
    then to_int false (digits_from 0 s)
    else to_int false (digits_from 0 (c ∷ s))

unfoldable pub atoi : List ℕ → Option ℤ
atoi text = signed (skip_spaces text)

-- The chain of `strcmp`. The inner `none` is an unknown key.
unfoldable pub set_value : List ℕ → List ℕ → Config → Option (Option Config)
set_value key value conf =
    if equal key (codes "kfs_file")
    then some (some (record conf { kfs_file = value }))
    else if equal key (codes "pid_file")
    then some (some (record conf { pid_file = value }))
    else if equal key (codes "sock_file")
    then some (some (record conf { sock_file = value }))
    else if equal key (codes "cache_page_len")
    then (do n ← atoi value; some (some (record conf { cache_page_len = n })))
    else if equal key (codes "cache_ino_len")
    then (do n ← atoi value; some (some (record conf { cache_ino_len = n })))
    else if equal key (codes "cache_path_len")
    then (do n ← atoi value; some (some (record conf { cache_path_len = n })))
    else if equal key (codes "cache_graph_len")
    then (do n ← atoi value; some (some (record conf { cache_graph_len = n })))
    else if equal key (codes "threads_pool")
    then (do n ← atoi value; some (some (record conf { threads_pool = n })))
    else if equal key (codes "sock_buffer_size")
    then (do n ← atoi value; some (some (record conf { sock_buffer_size = n })))
    else if equal key (codes "root_super_inode")
    then (do n ← atoi value; some (some (record conf { root_super_inode = n })))
    else if equal key (codes "max_clients")
    then (do n ← atoi value; some (some (record conf { max_clients = n })))
    else some none

abbrev pub starts_by : ℕ → List ℕ → Bool
starts_by c [] = false
starts_by c (d ∷ s) = d == c

-- The key and the value of a line, if it has both.
unfoldable pub key_value : List ℕ → Config → Option (Option Config)
key_value line conf = elim (strtok line) [
  | none ↦ some (some conf)
  | some (key, rest) ↦ elim (strtok rest) [
    | none ↦ some (some conf)
    | some (value, rest') ↦ set_value key value conf
  ]
]

-- One round of the loop.
unfoldable pub read_line : List ℕ → Config → Option (Option Config)
read_line buff conf = if starts_by 10 buff then some (some conf) else (do
  line ← trim (until_nul buff)
  if starts_by 35 line then some (some conf) else key_value line conf)

-- An unknown key ends the loop.
abbrev pub go_on :
    Option (Option Config) → Config → (Config → Option (ℤ × Config)) → Option (ℤ × Config)
go_on none conf k = none
go_on (some none) conf k = some (negsuc 0, conf)
go_on (some (some conf')) conf k = k conf'

unfoldable pub read_lines : List (List ℕ) → Config → Option (ℤ × Config)
read_lines [] conf = some (pos 0, conf)
read_lines (buff ∷ lines) conf = go_on (read_line buff conf) conf (read_lines lines)

-- A file that cannot be opened is `none`.
unfoldable pub kfs_config_read : Option (List ℕ) → Option (ℤ × Config)
kfs_config_read none = some (negsuc 0, empty_config)
kfs_config_read (some text) = read_lines (fgets_lines text) empty_config
