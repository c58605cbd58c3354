-- ===== src/Mkfs/Numbers.antt =====
-- `validate_size` and `validate_num` of fs/kfs_mkfs.c. A text is the list of its characters.
use kanekfs.Base.{
  ℕ, ◌+◌, ◌-◌, ◌*◌, ◌^◌, min, List, [], ◌∷◌, Bool, true, not, ◌&&◌, ◌||◌, leb, ◌==◌, u64,
  if◌then◌else◌,
}
use kanekfs.Disk.Layout.{one_megabyte, one_gigabyte}

abbrev pub isdigit : ℕ → Bool
isdigit c = leb 48 c && leb c 57

abbrev pub isalpha : ℕ → Bool
isalpha c = leb 65 c && leb c 90 || leb 97 c && leb c 122

abbrev pub toupper : ℕ → ℕ
toupper c = if leb 97 c && leb c 122 then c - 32 else c

-- `strtoul( text, &ptr, 10)` of a text that starts with no blank or sign: the digits up to the
-- first other character, and no more than ULONG_MAX.
unfoldable pub digits_from : ℕ → List ℕ → ℕ
digits_from value [] = value
digits_from value (c ∷ text) =
    let rest = digits_from (min (value * 10 + (c - 48)) (2 ^ 64 - 1)) text in
    if isdigit c then rest else value

abbrev pub strtoul : List ℕ → ℕ
strtoul text = digits_from 0 text

-- The loop over all characters but the last, and the last.
unfoldable pub all_digits : List ℕ → Bool
all_digits [] = true
all_digits (c ∷ text) = isdigit c && all_digits text

unfoldable pub digits_but_last : List ℕ → Bool
digits_but_last [] = true
digits_but_last (c ∷ []) = true
digits_but_last (c ∷ d ∷ text) = isdigit c && digits_but_last (d ∷ text)

-- `str_size[i]` after the loop; the NUL of an empty text.
unfoldable pub last_char : List ℕ → ℕ
last_char [] = 0
last_char (c ∷ []) = c
last_char (c ∷ d ∷ text) = last_char (d ∷ text)

unfoldable pub validate_size : List ℕ → ℕ
validate_size str_size =
    let last = last_char str_size in
    if not (digits_but_last str_size)
    then 0
    else if isdigit last
    then strtoul str_size
    else if isalpha last
    then (if toupper last == 77
        then u64 (strtoul str_size * one_megabyte)
        else if toupper last == 71
        then u64 (strtoul str_size * one_gigabyte)
        else 0)
    else 0

unfoldable pub validate_num : List ℕ → ℕ
validate_num str_size = if all_digits str_size then strtoul str_size else 0
