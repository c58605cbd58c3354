-- ===== src/Text.antt =====
-- `trim` of fs/utils.c, which the configuration applies to each line. A string is the list of its
-- characters without the NUL. A read before its start is a fault, `none`.
pub mod Trimmed
use kanekfs.Base.{
  ℕ, zero, suc, ◌+◌, ◌-◌, List, Option, none, some, Bool, ◌==◌, ltb, leb, ◌&&◌, ◌||◌, get_elem?,
  get_or, take, drop, length, if◌then◌else◌,
}
use kanekfs.Map.Bitmap.{◌>>=◌}

-- In the C locale.
abbrev pub isspace : ℕ → Bool
isspace c = leb 9 c && leb c 13 || c == 32

-- The first loop: `s2 + 1 - s` at its end. It reads `*s2` before it tests `s2 >= s1`.
unfoldable pub right_loop : ℕ → List ℕ → Option ℕ
right_loop zero s = none
right_loop (suc n) s = do
  let further = right_loop n s
  c ← get_elem? s n
  if isspace c then further else some (suc n)

-- The second loop, with rounds to spare: `s1 - s` at its end.
unfoldable pub left_loop : ℕ → ℕ → List ℕ → ℕ → ℕ
left_loop zero s1 s s2 = s1
left_loop (suc rounds) s1 s s2 =
    let further = left_loop rounds (s1 + 1) s s2 in
    if isspace (get_or s s1 0) && ltb s1 s2 then further else s1

-- `strcpy( s, s1)`, where `s1` is `i` characters into `s`: a copy between areas that overlap is not
-- defined, `none`. At `i = 0` every character is copied onto itself, and at more than the length of
-- the text that is copied its NUL included the areas are apart.
unfoldable pub strcpy_down : ℕ → List ℕ → Option (List ℕ)
strcpy_down i s = let text = drop i s in if ltb 0 i && leb i (length text) then none else some text

unfoldable pub trim : List ℕ → Option (List ℕ)
trim s = do
  e ← right_loop (length s) s
  let cut = take e s
  strcpy_down (left_loop e 0 cut (e - 1)) cut
