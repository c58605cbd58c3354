-- ===== src/Config/Lines.antt =====
-- The lines of a file, as the calls of `fgets` in kfs_config_read of fs/kfs_config.c give them.
use kanekfs.Base.{
  ℕ, ◌-◌, ◌<◌, List, [], ◌∷◌, ◌++◌, Bool, true, false, not, ◌==◌, leb, ◌&&◌, ◌≡◌, refl, ap, arith,
  length,
}
use kanekfs.Config.{started, fgets_from, fgets_lines, until_nul}

-- Without a newline and a NUL.
abbrev pub is_plain : ℕ → Bool
is_plain c = not (c == 10) && not (c == 0)

abbrev pub IsPlain : List ℕ → Type 0
IsPlain [] = Unit
IsPlain (c ∷ s) = (is_plain c ≡ true) × IsPlain s

pub append-IsPlain : (s t : List ℕ) → IsPlain s → IsPlain t → IsPlain (s ++ t)
append-IsPlain [] t p q = q
append-IsPlain (c ∷ s) t p q = (p.0, append-IsPlain s t p.1 q)

fgets_from-line :
    (line text : List ℕ) (left : ℕ)
    → IsPlain line
    → length line < left
    → fgets_from left (line ++ 10 ∷ text) ≡ (line ++ 10 ∷ [], fgets_lines text)
unfolding fgets_from fgets_lines
fgets_from-line [] text left p h = refl
fgets_from-line (c ∷ line) text left p h =
    let other : (c == 10) ≡ false = ground (arith, p.0) in
    let more : leb left 1 ≡ false = ground arith in
    rw (other, more, fgets_from-line line text (left - 1) p.1 (omega arith)) refl

-- A line that fits into the buffer is the first, and the lines of the rest follow it.
pub fgets_lines-line :
    (line text : List ℕ)
    → IsPlain line
    → length line < 127
    → fgets_lines (line ++ 10 ∷ text) ≡ (line ++ 10 ∷ []) ∷ fgets_lines text
unfolding fgets_lines
fgets_lines-line [] text p h = ap started (fgets_from-line [] text 127 p h)
fgets_lines-line (c ∷ line) text p h =
    rw (fgets_lines, fgets_from-line (c ∷ line) text 127 p h) refl

-- Such a line is a string up to its end.
pub until_nul-line : (line : List ℕ) → IsPlain line → until_nul (line ++ 10 ∷ []) ≡ line ++ 10 ∷ []
unfolding until_nul
until_nul-line [] p = refl
until_nul-line (c ∷ line) p =
    let other : (c == 0) ≡ false = ground (arith, p.0) in rw (other, until_nul-line line p.1) refl
