-- ===== src/Hash/Base79/Codes.antt =====
-- The table of fs/hash.c: the code of a character.
use kanekfs.Base.{
  ℕ, zero, suc, ◌+◌, ◌-◌, ◌≤◌, ◌<◌, ℤ, pos, negsuc, Bool, true, ◌≡◌, refl, ap, arith, ltb, leb,
  ◌==◌, inl, inr, Bool-cases, ◌&&◌, ◌||◌, if◌then◌else◌,
}
use kanekfs.Hash.Base79.{range_loop, ascii_2_mx79}

-- The characters that keep a code of their own: space, `!`, the parentheses, `-`, `.`, `/`, the
-- digits and the letters.
abbrev pub is_clean : ℕ → Bool
is_clean c =
    leb 0x20 c && ltb c 0x22
    || leb 0x28 c && ltb c 0x2a
    || leb 0x2d c && ltb c 0x3a
    || leb 0x41 c && ltb c 0x5b
    || leb 0x61 c && ltb c 0x7b

-- The clean character with a code.
abbrev pub decode : ℕ → ℕ
decode n =
    if ltb n 4
    then n + 0x1e
    else if ltb n 7
    then n + 0x23
    else if ltb n 21
    then n + 0x25
    else if ltb n 48
    then n + 0x2b
    else n + 0x2f

abbrev num : ℤ → ℕ
num (pos n) = n
num (negsuc n) = 0

-- The code of a character of the ASCII set, below 79; only NUL has the code 0; a clean character
-- is known from its code; and the order of the codes follows the order of the characters.
unfoldable pub code : ℕ → ℕ
code c = num (ascii_2_mx79 (pos c))

pub ascii_2_mx79-code : (c : ℕ) → c < 128 → ascii_2_mx79 (pos c) ≡ pos (code c)
unfolding ascii_2_mx79 range_loop code
ascii_2_mx79-code c h = ground arith

pub code-lt : (c : ℕ) → c < 128 → code c < 79
unfolding ascii_2_mx79 range_loop code
code-lt c h = ground arith

pub code-zero : (c : ℕ) → 0 < c → c < 128 → 0 < code c
unfolding ascii_2_mx79 range_loop code
code-zero c z h = ground arith

pub decode-code : (c : ℕ) → is_clean c ≡ true → decode (code c) ≡ c
unfolding ascii_2_mx79 range_loop code
decode-code c h = ground arith

unfoldable ascending : ℕ → Bool
ascending zero = true
ascending (suc c) = leb (code c) (code (suc c)) && ascending c

table-ascending : ascending 127 ≡ true
unfolding ascending code ascii_2_mx79 range_loop
table-ascending = refl

ascending-step : (n c : ℕ) → ascending n ≡ true → c < n → code c ≤ code (suc c)
unfolding ascending
ascending-step zero c h l = absurd (omega arith)
ascending-step (suc n) c h l = elim (Bool-cases (c == n)) [
  | inl here ↦
      let e : c ≡ n = ground arith in ground (arith, ap code e, ap (λ (t : ℕ). code (suc t)) e)
  | inr below ↦ ascending-step n c (ground arith) (ground arith)
]

code_step : (c : ℕ) → c + 1 < 128 → code c ≤ code (c + 1)
code_step c h =
    let e : c + 1 ≡ suc c = omega arith in
    omega (arith, ap code e, ascending-step 127 c table-ascending (omega arith))

code_mono : (c n : ℕ) → c + n < 128 → code c ≤ code (c + n)
code_mono c zero h = let z : c + 0 ≡ c = omega arith in rw z (omega arith)
code_mono c (suc n) h =
    let z : c + suc n ≡ c + n + 1 = omega arith in
    rw z (omega (arith, code_mono c n (omega arith), code_step (c + n) (omega arith)))

pub code-le : (c d : ℕ) → c ≤ d → d < 128 → code c ≤ code d
code-le c d h l =
    let e : c + (d - c) ≡ d = omega arith in
    omega (arith, code_mono c (d - c) (omega arith), ap code e)
