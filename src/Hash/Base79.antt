-- ===== src/Hash/Base79.antt =====
-- `ascii_2_mx79` and `hash_b79` of fs/hash.c. A string is the list of its bytes; it ends at a byte
-- 0 or at the end of the list. `char` is signed.
pub mod Codes
pub mod Words
pub mod Hashes
use kanekfs.Base.{
  ℕ, zero, suc, ◌+◌, ◌-◌, ◌*◌, ◌^◌, ℤ, pos, negsuc, List, [], ◌∷◌, Bool, false, ◌==◌, ltb, leb, u64,
  ◌&&◌, get_or, if◌then◌else◌,
}

-- `hb79_r_t`
pub record Range : Type 0 where
  pub lim : ℕ
  pub val : ℕ
  pub flag : ℕ

abbrev range : ℕ → ℕ → ℕ → Range
range l v f = record { lim = l; val = v; flag = f }

abbrev pub hb79_r : List Range
hb79_r =
    range 1 0 0
    ∷ range 0x20 1 0
    ∷ range 0x22 2 1
    ∷ range 0x28 4 0
    ∷ range 0x2a 5 1
    ∷ range 0x2d 7 0
    ∷ range 0x3a 8 1
    ∷ range 0x41 21 0
    ∷ range 0x5b 22 1
    ∷ range 0x5e 48 0
    ∷ range 0x61 49 0
    ∷ range 0x7b 50 1
    ∷ range 0x7d 76 0
    ∷ range 0x7f 77 0
    ∷ range 256 78 0
    ∷ range 0 0 0
    ∷ []

-- The loop over the ranges, the one before ending at `liminf`.
unfoldable pub range_loop : List Range → ℕ → ℤ → ℤ
range_loop ranges liminf (negsuc c) = negsuc 0
range_loop [] liminf (pos c) = negsuc 0
range_loop (r ∷ rest) liminf (pos c) =
    let later = range_loop rest r.lim (pos c) in
    if r.lim == 0
    then negsuc 0
    else if leb liminf c && ltb c r.lim
    then (if r.flag == 0 then pos r.val else pos (c - liminf + r.val))
    else later

unfoldable pub ascii_2_mx79 : ℤ → ℤ
ascii_2_mx79 c = range_loop hb79_r 0 c

unfoldable pub strlen : List ℕ → ℕ
strlen [] = 0
strlen (c ∷ s) = let rest = strlen s in if c == 0 then 0 else suc rest

-- A `char` read into an `int`.
abbrev pub char_int : ℕ → ℤ
char_int byte = if ltb byte 128 then pos byte else negsuc (255 - byte)

-- `h += cc`, of a `uint64_t` and an `int`.
abbrev pub add_int : ℕ → ℤ → ℕ
add_int h (pos n) = u64 (h + n)
add_int h (negsuc n) = u64 (h + (2 ^ 64 - 1 - n))

-- `cc` at place `i`.
abbrev pub code_at : List ℕ → ℕ → ℤ
code_at s i = if ltb i (strlen s) then ascii_2_mx79 (char_int (get_or s i 0)) else pos 0

unfoldable pub hash_loop : ℕ → ℕ → List ℕ → ℕ → ℕ
hash_loop zero i s h = h
hash_loop (suc rounds) i s h = hash_loop rounds (i + 1) s (add_int (u64 (h * 79)) (code_at s i))

unfoldable pub hash_b79 : List ℕ → ℕ
hash_b79 s = hash_loop 10 0 s 0
