-- ===== src/Tests/Texts.antt =====
-- fs/utils.c on short strings.
use kanekfs.Base.{
  ℕ, suc, List, [], ◌∷◌, none, some, ◌≡◌, ◌⊎◌, refl, ◌+◌, ltb, leb, ◌&&◌, if◌then◌else◌, take, drop,
  length,
}
use kanekfs.Text.{right_loop, left_loop, strcpy_down, trim}
use kanekfs.Text.Trimmed.{IsBlank, IsTrimmed, trim-IsTrimmed}

-- "a b\n"
abbrev line : List ℕ
line = 97 ∷ 32 ∷ 98 ∷ 10 ∷ []

trimmed : trim line ≡ some (97 ∷ 32 ∷ 98 ∷ [])
unfolding trim right_loop left_loop strcpy_down
trimmed = refl

-- " a b\n" and "  a"
overlapping : trim (32 ∷ line) ≡ none
unfolding trim right_loop left_loop strcpy_down
overlapping = refl

apart : trim (32 ∷ 32 ∷ 97 ∷ []) ≡ some (97 ∷ [])
unfolding trim right_loop left_loop strcpy_down
apart = refl

empty : trim [] ≡ none
unfolding trim right_loop
empty = refl

trim-IsTrimmed_example :
    (trim line ≡ none) × IsBlank line 0 (length line)
    ⊎ ((i : ℕ) × (e : ℕ) × (trim line
          ≡ (if ltb 0 i && leb (i + i) (suc e) then none else some (drop i (take (suc e) line))))
        × IsTrimmed line i e)
trim-IsTrimmed_example = trim-IsTrimmed line
