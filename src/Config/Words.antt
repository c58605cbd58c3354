-- ===== src/Config/Words.antt =====
-- The tokens of a line of kfs_config_read, of fs/kfs_config.c.
use kanekfs.Base.{
  ℕ, suc, ◌<◌, List, [], ◌∷◌, ◌++◌, Bool, true, false, not, ◌==◌, ◌||◌, ◌≡◌, refl, arith, some,
  get_or, length, zero,
}
use kanekfs.Text.{isspace}
use kanekfs.Config.{is_delim, skip_delims, take_token, strtok}
use kanekfs.Config.Lines.{is_plain, IsPlain}

-- A character that can be part of a key or a value.
abbrev pub is_clean : ℕ → Bool
is_clean c = not (isspace c || c == 61 || c == 0)

abbrev pub IsClean : List ℕ → Type 0
IsClean [] = Unit
IsClean (c ∷ s) = (is_clean c ≡ true) × IsClean s

plain_of_clean : (c : ℕ) → is_clean c ≡ true → is_plain c ≡ true
plain_of_clean c h = ground arith

pub word-IsPlain : (s : List ℕ) → IsClean s → IsPlain s
word-IsPlain [] h = tt
word-IsPlain (c ∷ s) h = (plain_of_clean c h.0, word-IsPlain s h.1)

pub clean_solid : (c : ℕ) → is_clean c ≡ true → isspace c ≡ false
clean_solid c h = ground arith

pub clean_no_delim : (c : ℕ) → is_clean c ≡ true → is_delim c ≡ false
clean_no_delim c h = ground arith

pub word_solid : (s : List ℕ) (k : ℕ) → IsClean s → k < length s → isspace (get_or s k 0) ≡ false
word_solid [] k h l = absurd (omega arith)
word_solid (c ∷ s) zero h l = clean_solid c h.0
word_solid (c ∷ s) (suc k) h l = word_solid s k h.1 (omega arith)

take_token-word : (s : List ℕ) → IsClean s → take_token s ≡ (s, [])
unfolding take_token
take_token-word [] h = refl
take_token-word (c ∷ s) h = rw (clean_no_delim c h.0, take_token-word s h.1) refl

take_token-append :
    (s : List ℕ) (d : ℕ) (t : List ℕ)
    → IsClean s
    → is_delim d ≡ true
    → take_token (s ++ d ∷ t) ≡ (s, t)
unfolding take_token
take_token-append [] d t h e = rw e refl
take_token-append (c ∷ s) d t h e = rw (clean_no_delim c h.0, take_token-append s d t h.1 e) refl

skip_delims-solid : (c : ℕ) (s : List ℕ) → is_clean c ≡ true → skip_delims (c ∷ s) ≡ c ∷ s
unfolding skip_delims
skip_delims-solid c s h = rw (clean_no_delim c h) refl

-- A word alone, behind an equals sign, and a word before a delimiter.
pub strtok-word :
    (c : ℕ) (s : List ℕ) → IsClean (c ∷ s) → strtok (61 ∷ 32 ∷ c ∷ s) ≡ some (c ∷ s, [])
unfolding strtok skip_delims
strtok-word c s h =
    let skipped : skip_delims (61 ∷ 32 ∷ c ∷ s) ≡ c ∷ s = skip_delims-solid c s h.0 in
    rw (strtok, skipped, take_token-word (c ∷ s) h) refl

pub strtok-append :
    (c : ℕ) (s t : List ℕ) → IsClean (c ∷ s) → strtok (c ∷ (s ++ 32 ∷ t)) ≡ some (c ∷ s, t)
unfolding strtok
strtok-append c s t h =
    rw (strtok, skip_delims-solid c (s ++ 32 ∷ t) h.0, take_token-append (c ∷ s) 32 t h refl) refl
