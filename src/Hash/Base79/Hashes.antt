-- ===== src/Hash/Base79/Hashes.antt =====
-- `hash_b79` as a number in base 79: its order is that of the words, and clean words of at most ten
-- characters do not collide.
use native.Mathlib.Nat.{pow-le-pow_right}
use kanekfs.Base.{
  ℕ, zero, suc, ◌+◌, ◌*◌, ◌≤◌, ◌<◌, pos, List, [], ◌∷◌, true, ltb, u64, ◌≡◌, ◌≢◌, refl, sym, ap,
  ◌∙◌, arith, inl, inr, ◌↔◌, get_or, length, Bool-cases, if◌then◌else◌,
}
use kanekfs.Hash.Base79.{strlen, code_at, hash_loop, hash_b79}
use kanekfs.Hash.Base79.Codes.{
  is_clean, decode, code, ascii_2_mx79-code, code-lt, code-zero, decode-code,
}
use kanekfs.Hash.Base79.Words.{value, Before, value-Before, Before-value, value-lt, value-digits}

-- A string of ASCII characters.
abbrev pub IsAscii : List ℕ → Type 0
IsAscii s = (i : ℕ) → i < strlen s → get_or s i 0 < 128

-- The digit at place `i`: the code of the character, or 0 past the end.
abbrev pub digit79 : List ℕ → ℕ → ℕ
digit79 s i = if ltb i (strlen s) then code (get_or s i 0) else 0

digit79-lt : (s : List ℕ) → IsAscii s → (i : ℕ) → digit79 s i < 79
digit79-lt s ascii i = elim (Bool-cases (ltb i (strlen s))) [
  | inl inside ↦ rw inside (code-lt (get_or s i 0) (ascii i (ground arith)))
  | inr past ↦ rw past (omega arith)
]

code_at-digit79 : (s : List ℕ) → IsAscii s → (i : ℕ) → code_at s i ≡ pos (digit79 s i)
code_at-digit79 s ascii i = elim (Bool-cases (ltb i (strlen s))) [
  | inl inside ↦
      let small = ascii i (ground arith) in
      let plain : ltb (get_or s i 0) 128 ≡ true = ground arith in
      rw (inside, plain) (ascii_2_mx79-code (get_or s i 0) small)
  | inr past ↦ rw past refl
]

value-next : (f : ℕ → ℕ) (i h : ℕ) → h ≡ value f i * 79 + f i → h ≡ value f (i + 1)
unfolding value
value-next f i h e = let z : i + 1 ≡ suc i = omega arith in rw z e

hash_loop-value :
    (s : List ℕ)
    → IsAscii s
    → (rounds i h : ℕ) → i + rounds ≤ 10
    → h ≡ value (digit79 s) i
    → hash_loop rounds i s h ≡ value (digit79 s) (i + rounds)
unfolding hash_loop
hash_loop-value s ascii zero i h l e = let z : i + 0 ≡ i = omega arith in rw z e
hash_loop-value s ascii (suc rounds) i h l e =
    let z : i + suc rounds ≡ i + 1 + rounds = omega arith in
    let low = value-lt (digit79 s) (digit79-lt s ascii) i in
    let most = pow-le-pow_right {n = 79} (omega arith) {i = i} {j = 9} (omega arith) in
    let small = digit79-lt s ascii i in
    rw (z, code_at-digit79 s ascii i)
      (hash_loop-value s ascii rounds (i + 1) (u64 (u64 (h * 79) + digit79 s i)) (omega arith) (
        value-next (digit79 s) i (u64 (u64 (h * 79) + digit79 s i))
          (omega (arith, e, low, most, small))))

pub hash_b79-value : (s : List ℕ) → IsAscii s → hash_b79 s ≡ value (digit79 s) 10
unfolding hash_b79
hash_b79-value s ascii = hash_loop-value s ascii 10 0 0 (omega arith) (unfold value in refl)

module _ (s t : List ℕ) (ascii_s : IsAscii s) (ascii_t : IsAscii t) where
  -- For ASCII strings, `hash_b79` puts `s` before `t` exactly when, at the first of the first ten
  -- places where their codes differ, the code in `s` is the smaller one.
  pub hash_b79-Before : (hash_b79 s < hash_b79 t) ↔ Before (digit79 s) (digit79 t) 10
  hash_b79-Before =
      let small_s = digit79-lt s ascii_s in
      let small_t = digit79-lt t ascii_t in
      rw (hash_b79-value s ascii_s, hash_b79-value t ascii_t)
        (
          value-Before (digit79 s) (digit79 t) small_s small_t 10,
          Before-value (digit79 s) (digit79 t) small_s small_t 10,
        )

-- A word: at most ten clean characters.
pub record IsWord (s : List ℕ) : Type 0 where
  pub short : length s ≤ 10
  pub all_clean : (i : ℕ) → i < length s → is_clean (get_or s i 0) ≡ true

clean-ascii : (c : ℕ) → is_clean c ≡ true → c < 128
clean-ascii c h = ground arith

clean-not_nul : (c : ℕ) → is_clean c ≡ true → 0 < c
clean-not_nul c h = ground arith

abbrev AllClean : List ℕ → Type 0
AllClean s = (i : ℕ) → i < length s → is_clean (get_or s i 0) ≡ true

strlen-length : (s : List ℕ) → AllClean s → strlen s ≡ length s
unfolding strlen
strlen-length [] h = refl
strlen-length (c ∷ s) h =
    let some_char = clean-not_nul c (h 0 (omega arith)) in
    ground (arith, strlen-length s (λ i l. h (suc i) (omega arith)))

word-IsAscii : (s : List ℕ) → AllClean s → IsAscii s
word-IsAscii s h i l = clean-ascii (get_or s i 0) (h i (omega (arith, strlen-length s h)))

same_char : (c d : ℕ) → is_clean c ≡ true → is_clean d ≡ true → code c ≡ code d → c ≡ d
same_char c d h l e = sym (decode-code c h) ∙ ap (λ (n : ℕ). decode n) e ∙ decode-code d l

never_zero : (c : ℕ) → is_clean c ≡ true → code c ≢ 0
never_zero c h e = absurd (omega (arith, code-zero c (clean-not_nul c h) (clean-ascii c h)))

-- The digits read along the list.
digit_of : List ℕ → ℕ → ℕ
digit_of s i = if ltb i (length s) then code (get_or s i 0) else 0

same_words :
    (n : ℕ) (s t : List ℕ)
    → AllClean s
    → AllClean t
    → length s ≤ n
    → length t ≤ n
    → ((i : ℕ) → i < n → digit_of s i ≡ digit_of t i)
    → s ≡ t
unfolding digit_of
same_words n [] [] p q l m e = refl
same_words zero (c ∷ s) t p q l m e = absurd (omega arith)
same_words zero [] (d ∷ t) p q l m e = absurd (omega arith)
same_words (suc n) [] (d ∷ t) p q l m e =
    absurd (never_zero d (q 0 (omega arith)) (ground (arith, e 0 (omega arith))))
same_words (suc n) (c ∷ s) [] p q l m e =
    absurd (never_zero c (p 0 (omega arith)) (ground (arith, e 0 (omega arith))))
same_words (suc n) (c ∷ s) (d ∷ t) p q l m e =
    let first : c ≡ d =
      same_char c d (p 0 (omega arith)) (q 0 (omega arith)) (ground (arith, e 0 (omega arith))) in
    let rest =
      same_words n s t (λ i h. p (suc i) (omega arith)) (λ i h. q (suc i) (omega arith))
        (omega arith) (omega arith) (λ i h. ground (arith, e (suc i) (omega arith))) in
    rw (first, rest) refl

digit_of-digit79 : (s : List ℕ) → AllClean s → (i : ℕ) → digit_of s i ≡ digit79 s i
unfolding digit_of
digit_of-digit79 s h i = rw (strlen-length s h) refl

-- Two words of at most ten clean characters that have the same hash are the same word.
pub hash_b79-injective : (s t : List ℕ) → IsWord s → IsWord t → hash_b79 s ≡ hash_b79 t → s ≡ t
hash_b79-injective s t p q e =
    let ascii_s = word-IsAscii s p.all_clean in
    let ascii_t = word-IsAscii t q.all_clean in
    let same : value (digit79 s) 10 ≡ value (digit79 t) 10 =
      sym (hash_b79-value s ascii_s) ∙ e ∙ hash_b79-value t ascii_t in
    let digits =
      value-digits (digit79 s) (digit79 t) (digit79-lt s ascii_s) (digit79-lt t ascii_t) 10 same in
    same_words 10 s t p.all_clean q.all_clean p.short q.short (λ i h.
      digit_of-digit79 s p.all_clean i ∙ digits i h ∙ sym (digit_of-digit79 t q.all_clean i))
