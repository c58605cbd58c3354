-- ===== src/Config/Trim.antt =====
-- `trim` of a line in kfs_config_read of fs/kfs_config.c.
use kanekfs.Base.{
  ℕ, zero, suc, ◌-◌, ◌≤◌, ◌<◌, List, [], ◌∷◌, ◌++◌, true, false, ◌≡◌, refl, sym, ap, ◌∙◌, arith,
  some, get_or, get_elem?-eq-get_or, take, length, length-append,
}
use kanekfs.Text.{isspace, right_loop, left_loop, strcpy_down, trim}

pub get_or-append_left :
    (xs ys : List ℕ) (k : ℕ) → k < length xs → get_or (xs ++ ys) k 0 ≡ get_or xs k 0
get_or-append_left [] ys k h = absurd (omega arith)
get_or-append_left (x ∷ xs) ys zero h = refl
get_or-append_left (x ∷ xs) ys (suc k) h = get_or-append_left xs ys k (omega arith)

pub get_or-append_right :
    (xs ys : List ℕ) (k : ℕ) → length xs ≤ k → get_or (xs ++ ys) k 0 ≡ get_or ys (k - length xs) 0
get_or-append_right [] ys k h = ap (λ (i : ℕ). get_or ys i 0) (omega arith)
get_or-append_right (x ∷ xs) ys zero h = absurd (omega arith)
get_or-append_right (x ∷ xs) ys (suc k) h =
    get_or-append_right xs ys k (omega arith) ∙ ap (λ (i : ℕ). get_or ys i 0) (omega arith)

take-append : (xs ys : List ℕ) → take (length xs) (xs ++ ys) ≡ xs
take-append [] ys = refl
take-append (x ∷ xs) ys = ap (λ (t : List ℕ). x ∷ t) (take-append xs ys)

right_loop-blank :
    (n : ℕ) (s : List ℕ)
    → n < length s
    → isspace (get_or s n 0) ≡ true
    → right_loop (suc n) s ≡ right_loop n s
unfolding right_loop
right_loop-blank n s l h = rw (get_elem?-eq-get_or s n 0 l, h) refl

right_loop-solid :
    (n : ℕ) (s : List ℕ)
    → n < length s
    → isspace (get_or s n 0) ≡ false
    → right_loop (suc n) s ≡ some (suc n)
unfolding right_loop
right_loop-solid n s l h = rw (get_elem?-eq-get_or s n 0 l, h) refl

left_loop-solid :
    (rounds : ℕ) (s : List ℕ) (e : ℕ) → isspace (get_or s 0 0) ≡ false → left_loop rounds 0 s e ≡ 0
unfolding left_loop
left_loop-solid zero s e h = refl
left_loop-solid (suc rounds) s e h = rw h refl

strcpy_down-whole : (s : List ℕ) → strcpy_down 0 s ≡ some s
unfolding strcpy_down
strcpy_down-whole s = refl

-- A text without blanks at its ends, before a newline.
pub trim-line :
    (s : List ℕ) (n : ℕ)
    → length s ≡ suc n
    → isspace (get_or s 0 0) ≡ false
    → isspace (get_or s n 0) ≡ false
    → trim (s ++ 10 ∷ []) ≡ some s
unfolding trim
trim-line s n len first last =
    let line : List ℕ = s ++ 10 ∷ [] in
    let long : length line ≡ suc (suc n) = length-append s (10 ∷ []) ∙ omega arith in
    let end : get_or line (suc n) 0 ≡ 10 =
      get_or-append_right s (10 ∷ []) (suc n) (omega arith)
      ∙ ap (λ (i : ℕ). get_or (10 ∷ []) i 0) (let z : suc n - length s ≡ 0 = omega arith in z) in
    let last' : isspace (get_or line n 0) ≡ false =
      ap isspace (get_or-append_left s (10 ∷ []) n (omega arith)) ∙ last in
    let stop : right_loop (suc (suc n)) line ≡ some (suc n) =
      right_loop-blank (suc n) line (omega arith) (ap isspace end)
      ∙ right_loop-solid n line (omega arith) last' in
    let cut : take (suc n) line ≡ s =
      ap (λ (i : ℕ). take i line) (sym len) ∙ take-append s (10 ∷ []) in
    rw (long, stop, cut, left_loop-solid (suc n) s (suc n - 1) first, strcpy_down-whole s) refl
