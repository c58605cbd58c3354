-- ===== src/Dict/Strings.antt =====
-- `strncpy` and `strncmp` as fs/dict.c uses them.
use kanekfs.Base.{
  ℕ, zero, suc, List, [], ◌∷◌, Bool, true, false, ◌==◌, ◌≡◌, refl, sym, ap, ◌∙◌, ◌↔◌, arith, inl,
  inr, Bool-cases, if◌then◌else◌, replicate,
}

-- The array of `n` characters that `strncpy` fills: after the NUL it pads.
unfoldable pub strncpy : ℕ → List ℕ → List ℕ
strncpy n [] = replicate n 0
strncpy zero (c ∷ s) = []
strncpy (suc n) (c ∷ s) = let rest = strncpy n s in if c == 0 then 0 ∷ replicate n 0 else c ∷ rest

-- `strncmp( s, t, n) == 0`
unfoldable pub same : ℕ → List ℕ → List ℕ → Bool
same zero s t = true
same (suc n) [] [] = true
same (suc n) [] (d ∷ t) = d == 0
same (suc n) (c ∷ s) [] = c == 0
same (suc n) (c ∷ s) (d ∷ t) =
    let rest = same n s t in if c == d then (if c == 0 then true else rest) else false

same-replicate : (n : ℕ) (s : List ℕ) → same n s (replicate n 0) ≡ same n s []
unfolding same
same-replicate zero s = refl
same-replicate (suc n) [] = refl
same-replicate (suc n) (c ∷ s) = ground arith

-- A copy compares as its original does.
pub same-strncpy : (n : ℕ) (s t : List ℕ) → same n s (strncpy n t) ≡ same n s t
unfolding same strncpy
same-strncpy n s [] = same-replicate n s
same-strncpy zero s (d ∷ t) = refl
same-strncpy (suc n) [] (d ∷ t) = ground arith
same-strncpy (suc n) (c ∷ s) (d ∷ t) = ground (arith, same-strncpy n s t)

pub same_self : (n : ℕ) (s : List ℕ) → same n s s ≡ true
unfolding same
same_self zero s = refl
same_self (suc n) [] = refl
same_self (suc n) (c ∷ s) = ground (arith, same_self n s)

same-fill : (n : ℕ) (s : List ℕ) → same n s [] ≡ true → strncpy n s ≡ replicate n 0
unfolding same strncpy
same-fill n [] h = refl
same-fill zero (c ∷ s) h = refl
same-fill (suc n) (c ∷ s) h = ground arith

same-fill_left : (n : ℕ) (t : List ℕ) → same n [] t ≡ true → replicate n 0 ≡ strncpy n t
unfolding same strncpy
same-fill_left n [] h = refl
same-fill_left zero (d ∷ t) h = refl
same-fill_left (suc n) (d ∷ t) h = ground arith

-- Strings that compare as equal give the same array.
pub same-true : (n : ℕ) (s t : List ℕ) → same n s t ≡ true → strncpy n s ≡ strncpy n t
unfolding same strncpy
same-true n [] t h = same-fill_left n t h
same-true n (c ∷ s) [] h = same-fill n (c ∷ s) h
same-true zero (c ∷ s) (d ∷ t) h = refl
same-true (suc n) (c ∷ s) (d ∷ t) h = elim (Bool-cases (c == 0)) [
  | inl ends ↦ ground arith
  | inr goes ↦
      let e : c ≡ d = ground arith in
      let f : strncpy n s ≡ strncpy n t = same-true n s t (ground arith) in
      ground (arith, ap (λ (r : List ℕ). c ∷ r) f)
]

pub same_iff : (n : ℕ) (s t : List ℕ) → (same n s t ≡ true) ↔ (strncpy n s ≡ strncpy n t)
same_iff n s t = (
  same-true n s t,
  λ e. sym (same-strncpy n s t) ∙ ap (λ r. same n s r) (sym e) ∙ same-strncpy n s s ∙ same_self n s,
)
