-- ===== src/Text/Trimmed.antt =====
-- What `trim` leaves of a string.
use kanekfs.Base.{
  ℕ, zero, suc, ◌+◌, ◌-◌, ◌≤◌, ◌<◌, List, [], ◌∷◌, none, some, true, false, ◌≡◌, ◌≢◌, refl, arith,
  ap, ◌∙◌, sym, ltb, get_or, get_elem?-eq-get_or, take, drop, length, length-take, length-drop, leb,
  ◌&&◌, if◌then◌else◌, inl, inr, ◌⊎◌, Bool-cases,
}
use kanekfs.Text.{isspace, right_loop, left_loop, strcpy_down, trim}

-- The characters from `lo` up to `hi` are white space.
abbrev pub IsBlank : List ℕ → ℕ → ℕ → Type 0
IsBlank s lo hi = (k : ℕ) → lo ≤ k → k < hi → isspace (get_or s k 0) ≡ true

-- Either all the `n` characters are blank, or the last one that is not is at `e - 1`.
right_loop-IsBlank :
    (n : ℕ) (s : List ℕ)
    → n ≤ length s
    → (right_loop n s ≡ none) × IsBlank s 0 n
      ⊎ ((e : ℕ) × (right_loop n s ≡ some (suc e))
          × (e < n)
          × (isspace (get_or s e 0) ≡ false)
          × IsBlank s (suc e) n)
unfolding right_loop
right_loop-IsBlank zero s h = inl (refl, λ k l m. absurd (omega arith))
right_loop-IsBlank (suc n) s h = elim (Bool-cases (isspace (get_or s n 0))) [
  | inr solid ↦ inr (
    n,
    rw (get_elem?-eq-get_or s n 0 h, solid) refl,
    omega arith,
    solid,
    λ k l m. absurd (omega arith),
  )
  | inl blank ↦ elim (right_loop-IsBlank n s (omega arith)) [
    | inl (e, all) ↦ inl (
      rw (get_elem?-eq-get_or s n 0 h, blank) e,
      λ k l m. elim (Bool-cases (ltb k n)) [
        | inl below ↦ all k l (ground arith)
        | inr last ↦ let z : k ≡ n = ground arith in rw z blank
      ],
    )
    | inr (e, f, l, solid, rest) ↦ inr (
      e,
      rw (get_elem?-eq-get_or s n 0 h, blank) f,
      omega arith,
      solid,
      λ k p q. elim (Bool-cases (ltb k n)) [
        | inl below ↦ rest k p (ground arith)
        | inr last ↦ let z : k ≡ n = ground arith in rw z blank
      ],
    )
  ]
]

true_not_false : true ≢ false
true_not_false e = ground arith

clash :
    (s : List ℕ) (a b : ℕ) → a ≡ b → isspace (get_or s a 0) ≡ true → isspace (get_or s b 0) ≢ false
clash s a b z h e = true_not_false (sym h ∙ ap (λ (t : ℕ). isspace (get_or s t 0)) z ∙ e)

-- The second loop stops at the first character that is not blank, at `s2` at the latest.
left_loop-IsBlank :
    (rounds s1 : ℕ) (s : List ℕ) (s2 : ℕ)
    → s1 ≤ s2
    → s2 < s1 + rounds
    → isspace (get_or s s2 0) ≡ false
    → (s1 ≤ left_loop rounds s1 s s2)
      × (left_loop rounds s1 s s2 ≤ s2)
      × (isspace (get_or s (left_loop rounds s1 s s2) 0) ≡ false)
      × IsBlank s s1 (left_loop rounds s1 s s2)
unfolding left_loop
left_loop-IsBlank zero s1 s s2 h l solid = absurd (omega arith)
left_loop-IsBlank (suc rounds) s1 s s2 h l solid = elim (Bool-cases (isspace (get_or s s1 0))) [
  | inr stop ↦ rw stop (omega arith, h, stop, λ k p q. absurd (omega arith))
  | inl blank ↦ elim (Bool-cases (ltb s1 s2)) [
    | inl below ↦
        let (p, q, r, all) =
          left_loop-IsBlank rounds (s1 + 1) s s2 (ground arith) (omega arith) solid in
        rw (blank, below)
          (
            omega arith,
            q,
            r,
            λ k u v. elim (Bool-cases (ltb s1 k)) [
              | inl later ↦ all k (ground arith) v
              | inr here ↦ let z : k ≡ s1 = ground arith in rw z blank
            ],
          )
    | inr last ↦ let z : s1 ≡ s2 = ground arith in absurd (clash s s1 s2 z blank solid)
  ]
]

get_or-take : (n : ℕ) (s : List ℕ) (k : ℕ) → k < n → get_or (take n s) k 0 ≡ get_or s k 0
get_or-take zero s k h = absurd (omega arith)
get_or-take (suc n) [] k h = refl
get_or-take (suc n) (c ∷ s) zero h = refl
get_or-take (suc n) (c ∷ s) (suc k) h = get_or-take n s k (omega arith)

-- What remains of `s`: the characters from `i` to `e`, neither end blank, all others blank.
pub record IsTrimmed (s : List ℕ) (i e : ℕ) : Type 0 where
  pub inside : (i ≤ e) × (e < length s)
  pub first : isspace (get_or s i 0) ≡ false
  pub last : isspace (get_or s e 0) ≡ false
  pub left : IsBlank s 0 i
  pub right : IsBlank s (suc e) (length s)

-- The copy of what remains to the start of the string.
strcpy_down-cut :
    (s : List ℕ) (i e : ℕ)
    → i ≤ e
    → e < length s
    → strcpy_down i (take (suc e) s)
      ≡ (if ltb 0 i && leb (i + i) (suc e) then none else some (drop i (take (suc e) s)))
unfolding strcpy_down
strcpy_down-cut s i e h l =
    let size : length (drop i (take (suc e) s)) ≡ suc e - i =
      length-drop i (take (suc e) s) ∙ omega (arith, length-take (suc e) s) in
    ground (arith, size)

-- `trim` of a string of blanks only, the empty one included, reads the character before the start.
-- Of any other string it returns what lies between the blanks at its ends, if there are no blanks
-- in front, or more of them than characters remain; if there are some and no more than remain, it
-- copies between areas that overlap, which is not defined.
pub trim-IsTrimmed :
    (s : List ℕ)
    → (trim s ≡ none) × IsBlank s 0 (length s)
      ⊎ ((i : ℕ) × (e : ℕ) × (trim s
            ≡ (if ltb 0 i && leb (i + i) (suc e) then none else some (drop i (take (suc e) s))))
          × IsTrimmed s i e)
unfolding trim
trim-IsTrimmed s = elim (right_loop-IsBlank (length s) s (omega arith)) [
  | inl (f, all) ↦ inl (rw f refl, all)
  | inr (e, f, l, solid, right) ↦
      let cut = take (suc e) s in
      let same : (k : ℕ) → k < suc e → get_or cut k 0 ≡ get_or s k 0 = get_or-take (suc e) s in
      let z : suc e - 1 ≡ e = omega arith in
      let end : isspace (get_or cut e 0) ≡ false = ap isspace (same e (omega arith)) ∙ solid in
      let (p, q, first, left) = left_loop-IsBlank (suc e) 0 cut e (omega arith) (omega arith) end in
      let i = left_loop (suc e) 0 cut e in
      inr (
        i,
        e,
        rw (f, z) (strcpy_down-cut s i e q l),
        record {
          inside = (q, l);
          first = sym (ap isspace (same i (omega arith))) ∙ first;
          last = solid;
          left = λ k u v. sym (ap isspace (same k (omega arith))) ∙ left k u v;
          right = right;
        },
      )
]
