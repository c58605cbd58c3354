-- ===== src/Cache/Replacement.antt =====
-- `cache_element_map` uses an empty slot, or replaces the least used element that is not pinned.
use kanekfs.Base.{
  ℕ, zero, suc, ◌+◌, ◌≤◌, ◌<◌, List, [], ◌∷◌, Option, none, some, ◌≡◌, ◌≢◌, refl, arith, ◌==◌, ◌⊎◌,
  length, get_or, Bool-cases, inl, inr, ltb, ◌&&◌, bit_and,
}
use kanekfs.Bits.{bit_and-two_pow}
use kanekfs.Cache.{Element}
use kanekfs.Cache.Mapping.{first_free, least_used}
use kanekfs.Cache.Invariant.{pinned}

-- No slot is empty.
abbrev pub Full : List (Option Element) → Type 0
Full elements = (k : ℕ) → k < length elements → get_or elements k none ≢ none

Full-cons : (el : Element) (rest : List (Option Element)) → Full rest → Full (some el ∷ rest)
Full-cons el rest full zero h e = cc
Full-cons el rest full (suc k) h e = full k (omega arith) e

pub first_free_cases :
    (elements : List (Option Element)) (i : ℕ)
    → ((first_free elements i ≡ none) × Full elements)
      ⊎ ((k : ℕ) × (first_free elements i ≡ some (i + k))
          × (k < length elements)
          × (get_or elements k none ≡ none))
unfolding first_free
first_free_cases [] i = inl (refl, λ k h. absurd (omega arith))
first_free_cases (none ∷ rest) i = inr (0, ground arith, omega arith, refl)
first_free_cases (some el ∷ rest) i = elim (first_free_cases rest (i + 1)) [
  | inl (e, full) ↦ inl (e, Full-cons el rest full)
  | inr (k, e, h, free) ↦ inr (suc k, ground (arith, e), omega arith, free)
]

-- The elements that are not pinned were used `m` times or more.
abbrev pub UsedAtLeast : List (Option Element) → ℕ → Type 0
UsedAtLeast elements m =
    (k : ℕ) (el : Element)
    → get_or elements k none ≡ some el
    → pinned el ≡ 0
    → m ≤ el.ce_access_count

-- An element that may be replaced, and none is used less.
abbrev pub Victim : List (Option Element) → ℕ → Element → Type 0
Victim elements k el =
    (get_or elements k none ≡ some el)
    × (k < length elements)
    × (pinned el ≡ 0)
    × UsedAtLeast elements el.ce_access_count

UsedAtLeast-cons :
    (el : Element) (rest : List (Option Element)) (m : ℕ)
    → (pinned el ≡ 0 → m ≤ el.ce_access_count)
    → UsedAtLeast rest m
    → UsedAtLeast (some el ∷ rest) m
UsedAtLeast-cons el rest m h all zero el' e p =
    let same : el ≡ el' = cc in rw same at (h (rw same p))
UsedAtLeast-cons el rest m h all (suc k) el' e p = all k el' e p

-- The result of the search: `sub` as before, or a victim used less than `least`.
abbrev pub LeastUsed : List (Option Element) → ℕ → ℕ → Option ℕ → Option ℕ → Type 0
LeastUsed elements i least sub result =
    (result ≡ sub) × UsedAtLeast elements least
    ⊎ ((k : ℕ) × (el : Element) × (result ≡ some (i + k))
        × Victim elements k el
        × (el.ce_access_count < least))

module _ (el : Element) (rest : List (Option Element)) (i least : ℕ) (sub : Option ℕ) where
  -- The first slot takes the place of the candidate so far.
  LeastUsed-better :
      (result : Option ℕ)
      → pinned el ≡ 0
      → el.ce_access_count < least
      → LeastUsed rest (i + 1) el.ce_access_count (some i) result
      → LeastUsed (some el ∷ rest) i least sub result
  LeastUsed-better result p less (inl (e, all)) = inr (
    0,
    el,
    ground (arith, e),
    (refl, omega arith, p, UsedAtLeast-cons el rest _ (λ _. omega arith) all),
    less,
  )
  LeastUsed-better result p less (inr (k, el', e, (at, h, q, all), fewer)) = inr (
    suc k,
    el',
    ground (arith, e),
    (at, omega arith, q, UsedAtLeast-cons el rest _ (λ _. omega arith) all),
    omega arith,
  )

  LeastUsed-worse :
      (result : Option ℕ)
      → (pinned el ≡ 0 → least ≤ el.ce_access_count)
      → LeastUsed rest (i + 1) least sub result
      → LeastUsed (some el ∷ rest) i least sub result
  LeastUsed-worse result more (inl (e, all)) = inl (e, UsedAtLeast-cons el rest _ more all)
  LeastUsed-worse result more (inr (k, el', e, (at, h, q, all), fewer)) = inr (
    suc k,
    el',
    ground (arith, e),
    (at, omega arith, q, UsedAtLeast-cons el rest _ (λ p. omega (arith, more p)) all),
    fewer,
  )

pub least_used-LeastUsed :
    (elements : List (Option Element)) (i least : ℕ) (sub : Option ℕ)
    → Full elements
    → (r : Option ℕ) × (least_used elements i least sub ≡ some r) × LeastUsed elements i least sub r
unfolding least_used
least_used-LeastUsed [] i least sub full = (sub, refl, inl (refl, λ k el e. cc))
least_used-LeastUsed (none ∷ rest) i least sub full = absurd (full 0 (omega arith) refl)
least_used-LeastUsed (some el ∷ rest) i least sub full =
    let full' : Full rest = λ k h. full (suc k) (omega arith) in
    let test : (bit_and el.ce_flags 8 == 0) ≡ (pinned el == 0) = bit_and-two_pow el.ce_flags 3 in
    elim (Bool-cases (pinned el == 0 && ltb el.ce_access_count least)) [
      | inl better ↦
          let (r, e, spec) = least_used-LeastUsed rest (i + 1) el.ce_access_count (some i) full' in
          (
            r,
            rw (test, better) e,
            LeastUsed-better el rest i least sub r (ground arith) (ground arith) spec,
          )
      | inr worse ↦
          let (r, e, spec) = least_used-LeastUsed rest (i + 1) least sub full' in
          (r, rw (test, worse) e, LeastUsed-worse el rest i least sub r (λ p. ground arith) spec)
    ]
