-- ===== src/Dict/Keys.antt =====
-- The array of a key in a `dict_entry_t`, which has no NUL when the key has 32 characters or more:
-- `strlen` in `hash_b79` then reads the bytes that follow it.
use kanekfs.Base.{
  ℕ, zero, suc, ◌+◌, ◌*◌, ◌<◌, ◌≤◌, List, [], ◌∷◌, ◌++◌, ◌≡◌, refl, sym, ap, ◌∙◌, arith, inl, inr,
  Bool-cases, ◌==◌, ltb, u64, length, length-replicate, get_or,
}
use kanekfs.Hash.Base79.{strlen, code_at, add_int, hash_loop, hash_b79}
use kanekfs.Dict.{Value}
use kanekfs.Dict.Strings.{strncpy}
use kanekfs.Dict.Entries.{dict_key_len, new_entry}

length-strncpy : (n : ℕ) (s : List ℕ) → length (strncpy n s) ≡ n
unfolding strncpy
length-strncpy n [] = length-replicate n 0
length-strncpy zero (c ∷ s) = refl
length-strncpy (suc n) (c ∷ s) = elim (Bool-cases (c == 0)) [
  | inl nul ↦ rw nul (ap suc (length-replicate n 0))
  | inr more ↦ rw more (ap suc (length-strncpy n s))
]

get_or-append : (xs ys : List ℕ) (i : ℕ) → i < length xs → get_or (xs ++ ys) i 0 ≡ get_or xs i 0
get_or-append [] ys i h = absurd (omega arith)
get_or-append (x ∷ xs) ys zero h = refl
get_or-append (x ∷ xs) ys (suc i) h = get_or-append xs ys i (omega arith)

strlen-append :
    (xs ys : List ℕ) (i : ℕ) → i < length xs → ltb i (strlen (xs ++ ys)) ≡ ltb i (strlen xs)
unfolding strlen
strlen-append [] ys i h = absurd (omega arith)
strlen-append (x ∷ xs) ys zero h = elim (Bool-cases (x == 0)) [
  | inl nul ↦ rw nul refl
  | inr more ↦ rw more (ground arith)
]
strlen-append (x ∷ xs) ys (suc i) h = elim (Bool-cases (x == 0)) [
  | inl nul ↦ rw nul refl
  | inr more ↦ rw more (ground (arith, strlen-append xs ys i (omega arith)))
]

hash_loop-append :
    (xs ys : List ℕ) (rounds i h : ℕ)
    → i + rounds ≤ length xs
    → hash_loop rounds i (xs ++ ys) h ≡ hash_loop rounds i xs h
unfolding hash_loop
hash_loop-append xs ys zero i h l = refl
hash_loop-append xs ys (suc rounds) i h l =
    rw (strlen-append xs ys i (omega arith), get_or-append xs ys i (omega arith))
      (hash_loop-append xs ys rounds (i + 1) (add_int (u64 (h * 79)) (code_at xs i)) (omega arith))

-- What follows the key in memory is not in its hash.
pub new_entry-behind :
    (behind key : List ℕ) (v : Value) → new_entry behind key v ≡ new_entry [] key v
unfolding new_entry hash_b79
new_entry-behind behind key v =
    let enough : 0 + 10 ≤ length (strncpy dict_key_len key) =
      omega (arith, length-strncpy dict_key_len key) in
    ap (λ h. record { hash_key = h; key = strncpy dict_key_len key; value = v })
      (hash_loop-append (strncpy dict_key_len key) behind 10 0 0 enough
        ∙ sym (hash_loop-append (strncpy dict_key_len key) [] 10 0 0 enough))
