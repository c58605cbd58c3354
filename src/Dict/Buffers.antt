-- ===== src/Dict/Buffers.antt =====
-- The loops of fs/dict.c on a buffer, as operations on the entries that are in use.
use kanekfs.Base.{
  ℕ, zero, suc, ◌+◌, ◌-◌, ◌≤◌, ◌<◌, List, [], ◌∷◌, ◌++◌, none, some, ◌≡◌, refl, ap, arith, take,
  length, length-take, set, get_elem?, inl, inr, Bool-cases,
}
use kanekfs.Dict.{Value, Entry}
use kanekfs.Dict.Entries.{search_loop, shift_down, memcpy_down}
use kanekfs.Dict.Store.{matches, find_first, remove_first, update_first, lookup}

pub search_loop-find_first :
    (n : ℕ) (buffer : List Entry) (key : List ℕ) (i : ℕ)
    → n ≤ length buffer
    → search_loop n buffer key i ≡ some (find_first key (take n buffer) i)
unfolding search_loop find_first
search_loop-find_first zero buffer key i h = refl
search_loop-find_first (suc n) [] key i h = absurd (omega arith)
search_loop-find_first (suc n) (e ∷ rest) key i h =
    ground (arith, search_loop-find_first n rest key (i + 1) (omega arith))

-- A result is counted from `i` on.
pub find_first-from :
    (key : List ℕ) (xs : List Entry) (i k : ℕ)
    → find_first key xs i ≡ some k
    → (i ≤ k) × (k < i + length xs)
unfolding find_first
find_first-from key [] i k h = ground arith
find_first-from key (e ∷ rest) i k h = ground (arith, find_first-from key rest (i + 1) k)

pub take-prefix : (n : ℕ) (xs ys : List Entry) → n ≤ length xs → take n (xs ++ ys) ≡ take n xs
take-prefix zero xs ys h = refl
take-prefix (suc n) [] ys h = absurd (omega arith)
take-prefix (suc n) (x ∷ xs) ys h = ap (◌∷◌ x) (take-prefix n xs ys (omega arith))

pub take-take : (n : ℕ) (xs : List Entry) → take n (take n xs) ≡ take n xs
take-take zero xs = refl
take-take (suc n) [] = refl
take-take (suc n) (x ∷ xs) = ap (◌∷◌ x) (take-take n xs)

-- A write at the first place that is not in use.
pub take-set_end :
    (n : ℕ) (xs : List Entry) (e : Entry)
    → n < length xs
    → take (suc n) (set xs n e) ≡ take n xs ++ (e ∷ [])
take-set_end n [] e h = absurd (omega arith)
take-set_end zero (x ∷ xs) e h = refl
take-set_end (suc n) (x ∷ xs) e h = ap (◌∷◌ x) (take-set_end n xs e (omega arith))

-- Two entries or more are not moved.
shift_overlap : (n : ℕ) (xs : List Entry) → 2 ≤ n → shift_down n xs ≡ none
unfolding shift_down
shift_overlap zero xs h = absurd (omega arith)
shift_overlap (suc zero) xs h = absurd (omega arith)
shift_overlap (suc (suc n)) xs h = refl

pub memcpy_overlap : (sub n : ℕ) (xs : List Entry) → 2 ≤ n → memcpy_down sub n xs ≡ none
unfolding memcpy_down
memcpy_overlap zero n xs h = shift_overlap n xs h
memcpy_overlap (suc sub) n [] h = refl
memcpy_overlap (suc sub) n (x ∷ xs) h = rw (memcpy_overlap sub n xs h) refl

pub shift_down-take :
    (n : ℕ) (x : Entry) (xs : List Entry)
    → n ≤ 1
    → n ≤ length xs
    → (ys : List Entry) × (shift_down n (x ∷ xs) ≡ some ys)
      × (take n ys ≡ take n xs)
      × (length ys ≡ length (x ∷ xs))
unfolding shift_down
shift_down-take zero x xs one h = (x ∷ xs, refl, refl, refl)
shift_down-take (suc zero) x [] one h = absurd (omega arith)
shift_down-take (suc zero) x (y ∷ rest) one h = (y ∷ y ∷ rest, refl, refl, refl)
shift_down-take (suc (suc n)) x xs one h = absurd (omega arith)

remove-memcpy :
    (n : ℕ) (xs : List Entry) (key : List ℕ) (i k : ℕ)
    → n ≤ length xs
    → i + n ≤ k + 2
    → find_first key (take n xs) i ≡ some k
    → (ys : List Entry) × (memcpy_down (k - i) (n - (k - i) - 1) xs ≡ some ys)
      × (take (n - 1) ys ≡ remove_first key (take n xs))
      × (length ys ≡ length xs)
unfolding find_first remove_first memcpy_down
remove-memcpy zero xs key i k h near e = ground arith
remove-memcpy (suc n) [] key i k h near e = absurd (omega arith)
remove-memcpy (suc n) (x ∷ rest) key i k h near e = elim (Bool-cases (matches key x)) [
  | inl here ↦
      let at : k ≡ i = ground arith in
      let (ys, f, t, l) = shift_down-take n x rest (omega arith) (omega arith) in
      let none_before : k - i ≡ 0 = omega arith in
      let all : suc n - 0 - 1 ≡ n = omega arith in
      let last : suc n - 1 ≡ n = omega arith in (ys, rw (none_before, all) f, rw (last, here) t, l)
  | inr later ↦
      let found : find_first key (take n rest) (i + 1) ≡ some k = ground arith in
      let (low, high) = find_first-from key (take n rest) (i + 1) k found in
      let size = length-take n rest in
      let (ys, f, t, l) = remove-memcpy n rest key (i + 1) k (omega arith) (omega arith) found in
      let next : k - i ≡ suc (k - (i + 1)) = omega arith in
      let rest_of : suc n - suc (k - (i + 1)) - 1 ≡ n - (k - (i + 1)) - 1 = omega arith in
      let last : suc n - 1 ≡ suc (n - 1) = omega (arith, size, high, low) in
      (x ∷ ys, rw (next, rest_of, f) refl, rw (last, later) (ap (◌∷◌ x) t), ap suc l)
]

pub remove-last :
    (n : ℕ) (xs : List Entry) (key : List ℕ) (i k : ℕ)
    → n ≤ length xs
    → find_first key (take n xs) i ≡ some k
    → k + 1 ≡ i + n
    → take (n - 1) xs ≡ remove_first key (take n xs)
unfolding find_first remove_first
remove-last zero xs key i k h e z = ground arith
remove-last (suc n) [] key i k h e z = absurd (omega arith)
remove-last (suc n) (x ∷ rest) key i k h e z = elim (Bool-cases (matches key x)) [
  | inl here ↦
      let at : k ≡ i = ground arith in let only : n ≡ 0 = omega arith in rw (only, here) refl
  | inr later ↦
      let found : find_first key (take n rest) (i + 1) ≡ some k = ground arith in
      let (low, high) = find_first-from key (take n rest) (i + 1) k found in
      let last : suc n - 1 ≡ suc (n - 1) = omega (arith, length-take n rest) in
      rw (last, later)
        (ap (◌∷◌ x) (remove-last n rest key (i + 1) k (omega arith) found (omega arith)))
]

update-set :
    (n : ℕ) (xs : List Entry) (key : List ℕ) (v : Value) (i k : ℕ)
    → n ≤ length xs
    → find_first key (take n xs) i ≡ some k
    → (o : Entry) × (get_elem? xs (k - i) ≡ some o)
      × (lookup key (take n xs) ≡ some o.value)
      × (take n (set xs (k - i) (record o { value = v })) ≡ update_first key v (take n xs))
unfolding find_first update_first lookup
update-set zero xs key v i k h e = ground arith
update-set (suc n) [] key v i k h e = absurd (omega arith)
update-set (suc n) (x ∷ rest) key v i k h e = elim (Bool-cases (matches key x)) [
  | inl here ↦
      let at : k ≡ i = ground arith in
      let none_before : k - i ≡ 0 = omega arith in
      (x, rw none_before refl, rw here refl, rw (none_before, here) refl)
  | inr later ↦
      let found : find_first key (take n rest) (i + 1) ≡ some k = ground arith in
      let (low, high) = find_first-from key (take n rest) (i + 1) k found in
      let (o, g, w, t) = update-set n rest key v (i + 1) k (omega arith) found in
      let next : k - i ≡ suc (k - (i + 1)) = omega arith in
      (o, rw next g, rw later w, rw (next, later) (ap (◌∷◌ x) t))
]

pub find_first-none :
    (key : List ℕ) (xs : List Entry) (i : ℕ) → find_first key xs i ≡ none → lookup key xs ≡ none
unfolding find_first lookup
find_first-none key [] i h = refl
find_first-none key (e ∷ rest) i h = ground (arith, find_first-none key rest (i + 1))

-- The same from the first place on.
pub remove-memcpy_first :
    (n : ℕ) (xs : List Entry) (key : List ℕ) (k : ℕ)
    → n ≤ length xs
    → n ≤ k + 2
    → find_first key (take n xs) 0 ≡ some k
    → (ys : List Entry) × (memcpy_down k (n - k - 1) xs ≡ some ys)
      × (take (n - 1) ys ≡ remove_first key (take n xs))
      × (length ys ≡ length xs)
remove-memcpy_first n xs key k h near e =
    let z : k - 0 ≡ k = omega arith in rw z at (remove-memcpy n xs key 0 k h (omega arith) e)

pub update-set_first :
    (n : ℕ) (xs : List Entry) (key : List ℕ) (v : Value) (k : ℕ)
    → n ≤ length xs
    → find_first key (take n xs) 0 ≡ some k
    → (o : Entry) × (get_elem? xs k ≡ some o)
      × (lookup key (take n xs) ≡ some o.value)
      × (take n (set xs k (record o { value = v })) ≡ update_first key v (take n xs))
update-set_first n xs key v k h e =
    let z : k - 0 ≡ k = omega arith in rw z at (update-set n xs key v 0 k h e)
