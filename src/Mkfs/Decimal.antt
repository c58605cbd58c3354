-- ===== src/Mkfs/Decimal.antt =====
-- The numbers that `validate_size` and `validate_num` read are the ones that were printed.
use native.Mathlib.Nat.{pow-zero, pow-suc}
use kanekfs.Base.{
  ℕ, zero, suc, ◌+◌, ◌-◌, ◌*◌, ◌/◌, ◌%◌, ◌^◌, ◌<◌, min, List, [], ◌∷◌, ◌≡◌, refl, sym, ap, ◌∙◌,
  arith, Bool, true, false, ◌&&◌, leb, ◌==◌, u64, inl, inr, Bool-cases, if◌then◌else◌,
}
use kanekfs.Disk.Layout.{one_megabyte, one_gigabyte}
use kanekfs.Mkfs.Numbers.{
  isdigit, isalpha, toupper, digits_from, strtoul, all_digits, digits_but_last, last_char,
  validate_size, validate_num,
}

-- The lowest `width` decimal digits of `n`, and then `text`.
unfoldable pub decimal : ℕ → ℕ → List ℕ → List ℕ
decimal zero n text = text
decimal (suc width) n text = decimal width (n / 10) ((48 + n % 10) ∷ text)

digit_is : (n : ℕ) → isdigit (48 + n % 10) ≡ true
digit_is n = ground arith

times_ten : (a b : ℕ) → a * (b * 10) ≡ a * b * 10
times_ten a b = grind arith

-- The digits are read back, onto those that were read before.
digits_from-decimal :
    (width n value : ℕ) (text : List ℕ)
    → n < 10 ^ width
    → value * 10 ^ width + n < 2 ^ 64
    → digits_from value (decimal width n text) ≡ digits_from (value * 10 ^ width + n) text
unfolding digits_from decimal
digits_from-decimal zero n value text fits small =
    let no_places : 10 ^ 0 ≡ 1 = pow-zero 10 in
    let same : value * 10 ^ 0 + n ≡ value = rw no_places (omega (arith, no_places)) in
    ap (λ (t : ℕ). digits_from t text) (sym same)
digits_from-decimal (suc width) n value text fits small =
    let power : 10 ^ suc width ≡ 10 ^ width * 10 = pow-suc 10 width in
    let spread : value * 10 ^ suc width ≡ value * 10 ^ width * 10 =
      ap (λ (t : ℕ). value * t) power ∙ times_ten value (10 ^ width) in
    let step : min ((value * 10 ^ width + n / 10) * 10 + (48 + n % 10 - 48)) (2 ^ 64 - 1)
        ≡ value * 10 ^ suc width + n =
      ground arith in
    digits_from-decimal width (n / 10) value ((48 + n % 10) ∷ text) (omega arith) (omega arith)
    ∙ rw (digit_is n, step) refl

all_digits-decimal :
    (width n : ℕ) (text : List ℕ) → all_digits (decimal width n text) ≡ all_digits text
unfolding all_digits decimal
all_digits-decimal zero n text = refl
all_digits-decimal (suc width) n text =
    all_digits-decimal width (n / 10) ((48 + n % 10) ∷ text) ∙ rw (digit_is n) refl

digits_but_last-decimal :
    (width n c : ℕ) (text : List ℕ)
    → digits_but_last (decimal width n (c ∷ text)) ≡ digits_but_last (c ∷ text)
unfolding digits_but_last decimal
digits_but_last-decimal zero n c text = refl
digits_but_last-decimal (suc width) n c text =
    digits_but_last-decimal width (n / 10) (48 + n % 10) (c ∷ text) ∙ rw (digit_is n) refl

last_char-decimal :
    (width n c : ℕ) (text : List ℕ) → last_char (decimal width n (c ∷ text)) ≡ last_char (c ∷ text)
unfolding last_char decimal
last_char-decimal zero n c text = refl
last_char-decimal (suc width) n c text = last_char-decimal width (n / 10) (48 + n % 10) (c ∷ text)

pub strtoul-decimal :
    (width n : ℕ) (text : List ℕ)
    → n < 10 ^ width
    → n < 2 ^ 64
    → strtoul (decimal width n text) ≡ digits_from n text
strtoul-decimal width n text fits small =
    let none : 0 * 10 ^ width + n ≡ n = omega arith in
    digits_from-decimal width n 0 text fits (omega arith) ∙ ap (λ (t : ℕ). digits_from t text) none

and_false : (x : Bool) → (x && false) ≡ false
and_false true = refl
and_false false = refl

letter_no_digit : (c : ℕ) → isalpha c ≡ true → isdigit c ≡ false
letter_no_digit c letter = elim (Bool-cases (leb c 57)) [
  | inl low ↦
      let a : leb 65 c ≡ false = ground arith in
      let b : leb 97 c ≡ false = ground arith in
      let e : false ≡ true = rw (a, b) at (letter) in absurd (ground arith)
  | inr high ↦ rw high (and_false (leb 48 c))
]

num-decimal : (width n : ℕ) → n < 10 ^ width → n < 2 ^ 64 → validate_num (decimal width n []) ≡ n
unfolding validate_num all_digits digits_from
num-decimal width n fits small =
    rw (all_digits-decimal width n []) (strtoul-decimal width n [] fits small)

size-decimal : (width n : ℕ) → n < 10 ^ width → n < 2 ^ 64 → validate_size (decimal width n []) ≡ n
unfolding validate_size decimal digits_but_last last_char digits_from
size-decimal zero n fits small = let none : n ≡ 0 = omega (arith, pow-zero 10) in rw none refl
size-decimal (suc width) n fits small =
    rw
      (
        digits_but_last-decimal width (n / 10) (48 + n % 10) [],
        last_char-decimal width (n / 10) (48 + n % 10) [],
        digit_is n,
      )
      (strtoul-decimal (suc width) n [] fits small)

-- With a letter behind the digits.
letter-decimal :
    (width n c : ℕ)
    → n < 10 ^ width
    → n < 2 ^ 64
    → isalpha c ≡ true
    → validate_size (decimal width n (c ∷ [])) ≡ (
        if toupper c == 77
        then u64 (n * one_megabyte)
        else if toupper c == 71
        then u64 (n * one_gigabyte)
        else 0)
unfolding validate_size digits_but_last last_char digits_from
letter-decimal width n c fits small letter =
    let no_digit : isdigit c ≡ false = letter_no_digit c letter in
    let value : strtoul (decimal width n (c ∷ [])) ≡ n =
      strtoul-decimal width n (c ∷ []) fits small ∙ rw no_digit refl in
    rw
      (
        digits_but_last-decimal width n c [],
        last_char-decimal width n c [],
        no_digit,
        letter,
        value,
      )
      refl

-- `validate_num` of the decimal digits of a number below 2 ^ 64, with zeroes in front or not, gives
-- the number. `validate_size` gives it too, and with an `M` or `G` behind the digits, small or
-- capital, as many megabytes or gigabytes, in a `uint64_t`.
pub validate-decimal :
    (width n : ℕ)
    → n < 10 ^ width
    → n < 2 ^ 64
    → (validate_num (decimal width n []) ≡ n)
      × (validate_size (decimal width n []) ≡ n)
      × ((c : ℕ)
          → isalpha c ≡ true
          → toupper c ≡ 77
          → validate_size (decimal width n (c ∷ [])) ≡ u64 (n * one_megabyte))
      × ((c : ℕ)
          → isalpha c ≡ true
          → toupper c ≡ 71
          → validate_size (decimal width n (c ∷ [])) ≡ u64 (n * one_gigabyte))
validate-decimal width n fits small = (
  num-decimal width n fits small,
  size-decimal width n fits small,
  (λ c letter m. letter-decimal width n c fits small letter ∙ rw m refl),
  (λ c letter g. letter-decimal width n c fits small letter ∙ rw g refl),
)
