-- ===== src/Hash/Xxh/Safe.antt =====
-- The reads and the end of `xxh64`.
use kanekfs.Base.{
  ℕ, zero, suc, ◌+◌, ◌-◌, ◌*◌, ◌/◌, ◌^◌, ◌≤◌, ◌<◌, List, some, get_or, length, ◌≡◌, refl, arith,
  get_elem?-eq-get_or, ltb, leb, bit_xor, inl, inr, Bool-cases, u64,
}
use kanekfs.Hash.Xxh.{Lanes, xxh_rotl64, prime64_1, prime64_2, prime64_3, prime64_4, prime64_5}
use kanekfs.Bits.{bit_xor-lt}
use kanekfs.Hash.Xxh.Reads.{le32-reads, le64-reads}
use kanekfs.Hash.Xxh.Wide.{
  stripes64, start64, words64, half64, bytes64, finish64, merge64, xxh64, xxh64_round,
}

stripes64-ends :
    (rounds : ℕ) (input : List ℕ) (p : ℕ) (v : Lanes)
    → p + 32 ≤ length input
    → length input < p + 32 + rounds
    → (v' : Lanes) × (p' : ℕ) × (stripes64 rounds input p v ≡ some (v', p')) × (p' ≤ length input)
unfolding stripes64
stripes64-ends zero input p v h l = absurd (omega arith)
stripes64-ends (suc rounds) input p v h l =
    let (i1, e1) = le64-reads input p (omega arith) in
    let (i2, e2) = le64-reads input (p + 8) (omega arith) in
    let (i3, e3) = le64-reads input (p + 16) (omega arith) in
    let (i4, e4) = le64-reads input (p + 24) (omega arith) in
    let v' : Lanes = record {
      v1 = xxh64_round v.v1 i1;
      v2 = xxh64_round v.v2 i2;
      v3 = xxh64_round v.v3 i3;
      v4 = xxh64_round v.v4 i4;
    } in
    elim (Bool-cases (leb (p + 32 + 32) (length input))) [
      | inl more ↦
          let (v'', p'', e, q) =
            stripes64-ends rounds input (p + 32) v' (ground arith) (omega arith) in
          (v'', p'', rw (e1, e2, e3, e4, more) e, q)
      | inr done ↦ (v', p + 32, rw (e1, e2, e3, e4, done) refl, omega arith)
    ]

start64-ends :
    (input : List ℕ) (seed : ℕ)
    → (h : ℕ) × (p : ℕ) × (start64 input seed ≡ some (h, p)) × (p ≤ length input)
unfolding start64
start64-ends input seed = elim (Bool-cases (leb 32 (length input))) [
  | inl large ↦
      let v : Lanes = record {
        v1 = u64 (seed + prime64_1 + prime64_2);
        v2 = u64 (seed + prime64_2);
        v3 = seed;
        v4 = u64 (seed + (2 ^ 64 - prime64_1));
      } in
      let (v', p, e, q) = stripes64-ends (length input) input 0 v (ground arith) (omega arith) in
      (merge64 v', p, rw (large, e) refl, q)
  | inr small ↦ (u64 (seed + prime64_5), 0, rw small refl, omega arith)
]

words64-ends :
    (rounds : ℕ) (input : List ℕ) (p h : ℕ)
    → p ≤ length input
    → length input ≤ p + rounds
    → (h' : ℕ) × (p' : ℕ) × (words64 rounds input p h ≡ some (h', p')) × (p' ≤ length input)
unfolding words64
words64-ends zero input p h l m = (h, p, ground arith, l)
words64-ends (suc rounds) input p h l m = elim (Bool-cases (leb (p + 8) (length input))) [
  | inl more ↦
      let (k, e) = le64-reads input p (ground arith) in
      let (h', p', f, q) =
        words64-ends rounds input (p + 8)
          (u64 (xxh_rotl64 (bit_xor h (xxh64_round 0 k)) 27 * prime64_1 + prime64_4)) (ground arith)
          (omega arith) in
      (h', p', rw (more, e) f, q)
  | inr done ↦ (h, p, rw done refl, l)
]

half64-ends :
    (input : List ℕ) (p h : ℕ)
    → p ≤ length input
    → (h' : ℕ) × (p' : ℕ) × (half64 input p h ≡ some (h', p')) × (p' ≤ length input)
unfolding half64
half64-ends input p h l = elim (Bool-cases (leb (p + 4) (length input))) [
  | inl more ↦
      let (k, e) = le32-reads input p (ground arith) in
      (
        u64 (xxh_rotl64 (bit_xor h (u64 (k * prime64_1))) 23 * prime64_2 + prime64_3),
        p + 4,
        rw (more, e) refl,
        ground arith,
      )
  | inr done ↦ (h, p, rw done refl, l)
]

bytes64-ends :
    (rounds : ℕ) (input : List ℕ) (p h : ℕ)
    → p ≤ length input
    → length input ≤ p + rounds
    → (h' : ℕ) × (bytes64 rounds input p h ≡ some (h', length input))
unfolding bytes64
bytes64-ends zero input p h l m = let e : p ≡ length input = omega arith in (h, ground arith)
bytes64-ends (suc rounds) input p h l m = elim (Bool-cases (ltb p (length input))) [
  | inl more ↦
      let k = get_or input p 0 in
      let (h', f) =
        bytes64-ends rounds input (p + 1)
          (u64 (xxh_rotl64 (bit_xor h (u64 (k * prime64_5))) 11 * prime64_1)) (ground arith)
          (omega arith) in
      (h', rw (more, get_elem?-eq-get_or input p 0 (ground arith)) f)
  | inr done ↦ let e : p ≡ length input = ground arith in (h, ground arith)
]

finish64-lt : (h : ℕ) → finish64 h < 2 ^ 64
unfolding finish64
finish64-lt h =
    let h1 = u64 (bit_xor h (h / 2 ^ 33) * prime64_2) in
    let h2 = u64 (bit_xor h1 (h1 / 2 ^ 29) * prime64_3) in
    bit_xor-lt 64 h2 (h2 / 2 ^ 32) (omega arith) (omega arith)

-- For every input, `xxh64` ends, reads nothing past the input, and returns a number below 2 ^ 64.
pub xxh64-ends : (input : List ℕ) (seed : ℕ) → (h : ℕ) × (xxh64 input seed ≡ some h) × (h < 2 ^ 64)
unfolding xxh64
xxh64-ends input seed =
    let (h, p, e, l) = start64-ends input seed in
    let (h1, p1, e1, l1) =
      words64-ends (length input) input p (u64 (h + length input)) l (omega arith) in
    let (h2, p2, e2, l2) = half64-ends input p1 h1 l1 in
    let (h3, e3) = bytes64-ends (length input) input p2 h2 l2 (omega arith) in
    (finish64 h3, rw (e, e1, e2, e3) refl, finish64-lt h3)
