-- ===== src/Hash/Xxh/SafeNarrow.antt =====
-- The reads and the end of `xxh32`.
use kanekfs.Base.{
  ℕ, zero, suc, ◌+◌, ◌-◌, ◌*◌, ◌/◌, ◌^◌, ◌≤◌, ◌<◌, List, some, get_or, length, ◌≡◌, refl, arith,
  get_elem?-eq-get_or, ltb, leb, bit_xor, inl, inr, Bool-cases, u32,
}
use kanekfs.Hash.Xxh.{Lanes, xxh_rotl32, prime32_1, prime32_2, prime32_3, prime32_4, prime32_5}
use kanekfs.Bits.{bit_xor-lt}
use kanekfs.Hash.Xxh.Reads.{le32-reads}
use kanekfs.Hash.Xxh.Narrow.{stripes32, start32, words32, bytes32, finish32, xxh32, xxh32_round}

stripes32-ends :
    (rounds : ℕ) (input : List ℕ) (p : ℕ) (v : Lanes)
    → p + 16 ≤ length input
    → length input < p + 16 + rounds
    → (v' : Lanes) × (p' : ℕ) × (stripes32 rounds input p v ≡ some (v', p')) × (p' ≤ length input)
unfolding stripes32
stripes32-ends zero input p v h l = absurd (omega arith)
stripes32-ends (suc rounds) input p v h l =
    let (i1, e1) = le32-reads input p (omega arith) in
    let (i2, e2) = le32-reads input (p + 4) (omega arith) in
    let (i3, e3) = le32-reads input (p + 8) (omega arith) in
    let (i4, e4) = le32-reads input (p + 12) (omega arith) in
    let v' : Lanes = record {
      v1 = xxh32_round v.v1 i1;
      v2 = xxh32_round v.v2 i2;
      v3 = xxh32_round v.v3 i3;
      v4 = xxh32_round v.v4 i4;
    } in
    elim (Bool-cases (leb (p + 16 + 16) (length input))) [
      | inl more ↦
          let (v'', p'', e, q) =
            stripes32-ends rounds input (p + 16) v' (ground arith) (omega arith) in
          (v'', p'', rw (e1, e2, e3, e4, more) e, q)
      | inr done ↦ (v', p + 16, rw (e1, e2, e3, e4, done) refl, omega arith)
    ]

start32-ends :
    (input : List ℕ) (seed : ℕ)
    → (h : ℕ) × (p : ℕ) × (start32 input seed ≡ some (h, p)) × (p ≤ length input)
unfolding start32
start32-ends input seed = elim (Bool-cases (leb 16 (length input))) [
  | inl large ↦
      let v : Lanes = record {
        v1 = u32 (seed + prime32_1 + prime32_2);
        v2 = u32 (seed + prime32_2);
        v3 = seed;
        v4 = u32 (seed + (2 ^ 32 - prime32_1));
      } in
      let (v', p, e, q) = stripes32-ends (length input) input 0 v (ground arith) (omega arith) in
      (
        u32 (xxh_rotl32 v'.v1 1 + xxh_rotl32 v'.v2 7 + xxh_rotl32 v'.v3 12 + xxh_rotl32 v'.v4 18),
        p,
        rw (large, e) refl,
        q,
      )
  | inr small ↦ (u32 (seed + prime32_5), 0, rw small refl, omega arith)
]

words32-ends :
    (rounds : ℕ) (input : List ℕ) (p h : ℕ)
    → p ≤ length input
    → length input ≤ p + rounds
    → (h' : ℕ) × (p' : ℕ) × (words32 rounds input p h ≡ some (h', p')) × (p' ≤ length input)
unfolding words32
words32-ends zero input p h l m = (h, p, ground arith, l)
words32-ends (suc rounds) input p h l m = elim (Bool-cases (leb (p + 4) (length input))) [
  | inl more ↦
      let (k, e) = le32-reads input p (ground arith) in
      let (h', p', f, q) =
        words32-ends rounds input (p + 4)
          (u32 (xxh_rotl32 (u32 (h + k * prime32_3)) 17 * prime32_4)) (ground arith)
          (omega arith) in
      (h', p', rw (more, e) f, q)
  | inr done ↦ (h, p, rw done refl, l)
]

bytes32-ends :
    (rounds : ℕ) (input : List ℕ) (p h : ℕ)
    → p ≤ length input
    → length input ≤ p + rounds
    → (h' : ℕ) × (bytes32 rounds input p h ≡ some (h', length input))
unfolding bytes32
bytes32-ends zero input p h l m = let e : p ≡ length input = omega arith in (h, ground arith)
bytes32-ends (suc rounds) input p h l m = elim (Bool-cases (ltb p (length input))) [
  | inl more ↦
      let k = get_or input p 0 in
      let (h', f) =
        bytes32-ends rounds input (p + 1)
          (u32 (xxh_rotl32 (u32 (h + k * prime32_5)) 11 * prime32_1)) (ground arith)
          (omega arith) in
      (h', rw (more, get_elem?-eq-get_or input p 0 (ground arith)) f)
  | inr done ↦ let e : p ≡ length input = ground arith in (h, ground arith)
]

finish32-lt : (h : ℕ) → finish32 h < 2 ^ 32
unfolding finish32
finish32-lt h =
    let h1 = u32 (bit_xor h (h / 2 ^ 15) * prime32_2) in
    let h2 = u32 (bit_xor h1 (h1 / 2 ^ 13) * prime32_3) in
    bit_xor-lt 32 h2 (h2 / 2 ^ 16) (omega arith) (omega arith)

-- For every input, `xxh32` ends, reads nothing past the input, and returns a number below 2 ^ 32.
pub xxh32-ends : (input : List ℕ) (seed : ℕ) → (h : ℕ) × (xxh32 input seed ≡ some h) × (h < 2 ^ 32)
unfolding xxh32
xxh32-ends input seed =
    let (h, p, e, l) = start32-ends input seed in
    let (h1, p1, e1, l1) =
      words32-ends (length input) input p (u32 (h + length input)) l (omega arith) in
    let (h2, e2) = bytes32-ends (length input) input p1 h1 l1 (omega arith) in
    (finish32 h2, rw (e, e1, e2) refl, finish32-lt h2)
