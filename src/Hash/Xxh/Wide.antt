-- ===== src/Hash/Xxh/Wide.antt =====
-- `xxh64` of fs/hash.c.
use kanekfs.Base.{
  ℕ, zero, suc, ◌+◌, ◌-◌, ◌*◌, ◌/◌, ◌^◌, List, Option, none, some, ltb, leb, u64, bit_xor,
  get_elem?, length, if◌then◌else◌,
}
use kanekfs.Map.Bitmap.{◌>>=◌}
use kanekfs.Hash.Xxh.{
  xxh_rotl64, get_unaligned_le32, get_unaligned_le64, prime64_1, prime64_2, prime64_3, prime64_4,
  prime64_5, Lanes,
}

unfoldable pub xxh64_round : ℕ → ℕ → ℕ
xxh64_round acc input = u64 (xxh_rotl64 (u64 (acc + input * prime64_2)) 31 * prime64_1)

unfoldable pub xxh64_merge_round : ℕ → ℕ → ℕ
xxh64_merge_round acc val = u64 (bit_xor acc (xxh64_round 0 val) * prime64_1 + prime64_4)

-- `do { … } while (p <= limit)` with rounds to spare; the lanes and `p` at the end.
unfoldable pub stripes64 : ℕ → List ℕ → ℕ → Lanes → Option (Lanes × ℕ)
stripes64 zero input p v = none
stripes64 (suc rounds) input p v = do
  i1 ← get_unaligned_le64 input p
  i2 ← get_unaligned_le64 input (p + 8)
  i3 ← get_unaligned_le64 input (p + 16)
  i4 ← get_unaligned_le64 input (p + 24)
  let v' : Lanes = record {
    v1 = xxh64_round v.v1 i1;
    v2 = xxh64_round v.v2 i2;
    v3 = xxh64_round v.v3 i3;
    v4 = xxh64_round v.v4 i4;
  }
  let again = stripes64 rounds input (p + 32) v'
  if leb (p + 32 + 32) (length input) then again else some (v', p + 32)

unfoldable pub merge64 : Lanes → ℕ
merge64 v =
    let h = u64 (xxh_rotl64 v.v1 1 + xxh_rotl64 v.v2 7 + xxh_rotl64 v.v3 12 + xxh_rotl64 v.v4 18) in
    xxh64_merge_round (xxh64_merge_round (xxh64_merge_round (xxh64_merge_round h v.v1) v.v2) v.v3)
      v.v4

-- The part under `len >= 32`, and its `else`: the hash and `p`.
unfoldable pub start64 : List ℕ → ℕ → Option (ℕ × ℕ)
start64 input seed =
    if leb 32 (length input)
    then (do
      (v, p) ← stripes64 (length input) input 0 (record {
        v1 = u64 (seed + prime64_1 + prime64_2);
        v2 = u64 (seed + prime64_2);
        v3 = seed;
        v4 = u64 (seed + (2 ^ 64 - prime64_1));
      })
      some (merge64 v, p))
    else some (u64 (seed + prime64_5), 0)

-- `while (p + 8 <= b_end)`
unfoldable pub words64 : ℕ → List ℕ → ℕ → ℕ → Option (ℕ × ℕ)
words64 zero input p h = if leb (p + 8) (length input) then none else some (h, p)
words64 (suc rounds) input p h =
    if leb (p + 8) (length input)
    then (do
      k ← get_unaligned_le64 input p
      words64 rounds input (p + 8)
          (u64 (xxh_rotl64 (bit_xor h (xxh64_round 0 k)) 27 * prime64_1 + prime64_4)))
    else some (h, p)

-- `if (p + 4 <= b_end)`
unfoldable pub half64 : List ℕ → ℕ → ℕ → Option (ℕ × ℕ)
half64 input p h =
    if leb (p + 4) (length input)
    then (do
      k ← get_unaligned_le32 input p
      some (u64 (xxh_rotl64 (bit_xor h (u64 (k * prime64_1))) 23 * prime64_2 + prime64_3), p + 4))
    else some (h, p)

-- `while (p < b_end)`
unfoldable pub bytes64 : ℕ → List ℕ → ℕ → ℕ → Option (ℕ × ℕ)
bytes64 zero input p h = if ltb p (length input) then none else some (h, p)
bytes64 (suc rounds) input p h =
    if ltb p (length input)
    then (do
      k ← get_elem? input p
      bytes64 rounds input (p + 1)
          (u64 (xxh_rotl64 (bit_xor h (u64 (k * prime64_5))) 11 * prime64_1)))
    else some (h, p)

-- The last mixing.
unfoldable pub finish64 : ℕ → ℕ
finish64 h0 =
    let h1 = u64 (bit_xor h0 (h0 / 2 ^ 33) * prime64_2) in
    let h2 = u64 (bit_xor h1 (h1 / 2 ^ 29) * prime64_3) in bit_xor h2 (h2 / 2 ^ 32)

unfoldable pub xxh64 : List ℕ → ℕ → Option ℕ
xxh64 input seed = do
  (h, p) ← start64 input seed
  (h1, p1) ← words64 (length input) input p (u64 (h + length input))
  (h2, p2) ← half64 input p1 h1
  (h3, p3) ← bytes64 (length input) input p2 h2
  some (finish64 h3)
