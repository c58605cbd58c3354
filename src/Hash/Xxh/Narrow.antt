-- ===== src/Hash/Xxh/Narrow.antt =====
-- `xxh32` of fs/hash.c.
use kanekfs.Base.{
  ℕ, zero, suc, ◌+◌, ◌-◌, ◌*◌, ◌/◌, ◌^◌, List, Option, none, some, ltb, leb, u32, bit_xor,
  get_elem?, length, if◌then◌else◌,
}
use kanekfs.Map.Bitmap.{◌>>=◌}
use kanekfs.Hash.Xxh.{
  xxh_rotl32, get_unaligned_le32, prime32_1, prime32_2, prime32_3, prime32_4, prime32_5, Lanes,
}

unfoldable pub xxh32_round : ℕ → ℕ → ℕ
xxh32_round seed input = u32 (xxh_rotl32 (u32 (seed + input * prime32_2)) 13 * prime32_1)

-- `do { … } while (p <= limit)` with rounds to spare.
unfoldable pub stripes32 : ℕ → List ℕ → ℕ → Lanes → Option (Lanes × ℕ)
stripes32 zero input p v = none
stripes32 (suc rounds) input p v = do
  i1 ← get_unaligned_le32 input p
  i2 ← get_unaligned_le32 input (p + 4)
  i3 ← get_unaligned_le32 input (p + 8)
  i4 ← get_unaligned_le32 input (p + 12)
  let v' : Lanes = record {
    v1 = xxh32_round v.v1 i1;
    v2 = xxh32_round v.v2 i2;
    v3 = xxh32_round v.v3 i3;
    v4 = xxh32_round v.v4 i4;
  }
  let again = stripes32 rounds input (p + 16) v'
  if leb (p + 16 + 16) (length input) then again else some (v', p + 16)

-- The part under `len >= 16`, and its `else`.
unfoldable pub start32 : List ℕ → ℕ → Option (ℕ × ℕ)
start32 input seed =
    if leb 16 (length input)
    then (do
      (v, p) ← stripes32 (length input) input 0 (record {
        v1 = u32 (seed + prime32_1 + prime32_2);
        v2 = u32 (seed + prime32_2);
        v3 = seed;
        v4 = u32 (seed + (2 ^ 32 - prime32_1));
      })
      some (
        u32 (xxh_rotl32 v.v1 1 + xxh_rotl32 v.v2 7 + xxh_rotl32 v.v3 12 + xxh_rotl32 v.v4 18),
        p,
      ))
    else some (u32 (seed + prime32_5), 0)

-- `while (p + 4 <= b_end)`
unfoldable pub words32 : ℕ → List ℕ → ℕ → ℕ → Option (ℕ × ℕ)
words32 zero input p h = if leb (p + 4) (length input) then none else some (h, p)
words32 (suc rounds) input p h =
    if leb (p + 4) (length input)
    then (do
      k ← get_unaligned_le32 input p
      words32 rounds input (p + 4) (u32 (xxh_rotl32 (u32 (h + k * prime32_3)) 17 * prime32_4)))
    else some (h, p)

-- `while (p < b_end)`
unfoldable pub bytes32 : ℕ → List ℕ → ℕ → ℕ → Option (ℕ × ℕ)
bytes32 zero input p h = if ltb p (length input) then none else some (h, p)
bytes32 (suc rounds) input p h =
    if ltb p (length input)
    then (do
      k ← get_elem? input p
      bytes32 rounds input (p + 1) (u32 (xxh_rotl32 (u32 (h + k * prime32_5)) 11 * prime32_1)))
    else some (h, p)

-- The last mixing.
unfoldable pub finish32 : ℕ → ℕ
finish32 h0 =
    let h1 = u32 (bit_xor h0 (h0 / 2 ^ 15) * prime32_2) in
    let h2 = u32 (bit_xor h1 (h1 / 2 ^ 13) * prime32_3) in bit_xor h2 (h2 / 2 ^ 16)

unfoldable pub xxh32 : List ℕ → ℕ → Option ℕ
xxh32 input seed = do
  (h, p) ← start32 input seed
  (h1, p1) ← words32 (length input) input p (u32 (h + length input))
  (h2, p2) ← bytes32 (length input) input p1 h1
  some (finish32 h2)
