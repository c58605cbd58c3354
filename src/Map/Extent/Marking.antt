-- ===== src/Map/Extent/Marking.antt =====
-- `bm_set_extent` writes the bits of its extent and no other, except that it forgets a last bit
-- that stands alone in its byte.
use kanekfs.Base.{
  ℕ, zero, suc, ◌+◌, ◌-◌, ◌*◌, ◌/◌, ◌%◌, ◌^◌, ◌≤◌, ◌<◌, bit_and, ℤ, pos, negsuc, List, Option, some,
  ◌≡◌, refl, arith, get_or, set, length, ltb, leb, ◌==◌, if◌then◌else◌, get_elem?-eq-get_or, u64,
  inl, inr, Bool-cases,
}
use kanekfs.Bits.{bit_at, zero_bit, bit_at-high, bit_and_seven}
use kanekfs.Map.Byte.{byte_set_bits}
use kanekfs.Map.Byte.Digits.{full_byte, stop_after}
use kanekfs.Map.Bitmap.Sequence.{
  digit, IsBytes, IsWritten, IsWritten-at, IsWritten-none, IsWritten-trans, IsWritten-set,
  IsWritten-byte_set_bits,
}
use kanekfs.Map.Extent.{fill, memset, set_extra_bits, set_full_bytes, set_first_byte, bm_set_extent}

-- A run of whole bytes.
fill-IsWritten :
    (n location v byte : ℕ) (bm : List ℕ)
    → location + n ≤ length bm
    → IsBytes bm
    → byte < 2 ^ 8
    → ((j : ℕ) → bit_at byte j ≡ (if ltb j 8 then v else 0))
    → IsWritten bm (location * 8) ((location + n) * 8) v (fill n location byte bm)
unfolding fill
fill-IsWritten zero location v byte bm l h b e =
    let z : (location + 0) * 8 ≡ location * 8 = omega arith in
    rw z (IsWritten-none bm (location * 8) v h)
fill-IsWritten (suc n) location v byte bm l h b e =
    let first : IsWritten bm (location * 8 + 0) (location * 8 + 8) v (set bm location byte) =
      IsWritten-set bm location 0 8 v byte (omega arith) h (omega arith) b
        (λ j. ground (arith, e j, bit_at-high 8 (get_or bm location 0) j (h location))) in
    let rest =
      fill-IsWritten n (location + 1) v byte (set bm location byte)
        (omega (arith, first.same_length)) first.bytes b e in
    IsWritten-trans (omega arith) (omega arith)
      (IsWritten-at (location * 8) ((location + 1) * 8) (omega arith) (omega arith) first)
      (IsWritten-at ((location + 1) * 8) ((location + suc n) * 8) refl (omega arith) rest)

-- Where the writing stops short of `end`: a bit that is alone in the last byte is not written.
abbrev pub marked_end : ℕ → ℕ
marked_end end = if end % 8 == 1 then end - 1 else end

abbrev pub marked_code : ℕ → ℤ
marked_code end = if end % 8 == 1 then negsuc 1 else pos 0

-- A result that wrote the bits from `lo` up to `end`, as far as `marked_end` says.
abbrev pub Marked : List ℕ → ℕ → ℕ → ℕ → Option (ℤ × List ℕ) → Type 0
Marked bm lo end v result =
    (bm' : List ℕ) × (result ≡ some (marked_code end, bm')) × IsWritten bm lo (marked_end end) v bm'

module _ (bm : List ℕ) (location pending flag : ℕ) (bytes : IsBytes bm) where
  set_extra_bits-Marked :
      0 < pending
      → pending < 8
      → location < length bm
      → Marked bm
          (location * 8)
          (location * 8 + pending)
          (digit flag)
          (set_extra_bits bm location pending flag)
  unfolding set_extra_bits
  set_extra_bits-Marked p q l = elim (Bool-cases (pending == 1)) [
    | inl lone ↦ (
      bm,
      ground arith,
      IsWritten-at (location * 8) _ refl (ground arith)
          (IsWritten-none bm (location * 8) (digit flag) bytes),
    )
    | inr more ↦ (
      set bm location (byte_set_bits 0 (pending % 8) (get_or bm location 0) flag),
      ground (arith, get_elem?-eq-get_or bm location 0 l),
      IsWritten-at (location * 8) _ (omega arith) (ground arith)
          (IsWritten-byte_set_bits bm location 0 (pending % 8) flag l bytes (omega arith)),
    )
  ]

byte_digits :
    (flag j : ℕ)
    → flag < 2
    → bit_at (if flag == 0 then 0x00 else 0xff) j ≡ (if ltb j 8 then digit flag else 0)
byte_digits flag j f = ground (arith, full_byte j, zero_bit j)

module _ (bm : List ℕ) (location pending flag : ℕ) (bytes : IsBytes bm) (two : flag < 2) where
  set_full_bytes-Marked :
      0 < pending
      → location * 8 + pending ≤ length bm * 8
      → Marked bm
          (location * 8)
          (location * 8 + pending)
          (digit flag)
          (set_full_bytes bm location pending flag)
  unfolding set_full_bytes memset
  set_full_bytes-Marked p l = elim (Bool-cases (leb 1 (pending / 8))) [
    | inr few ↦
        let (bm', returns, w) =
          set_extra_bits-Marked bm location pending flag bytes p (ground arith) (ground arith) in
        (bm', ground (arith, returns), w)
    | inl some_bytes ↦
        let byte : ℕ = if flag == 0 then 0x00 else 0xff in
        let full : List ℕ = fill (pending / 8) location byte bm in
        let w =
          fill-IsWritten (pending / 8) location (digit flag) byte bm (omega arith) bytes
            (ground arith) (λ j. byte_digits flag j two) in
        elim (Bool-cases (pending % 8 == 0)) [
          | inl none_left ↦
              (full, ground arith, IsWritten-at (location * 8) _ refl (ground arith) w)
          | inr left ↦
              let (bm', returns, w') =
                set_extra_bits-Marked full (location + pending / 8) (pending - pending / 8 * 8) flag
                  w.bytes (ground arith) (omega arith) (ground (arith, w.same_length)) in
              (
                bm',
                ground (arith, returns),
                IsWritten-at (location * 8) _ refl (ground arith)
                    (IsWritten-trans (omega arith) (ground arith) w w'),
              )
        ]
  ]

module _ (bm : List ℕ) (location aligned n flag : ℕ) (bytes : IsBytes bm) (two : flag < 2) where
  set_first_byte-Marked :
      0 < aligned
      → aligned < 8
      → 1 < n
      → aligned + n < 2 ^ 64
      → location * 8 + aligned + n ≤ length bm * 8
      → Marked bm
          (location * 8 + aligned)
          (location * 8 + aligned + n)
          (digit flag)
          (set_first_byte bm location aligned n flag)
  unfolding set_first_byte
  set_first_byte-Marked pos_a a p small l =
      let there : location < length bm = omega arith in
      let k : ℕ = if ltb (u64 (aligned + n)) 8 then n else 8 - aligned in
      let bm' : List ℕ = set bm location (byte_set_bits aligned k (get_or bm location 0) flag) in
      let w = IsWritten-byte_set_bits bm location aligned k flag there bytes a in
      elim (Bool-cases (n - k == 0)) [
        | inl whole ↦ (
          bm',
          ground (arith, get_elem?-eq-get_or bm location 0 there),
          IsWritten-at (location * 8 + aligned) _ refl (ground arith) w,
        )
        | inr left ↦
            let (bm'', returns, w') =
              set_full_bytes-Marked bm' (location + 1) (n - k) flag w.bytes two (ground arith)
                (ground (arith, w.same_length)) in
            (
              bm'',
              ground (arith, get_elem?-eq-get_or bm location 0 there, returns),
              IsWritten-at (location * 8 + aligned) _ refl (ground arith) (
                  IsWritten-trans (omega arith) (ground arith) w
                    (IsWritten-at (location * 8 + stop_after aligned k) _ (ground arith) refl w')),
            )
      ]

-- For an extent of two bits or more inside the map, and a flag of 0 or 1, `bm_set_extent` makes
-- every bit of the extent the flag, leaves all other bits, and returns 0; except when the last
-- bit of the extent is the first of a byte: then that bit is not written, and the result is -2.
pub bm_set_extent-Marked :
    (bm : List ℕ) (total a n flag : ℕ)
    → total ≤ length bm * 8
    → total < 2 ^ 64
    → IsBytes bm
    → flag < 2
    → 1 < n
    → a + n ≤ total
    → Marked bm a (a + n) (digit flag) (bm_set_extent bm total a n flag)
unfolding bm_set_extent
bm_set_extent-Marked bm total a n flag fits small bytes two p l =
    let split : bit_and a 7 ≡ a % 8 = bit_and_seven a in
    elim (Bool-cases (a % 8 == 0)) [
      | inl aligned ↦
          let (bm', returns, w) =
            set_full_bytes-Marked bm (a / 8) n flag bytes two (omega arith) (ground arith) in
          (bm', ground (arith, returns, split), IsWritten-at a _ (ground arith) (ground arith) w)
      | inr ragged ↦
          let (bm', returns, w) =
            set_first_byte-Marked bm (a / 8) (a % 8) n flag bytes two (ground arith) (omega arith) p
              (omega arith) (omega arith) in
          (bm', ground (arith, returns, split), IsWritten-at a _ (omega arith) (ground arith) w)
    ]
