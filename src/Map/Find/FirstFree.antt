-- ===== src/Map/Find/FirstFree.antt =====
-- `bm_find` with a gap of one bit, the only size that the file system asks for: it finds the
-- first free bit.
use kanekfs.Base.{
  ℕ, zero, suc, ◌+◌, ◌-◌, ◌*◌, ◌/◌, ◌%◌, ◌^◌, ◌≤◌, ◌<◌, ℤ, pos, negsuc, List, Option, some, drop,
  false, min, drop-cons, ◌≡◌, ◌≢◌, refl, sym, ap, ◌∙◌, arith, get_or, length, ltb, inl, inr,
  Bool-cases, ◌⊎◌,
}
use kanekfs.Bits.{bit_at, bit_at-lt, bit_and_seven}
use kanekfs.Map.Byte.{Gap, found, no_gap, end_of_byte, byte_find_gap}
use kanekfs.Map.Byte.Gaps.{GapSpec, IsClear, byte_find_gap-GapSpec}
use kanekfs.Map.Bitmap.Sequence.{bit}
use kanekfs.Map.Find.{find_loop, bm_find}

abbrev pub AllOnes : (ℕ → ℕ) → ℕ → ℕ → Type 0
AllOnes bits lo hi = (j : ℕ) → lo ≤ j → j < hi → bits j ≡ 1

-- The first zero from `a` on, or no zero before `stop`. A zero past `stop` may be reported, from
-- the rest of the last byte.
abbrev pub FirstZero : (ℕ → ℕ) → ℕ → ℕ → Option (ℤ × ℕ) → Type 0
FirstZero bits a stop result =
    ((p : ℕ) × (result ≡ some (pos 0, p))
      × (a ≤ p)
      × (p / 8 ≤ (stop - 1) / 8)
      × (bits p ≡ 0)
      × AllOnes bits a p)
    ⊎ (result ≡ some (negsuc 0, 0)) × AllOnes bits a stop

FirstZero-at :
    (bits : ℕ → ℕ) (a stop a' stop' : ℕ) (result result' : Option (ℤ × ℕ))
    → a ≡ a'
    → stop ≡ stop'
    → result ≡ result'
    → FirstZero bits a stop result
    → FirstZero bits a' stop' result'
FirstZero-at bits a stop a' stop' result result' p q e (inl (z, r, lo, near, free, before)) =
    inl (z, sym e ∙ r, omega arith, ground arith, free, λ j h k. before j (omega arith) k)
FirstZero-at bits a stop a' stop' result result' p q e (inr (r, before)) =
    inr (sym e ∙ r, λ j h k. before j (omega arith) (omega arith))

module _ (bm : List ℕ) where
  digit_of_map :
      (location i : ℕ) → i < 8 → bit bm (location * 8 + i) ≡ bit_at (get_or bm location 0) i
  unfolding bit
  digit_of_map location i h =
      let q : (location * 8 + i) / 8 ≡ location = omega arith in
      let r : (location * 8 + i) % 8 ≡ i = omega arith in rw (q, r)

  -- Not clear for one digit is a one.
  one_of_taken :
      (location i : ℕ)
      → i < 8
      → ¬ IsClear (bit_at (get_or bm location 0)) i 1
      → bit bm (location * 8 + i) ≡ 1
  one_of_taken location i h taken =
      let byte = get_or bm location 0 in
      let nonzero : bit_at byte i ≢ 0 =
        λ z. taken (λ j p q. let e : j ≡ i = omega arith in rw e z) in
      rw (digit_of_map location i h) (ground (arith, nonzero, bit_at-lt byte i))

  -- One round of the loop, by the result for its byte.
  find_loop-round :
      (location aligned count address : ℕ)
      → aligned < 8
      → 0 < count
      → location < length bm
      → (8 - aligned < count
          → FirstZero (bit bm) ((location + 1) * 8) (location * 8 + aligned + count) (
              find_loop
                (drop (suc location) bm)
                (location + 1)
                0
                (count - (8 - aligned))
                1
                1
                false
                address))
      → (r : Gap × ℕ) → byte_find_gap aligned 1 (get_or bm location 0) ≡ r
      → GapSpec (bit_at (get_or bm location 0)) aligned 1 r
      → FirstZero
          (bit bm)
          (location * 8 + aligned)
          (location * 8 + aligned + count)
          (find_loop (drop location bm) location aligned count 1 1 false address)
  unfolding find_loop
  find_loop-round location aligned count address s p l rest (found i, c) e (a, b, k, clear, first) =
      let split = drop-cons bm location 0 l in
      inl (
        location * 8 + i,
        rw split (ground (arith, e)),
        omega arith,
        omega arith,
        rw (digit_of_map location i (omega arith)) (clear i (omega arith) (omega arith)),
        λ j h q.
            let m : location * 8 + (j - location * 8) ≡ j = omega arith in
            rw m at (
              one_of_taken location (j - location * 8) (omega arith)
                (first (j - location * 8) (omega arith) (omega arith))),
      )
  find_loop-round location aligned count address s p l rest (no_gap, c) e (z, taken) =
      let split = drop-cons bm location 0 l in
      let ones : AllOnes (bit bm) (location * 8 + aligned) (location * 8 + 8) = λ j h q.
        let m : location * 8 + (j - location * 8) ≡ j = omega arith in
        rw m at (
          one_of_taken location (j - location * 8) (omega arith)
            (taken (j - location * 8) (omega arith) (omega arith))) in
      elim (Bool-cases (ltb (8 - aligned) count)) [
        | inl more ↦ elim (rest (ground arith)) [
          | inl (q, returns, below, near, zero_bit, before) ↦ inl (
            q,
            rw split (ground (arith, e, returns)),
            omega arith,
            near,
            zero_bit,
            λ j h k. ground (arith, ones j, before j),
          )
          | inr (returns, before) ↦
              inr (rw split (ground (arith, e, returns)), λ j h k. ground (arith, ones j, before j))
        ]
        | inr last ↦ inr (rw split (ground (arith, e)), λ j h k. ones j h (ground arith))
      ]
  find_loop-round location aligned count address s p l rest (end_of_byte, c) e
        (a, b, k, clear, taken) =
      absurd (omega arith)

  find_loop-FirstZero :
      (left location aligned count address : ℕ)
      → location + left ≡ length bm
      → aligned < 8
      → 0 < count
      → location * 8 + aligned + count ≤ length bm * 8
      → FirstZero
          (bit bm)
          (location * 8 + aligned)
          (location * 8 + aligned + count)
          (find_loop (drop location bm) location aligned count 1 1 false address)
  find_loop-FirstZero zero location aligned count address l s p fits = absurd (omega arith)
  find_loop-FirstZero (suc left) location aligned count address l s p fits =
      find_loop-round location aligned count address s p (omega arith)
        (λ more.
          let rest =
            find_loop-FirstZero left (location + 1) 0 (count - (8 - aligned)) address (omega arith)
              (omega arith) (omega arith) (omega arith) in
          let next : location + 1 ≡ suc location = omega arith in
          FirstZero-at (bit bm) _ _ ((location + 1) * 8) (location * 8 + aligned + count) _ _
            (omega arith) (omega arith)
            (ap
              (λ (k : ℕ).
                find_loop (drop k bm) (location + 1) 0 (count - (8 - aligned)) 1 1 false address)
              next)
            rest)
        (byte_find_gap aligned 1 (get_or bm location 0)) refl
        (byte_find_gap-GapSpec aligned 1 (get_or bm location 0) s (omega arith))

-- Asked for a gap of one bit, inside the map and over one bit or more, where the address and the
-- count have a sum below 2 ^ 64, `bm_find` returns 0 with the address of the first zero at or after
-- the start, every bit before it being 1; or -1, and then all the bits of the range, cut off at the
-- end of the map, are 1. The zero lies in the range or in the rest of the byte where the range ends.
pub bm_find-FirstZero :
    (bm : List ℕ) (total a count : ℕ)
    → total ≤ length bm * 8
    → a + count < 2 ^ 64
    → a < total
    → 0 < count
    → FirstZero (bit bm) a (min total (a + count)) (bm_find bm total a count 1)
unfolding bm_find
bm_find-FirstZero bm total a count fits small h p =
    let span = min total (a + count) - a in
    let loop =
      find_loop-FirstZero bm (length bm - a / 8) (a / 8) (a % 8) span 0 (omega arith) (omega arith)
        (omega arith) (omega arith) in
    FirstZero-at (bit bm) _ _ a (min total (a + count))
      (find_loop (drop (a / 8) bm) (a / 8) (a % 8) span 1 1 false 0) _ (omega arith) (omega arith)
      (ground (arith, bit_and_seven a)) loop
