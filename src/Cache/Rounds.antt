-- ===== src/Cache/Rounds.antt =====
-- A whole pass of the cache thread: the flags, the slots, and the cache as a whole.
use kanekfs.Base.{
  ℕ, zero, suc, ◌+◌, ◌<◌, max, List, [], ◌∷◌, Option, none, some, ◌≡◌, refl, arith, get_or, Bool,
  inl, inr, if◌then◌else◌, ◌==◌, ltb, bit_or, Bool-cases, ◌||◌,
}
use kanekfs.Bits.{bit_at, bit_at-lt, set_flag_bit, clear_flag_bit}
use kanekfs.Cache.{Element, Cache, Callbacks, on, off32}
use kanekfs.Cache.Thread.{thread_pass, end_of_pass}
use kanekfs.Cache.Invariant.{IsValid, used, used-le-length, on-digit}
use kanekfs.Cache.Pass.{after_pass, after_pass-SlotOk, traverse-after_pass}

-- The flags after a pass: `CACHE_ON_LOOP` and `CACHE_SET_LOOP_DONE` are off, `CACHE_EVICTED`
-- follows `CACHE_EXIT`, `CACHE_LOOP_DONE` follows `CACHE_SET_LOOP_DONE`, and the rest stays.
pub end_of_pass-digit :
    (flags j : ℕ)
    → j < 32
    → bit_at (end_of_pass flags) j ≡ (
        if j == 6 || j == 8
        then 0
        else if j == 7
        then max (bit_at flags 5) (bit_at flags 7)
        else if j == 9
        then max (bit_at flags 8) (bit_at flags 9)
        else bit_at flags j)
unfolding end_of_pass
end_of_pass-digit flags j h =
    let f1 = off32 flags 64 in
    let f2 = if on f1 32 then bit_or f1 128 else f1 in
    ground (
      arith,
      on-digit f1 5,
      clear_flag_bit 32 flags 6 j h,
      clear_flag_bit 32 flags 6 5 (omega arith),
      clear_flag_bit 32 flags 6 8 (omega arith),
      set_flag_bit f1 7 j,
      set_flag_bit f1 7 8,
      on-digit f1 8,
      on-digit (bit_or f1 128) 8,
      clear_flag_bit 32 f1 8 j h,
      clear_flag_bit 32 (bit_or f1 128) 8 j h,
      set_flag_bit (off32 f1 256) 9 j,
      set_flag_bit (off32 (bit_or f1 128) 256) 9 j,
      bit_at-lt flags 5,
      bit_at-lt flags 7,
      bit_at-lt flags 8,
      bit_at-lt flags 9,
    )

used-zero :
    (elements : List (Option Element)) (k : ℕ) → used elements ≡ 0 → get_or elements k none ≡ none
unfolding used
used-zero [] k h = refl
used-zero (none ∷ rest) zero h = refl
used-zero (none ∷ rest) (suc k) h = used-zero rest k h
used-zero (some el ∷ rest) k h = absurd (omega arith)

pub used-none :
    (elements : List (Option Element))
    → ((k : ℕ) → get_or elements k none ≡ none)
    → used elements ≡ 0
unfolding used
used-none [] h = refl
used-none (none ∷ rest) h = used-none rest (λ k. h (suc k))
used-none (some el ∷ rest) h = absurd (ground (arith, h 0))

module _ (busy : ℕ → Bool) {W : Type 0} (cb : Callbacks W) (cache : Cache) (w : W)
    (v : IsValid cache) where
  pub thread_pass-after_pass :
      IsValid (thread_pass cb busy cache w).0
      × ((k : ℕ)
          → get_or (thread_pass cb busy cache w).0.elements k none
            ≡ after_pass busy k (get_or cache.elements k none))
      × ((j : ℕ)
          → j < 32
          → bit_at (thread_pass cb busy cache w).0.flags j ≡ bit_at (end_of_pass cache.flags) j)
  unfolding thread_pass
  thread_pass-after_pass = elim (Bool-cases (ltb 0 cache.in_use)) [
    | inl some_used ↦
        let (slots, count, same) =
          traverse-after_pass busy cb 0 cache.elements cache.in_use w v.slots
            (omega (arith, v.counted))
            (omega (arith, v.counted, v.capacity, used-le-length cache.elements)) in
        rw some_used (
          record {
            capacity = omega (arith, v.capacity);
            counted = omega (arith, v.counted);
            slots = λ k.
                rw (slots k)
                  (after_pass-SlotOk busy (0 + k) (get_or cache.elements k none) (v.slots k));
          },
          λ k. let z : 0 + k ≡ k = omega arith in rw (slots k) (rw z refl),
          λ j h. ground (
            arith,
            end_of_pass-digit (bit_or cache.flags 64) j h,
            end_of_pass-digit cache.flags j h,
            set_flag_bit cache.flags 6 j,
            set_flag_bit cache.flags 6 5,
            set_flag_bit cache.flags 6 7,
            set_flag_bit cache.flags 6 8,
            set_flag_bit cache.flags 6 9,
          ),
        )
    | inr unused ↦ rw unused (
      record { capacity = v.capacity; counted = v.counted; slots = v.slots },
      λ k. rw (used-zero cache.elements k (ground (arith, v.counted))) (unfold after_pass in refl),
      λ j h. refl,
    )
  ]
