-- ===== src/Map/Grow/Room.antt =====
-- `bm_extent_can_grow` decides whether an extent of ones has room for all its zeroes.
use kanekfs.Base.{
  ℕ, ◌+◌, ◌-◌, ◌*◌, ◌^◌, ◌≤◌, ◌<◌, ℤ, pos, negsuc, List, some, ◌≡◌, ◌≢◌, ◌↔◌, refl, arith, length,
  ltb, ◌==◌, inl, inr, Bool-cases,
}
use kanekfs.Map.Byte.Runs.{IsRun}
use kanekfs.Map.Bitmap.Sequence.{bit, bit-lt, IsBytes}
use kanekfs.Map.Count.RunLength.{bm_count-IsRun}
use kanekfs.Map.Grow.{ones_first, bm_extent_can_grow}

-- The `n` bits from `a` on are ones, perhaps none, and then one zero or more.
pub record CanGrow (bits : ℕ → ℕ) (a n : ℕ) : Type 0 where
  pub ones : ℕ
  pub room : ones < n
  pub leading : (j : ℕ) → a ≤ j → j < a + ones → bits j ≡ 1
  pub trailing : (j : ℕ) → a + ones ≤ j → j < a + n → bits j ≡ 0

-- Two readings of the same bits cannot disagree.
module _ (bits : ℕ → ℕ) (a n : ℕ) where
  not_grow_zeroes : (z : ℕ) → IsRun bits 0 a n z → 0 < z → z ≢ n → ¬ CanGrow bits a n
  not_grow_zeroes z run p q g = elim (Bool-cases (ltb 0 g.ones)) [
    | inl some_ones ↦ ground (arith, g.leading a, run.same a)
    | inr no_ones ↦
        run.stops (omega (arith, run.bounded))
          (g.trailing (a + z) (ground arith) (omega (arith, run.bounded)))
  ]

  not_grow_ones : (o : ℕ) → IsRun bits 1 a n o → o ≡ n → ¬ CanGrow bits a n
  not_grow_ones o run e g = ground (arith, g.room, g.trailing (a + g.ones), run.same (a + g.ones))

  not_grow_mixed :
      (o z : ℕ)
      → IsRun bits 1 a n o
      → o < n
      → IsRun bits 0 (a + o) (n - o) z
      → z ≢ n - o
      → ¬ CanGrow bits a n
  not_grow_mixed o z ones p zeroes q g = elim (Bool-cases (ltb g.ones o)) [
    | inl fewer ↦ ground (arith, g.room, g.trailing (a + g.ones), ones.same (a + g.ones))
    | inr enough ↦ elim (Bool-cases (ltb o g.ones)) [
      | inl more ↦ ones.stops p (g.leading (a + o) (omega arith) (ground arith))
      | inr same ↦
          zeroes.stops (omega (arith, zeroes.bounded))
            (g.trailing (a + o + z) (ground arith) (omega (arith, zeroes.bounded)))
    ]
  ]

grows : (bits : ℕ → ℕ) (a n : ℕ) → CanGrow bits a n → (pos 0 ≡ pos 0) ↔ CanGrow bits a n
grows bits a n g = (λ _. g, λ _. refl)

refuses : (bits : ℕ → ℕ) (a n k : ℕ) → ¬ CanGrow bits a n → (negsuc k ≡ pos 0) ↔ CanGrow bits a n
refuses bits a n k h = (λ e. cc, λ g. absurd (h g))

module _ (bm : List ℕ) (total a n : ℕ) (fits : total ≤ length bm * 8) (wide : total < 2 ^ 64)
    (bytes : IsBytes bm) (p : 0 < n) (small : n < 2 ^ 31) (l : a + n ≤ total) where
  zero_flag : 0 < 2
  zero_flag = omega arith

  two : 1 < 2
  two = omega arith

  abbrev Decides : ℤ → Type 0
  Decides rc = (rc ≡ pos 0) ↔ CanGrow (bit bm) a n

  ones_first-Decides : bit bm a ≡ 1 → (rc : ℤ) × (ones_first bm total a n ≡ some rc) × Decides rc
  unfolding ones_first
  ones_first-Decides one =
      let (o, counted, ones) = bm_count-IsRun bm total a n 1 fits wide bytes two p small l in
      let started : o ≢ 0 =
        λ z. let here : a + 0 ≡ a = omega arith in (rw z at ones).stops p (rw here one) in
      elim (Bool-cases (o == n)) [
        | inl full ↦ (
          negsuc 2,
          ground (arith, counted),
          refuses (bit bm) a n 2 (not_grow_ones (bit bm) a n o ones (ground arith)),
        )
        | inr room ↦
            let less : o < n = ground (arith, ones.bounded) in
            let (z, counted', zeroes) =
              bm_count-IsRun bm total (a + o) (n - o) 0 fits wide bytes zero_flag (omega arith)
                (omega arith) (omega arith) in
            elim (Bool-cases (n - o == z)) [
              | inl clear ↦ (
                pos 0,
                ground (arith, counted, counted', started),
                grows (bit bm) a n (record {
                  ones = o;
                  room = less;
                  leading = ones.same;
                  trailing = λ j h k. zeroes.same j h (ground arith);
                }),
              )
              | inr blocked ↦ (
                negsuc 4,
                ground (arith, counted, counted', started),
                refuses (bit bm) a n 4
                    (not_grow_mixed (bit bm) a n o z ones less zeroes (ground arith)),
              )
            ]
      ]

  -- For one bit or more inside the map, below 2 ^ 31, `bm_extent_can_grow` returns 0 exactly when
  -- the bits are ones followed by at least one zero and by nothing else.
  pub bm_extent_can_grow-CanGrow :
      (rc : ℤ) × (bm_extent_can_grow bm total a n ≡ some rc) × ((rc ≡ pos 0) ↔ CanGrow (bit bm) a n)
  unfolding bm_extent_can_grow
  bm_extent_can_grow-CanGrow =
      let (z, counted, zeroes) =
        bm_count-IsRun bm total a n 0 fits wide bytes zero_flag p small l in
      elim (Bool-cases (ltb 0 z)) [
        | inr ones ↦
            let none : z ≡ 0 = ground arith in
            let here : a + 0 ≡ a = omega arith in
            let nonzero : bit bm a ≢ 0 = λ e. (rw none at zeroes).stops p (rw here e) in
            let (rc, returns, decides) =
              ones_first-Decides (ground (arith, nonzero, bit-lt bm a)) in
            (rc, ground (arith, counted, returns), decides)
        | inl some_zeroes ↦ elim (Bool-cases (z == n)) [
          | inl clear ↦ (
            pos 0,
            ground (arith, counted),
            grows (bit bm) a n (record {
              ones = 0;
              room = p;
              leading = λ j h k. absurd (omega arith);
              trailing = λ j h k. zeroes.same j (omega arith) (ground arith);
            }),
          )
          | inr blocked ↦ (
            negsuc 1,
            ground (arith, counted),
            refuses (bit bm) a n 1
                (not_grow_zeroes (bit bm) a n z zeroes (ground arith) (ground arith)),
          )
        ]
      ]
