-- ===== src/Tests/Bitmaps.antt =====
-- fs/map.c on a map of three bytes.
use kanekfs.Base.{
  ℕ, zero, suc, ℤ, pos, negsuc, List, [], ◌∷◌, none, some, ◌≡◌, ◌↔◌, ◌==◌, refl, arith,
  if◌then◌else◌,
}
use kanekfs.Map.Byte.{
  mask_loop, byte_set_bits, byte_get_bit, count_bits_loop, byte_count_bits, find_gap_loop,
  byte_find_gap, found, end_of_byte,
}
use kanekfs.Map.Byte.Runs.{IsRun}
use kanekfs.Map.Bitmap.{bm_set_bit, bm_get_bit}
use kanekfs.Map.Bitmap.Sequence.{bit, IsBytes}
use kanekfs.Map.Bitmap.Single.{bm_get_bit-bm_set_bit}
use kanekfs.Map.Extent.{fill, memset, set_extra_bits, set_full_bytes, set_first_byte, bm_set_extent}
use kanekfs.Map.Extent.Marking.{Marked, bm_set_extent-Marked}
use kanekfs.Map.Count.{count_loop, bm_count}
use kanekfs.Map.Count.RunLength.{bm_count-IsRun}
use kanekfs.Map.Find.{find_loop, bm_find}
use kanekfs.Map.Find.FirstFree.{FirstZero, bm_find-FirstZero}
use kanekfs.Map.Grow.{ones_first, bm_extent_can_grow}
use kanekfs.Map.Grow.Room.{CanGrow, bm_extent_can_grow-CanGrow}

-- All of fs/map.c, open.
program : Unit {0}
unfolding mask_loop byte_set_bits byte_get_bit count_bits_loop byte_count_bits find_gap_loop
    byte_find_gap bm_set_bit bm_get_bit fill memset set_extra_bits set_full_bytes set_first_byte
    bm_set_extent count_loop bm_count find_loop bm_find ones_first bm_extent_can_grow
program = tt

abbrev map3 : List ℕ
map3 = 0x07 ∷ 0xf0 ∷ 0x00 ∷ []

map3-IsBytes : IsBytes map3
map3-IsBytes zero = omega arith
map3-IsBytes (suc zero) = omega arith
map3-IsBytes (suc (suc zero)) = omega arith
map3-IsBytes (suc (suc (suc i))) = omega arith

runs :
    (bm_set_extent map3 24 3 10 1 ≡ some (pos 0, 0xff ∷ 0xff ∷ 0x00 ∷ []))
    × (bm_set_extent map3 24 3 10 0 ≡ some (pos 0, 0x07 ∷ 0xe0 ∷ 0x00 ∷ []))
    × (bm_count map3 24 3 21 0 ≡ some (pos 0, 9))
    × (bm_count map3 24 12 12 1 ≡ some (pos 0, 4))
    × (bm_find map3 24 0 24 1 ≡ some (pos 0, 3))
    × (bm_extent_can_grow map3 24 0 12 ≡ some (pos 0))
    × (bm_extent_can_grow map3 24 0 13 ≡ some (negsuc 4))
    × (byte_find_gap 0 3 0x07 ≡ (found 3, 3))
    × (byte_find_gap 0 6 0x07 ≡ (end_of_byte, 5))
unfolding program
runs = (refl, refl, refl, refl, refl, refl, refl, refl, refl)

-- Nine bits from an aligned address: the ninth is not written.
lone_bit : bm_set_extent map3 24 8 9 1 ≡ some (negsuc 1, 0x07 ∷ 0xff ∷ 0x00 ∷ [])
unfolding program
lone_bit = refl

-- A search for four zeroes takes bit 7 together with bits 10 to 12.
wrong_gap : bm_find (0x7f ∷ 0x02 ∷ []) 16 0 16 4 ≡ some (pos 0, 7)
unfolding program
wrong_gap = refl

-- A search for one zero in a map of four bits that are all taken.
past_the_end : bm_find (0x0f ∷ []) 4 0 4 1 ≡ some (pos 0, 4)
unfolding program
past_the_end = refl

-- A search for thirteen zeroes that reads past the map.
reads_past_the_end : bm_find (0x0f ∷ 0x00 ∷ []) 16 0 16 13 ≡ none
unfolding program
reads_past_the_end = refl

bm_set_extent-Marked_example : Marked map3 3 13 1 (bm_set_extent map3 24 3 10 1)
bm_set_extent-Marked_example =
    bm_set_extent-Marked map3 24 3 10 1 (omega arith) (omega arith) map3-IsBytes (omega arith)
      (omega arith) (omega arith)

bm_count-IsRun_example :
    (r : ℕ) × (bm_count map3 24 3 21 0 ≡ some (pos 0, r)) × IsRun (bit map3) 0 3 21 r
bm_count-IsRun_example =
    bm_count-IsRun map3 24 3 21 0 (omega arith) (omega arith) map3-IsBytes (omega arith)
      (omega arith) (omega arith) (omega arith)

bm_find-FirstZero_example : FirstZero (bit map3) 0 24 (bm_find map3 24 0 24 1)
bm_find-FirstZero_example =
    bm_find-FirstZero map3 24 0 24 (omega arith) (omega arith) (omega arith) (omega arith)

bm_get_bit-bm_set_bit_example :
    (bm' : List ℕ) × (bm_set_bit map3 24 5 1 ≡ some (pos 0, bm'))
    × ((b : ℕ) → bm_get_bit bm' 24 b ≡ (if 5 == b then some (pos 1) else bm_get_bit map3 24 b))
bm_get_bit-bm_set_bit_example =
    bm_get_bit-bm_set_bit map3 24 5 1 (omega arith) map3-IsBytes (omega arith)

bm_extent_can_grow-CanGrow_example :
    (rc : ℤ) × (bm_extent_can_grow map3 24 0 12 ≡ some rc)
    × ((rc ≡ pos 0) ↔ CanGrow (bit map3) 0 12)
bm_extent_can_grow-CanGrow_example =
    bm_extent_can_grow-CanGrow map3 24 0 12 (omega arith) (omega arith) map3-IsBytes (omega arith)
      (omega arith) (omega arith)
