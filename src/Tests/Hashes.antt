-- ===== src/Tests/Hashes.antt =====
-- fs/hash.c on short inputs.
use kanekfs.Base.{
  ℕ, zero, suc, ◌+◌, ◌*◌, ◌<◌, ◌^◌, negsuc, List, [], ◌∷◌, some, ◌≡◌, ◌↔◌, refl, arith, true,
  get_or,
}
use kanekfs.Bits.{bit_at}
use kanekfs.Hash.Base79.{range_loop, ascii_2_mx79, strlen, char_int, hash_loop, hash_b79}
use kanekfs.Hash.Base79.Words.{Before}
use kanekfs.Hash.Base79.Codes.{is_clean}
use kanekfs.Hash.Base79.Hashes.{IsAscii, IsWord, digit79, hash_b79-Before, hash_b79-injective}
use kanekfs.Hash.Xxh.{xxh_rotl32, xxh_rotl64}
use kanekfs.Hash.Xxh.Wide.{start64, words64, half64, bytes64, finish64, xxh64}
use kanekfs.Hash.Xxh.Narrow.{start32, words32, bytes32, finish32, xxh32}
use kanekfs.Hash.Xxh.Safe.{xxh64-ends}
use kanekfs.Hash.Xxh.Rotate.{xxh_rotl64-digit}

-- "ab" and "b"
abbrev ab : List ℕ
ab = 97 ∷ 98 ∷ []

abbrev b : List ℕ
b = 98 ∷ []

-- The hash of "ab" puts 50 and 51 before eight zeroes.
hash_ab : hash_b79 ab ≡ (50 * 79 + 51) * 79 ^ 8
unfolding hash_b79 hash_loop strlen ascii_2_mx79 range_loop
hash_ab = refl

-- A byte of 0x80 and above has the code -1.
code_of_0x80 : ascii_2_mx79 (char_int 0x80) ≡ negsuc 0
unfolding ascii_2_mx79 range_loop
code_of_0x80 = refl

xxh64_of_nothing : xxh64 [] 0 ≡ some 0xef46db3751d8e999
unfolding xxh64 start64 words64 half64 bytes64 finish64
xxh64_of_nothing = refl

xxh32_of_nothing : xxh32 [] 0 ≡ some 0x02cc5d05
unfolding xxh32 start32 words32 bytes32 finish32
xxh32_of_nothing = refl

-- "a"
xxh64_of_a : xxh64 (97 ∷ []) 0 ≡ some 0xd24ec4f1a98c6e5b
unfolding xxh64 start64 words64 half64 bytes64 finish64 xxh_rotl64
xxh64_of_a = refl

xxh32_of_a : xxh32 (97 ∷ []) 0 ≡ some 0x550d7456
unfolding xxh32 start32 words32 bytes32 finish32 xxh_rotl32
xxh32_of_a = refl

ab-IsAscii : IsAscii ab
unfolding strlen
ab-IsAscii zero h = omega arith
ab-IsAscii (suc zero) h = omega arith
ab-IsAscii (suc (suc i)) h = absurd (ground arith)

b-IsAscii : IsAscii b
unfolding strlen
b-IsAscii zero h = omega arith
b-IsAscii (suc i) h = absurd (ground arith)

ab-IsWord : IsWord ab
ab-IsWord = record { short = omega arith; all_clean = clean }
  where
    clean : (i : ℕ) → i < 2 → is_clean (get_or ab i 0) ≡ true
    clean zero h = refl
    clean (suc zero) h = refl
    clean (suc (suc i)) h = absurd (omega arith)

hash_b79-Before_example : (hash_b79 ab < hash_b79 b) ↔ Before (digit79 ab) (digit79 b) 10
hash_b79-Before_example = hash_b79-Before ab b ab-IsAscii b-IsAscii

hash_b79-injective_example : ab ≡ ab
hash_b79-injective_example = hash_b79-injective ab ab ab-IsWord ab-IsWord refl

xxh64-ends_example : (h : ℕ) × (xxh64 ab 7 ≡ some h) × (h < 2 ^ 64)
xxh64-ends_example = xxh64-ends ab 7

xxh_rotl64-digit_example : bit_at (xxh_rotl64 5 62) 0 ≡ bit_at 5 2
xxh_rotl64-digit_example =
    xxh_rotl64-digit 5 62 0 (omega arith) (omega arith) (omega arith) (omega arith)
