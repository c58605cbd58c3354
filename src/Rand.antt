-- ===== src/Rand.antt =====
-- `krand64` of fs/krand64.c. `_kseed64` is the state.
pub mod Bounds
use kanekfs.Base.{ℕ, ◌+◌, ◌-◌, ◌*◌, ◌/◌, ◌%◌, ◌^◌, ltb, u64, bit_and, bit_or, if◌then◌else◌}

-- The `uint64_t` from two words of the three that the seed makes.
unfoldable pub mix : ℕ → ℕ
mix seed =
    let a : ℕ = 0xbadbabe in
    let b : ℕ = 0xc007c0ffee in
    let c : ℕ = 0xdeadbeef in
    let ac : ℕ = 0xb00 in
    let seed0 = u64 (seed + (2 ^ 64 - 0xbadd0d0)) in
    let seed1 = seed in
    let seed2 = u64 (seed + 0xc007dad) in
    let seed0' =
      u64
        (u64 (seed1 * c) / 2 ^ 32 + u64 (seed2 * b) / 2 ^ 32 + seed0 * c + seed1 * b + seed2 * a) in
    let seed1' = u64 (u64 (seed2 * c) / 2 ^ 32 + seed1 * c + seed2 * b) in
    let seed2' = u64 (seed2 * c + ac) in
    let seed1'' = u64 (seed1' + seed2' / 2 ^ 32) in
    let seed0'' = u64 (seed0' + seed1'' / 2 ^ 32) in
    bit_or (u64 (bit_and seed0'' 0xffffffff * 2 ^ 32)) (bit_and seed1'' 0xffffffff)

-- The number, and `_kseed64` after the call.
unfoldable pub krand64 : ℕ → ℕ → ℕ × ℕ
krand64 kseed64 max =
    let rc = mix kseed64 in (if ltb 0 max then rc % max else rc, u64 (kseed64 + 1))
