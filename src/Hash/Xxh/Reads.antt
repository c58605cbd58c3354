-- ===== src/Hash/Xxh/Reads.antt =====
-- The reads of fs/hash.c stay inside the input when the pointer leaves room for them.
use kanekfs.Base.{
  ℕ, ◌+◌, ◌*◌, ◌^◌, ◌≤◌, List, some, get_or, length, ◌≡◌, refl, arith, get_elem?-eq-get_or,
}
use kanekfs.Hash.Xxh.{get_unaligned_le32, get_unaligned_le64}

pub le32-reads :
    (input : List ℕ) (p : ℕ)
    → p + 4 ≤ length input
    → (k : ℕ) × (get_unaligned_le32 input p ≡ some k)
unfolding get_unaligned_le32
le32-reads input p h = (
  get_or input p 0
      + get_or input (p + 1) 0 * 2 ^ 8
      + get_or input (p + 2) 0 * 2 ^ 16
      + get_or input (p + 3) 0 * 2 ^ 24,
  rw
      (
        get_elem?-eq-get_or input p 0 (omega arith),
        get_elem?-eq-get_or input (p + 1) 0 (omega arith),
        get_elem?-eq-get_or input (p + 2) 0 (omega arith),
        get_elem?-eq-get_or input (p + 3) 0 (omega arith),
      )
      refl,
)

pub le64-reads :
    (input : List ℕ) (p : ℕ)
    → p + 8 ≤ length input
    → (k : ℕ) × (get_unaligned_le64 input p ≡ some k)
unfolding get_unaligned_le64
le64-reads input p h =
    let (low, e) = le32-reads input p (omega arith) in
    let (high, f) = le32-reads input (p + 4) (omega arith) in (low + high * 2 ^ 32, rw (e, f) refl)
