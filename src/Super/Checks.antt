-- ===== src/Super/Checks.antt =====
-- What `kfs_verify` accepts, and with which errors it refuses the rest.
use kanekfs.Base.{
  ℕ, ◌+◌, ◌-◌, ◌^◌, u64, ◌≡◌, ◌≢◌, ◌↔◌, refl, arith, ℤ, pos, negsuc, Bool, true, false, not, ◌==◌,
  inl, inr, Bool-cases, if◌then◌else◌,
}
use kanekfs.Disk.{Page, Device, block_read}
use kanekfs.Disk.Layout.{at_magic, kfs_magic}
use kanekfs.Super.Verify.{Opening, verify_extents, kfs_verify}

-- The structures that a super block points to are there, and the ids in the last blocks of the two
-- tables go with the capacities. A table of super inodes has its capacity at byte 48 of the super
-- block, the address and the number of its blocks at 80 and 88, and the address of its map at 64;
-- the slots have theirs at 96, 128, 136 and 112, and the map of the blocks is named at 160. The last
-- of 85 super inodes of 96 bytes in a block begins at 8064, the last of 204 slots of 40 bytes at
-- 8120.
pub record HasExtents (dev : Device) (sb : Page) : Type 0 where
  pub sinode_table : dev (sb 80) 0 ≡ 0x00cafe
  pub sinode_last : dev (u64 (u64 (sb 80 + sb 88) + 2 ^ 64 - 1)) 8064 ≡ u64 (sb 48 + 2 ^ 64 - 1)
  pub slot_table : dev (sb 128) 0 ≡ 0xdecaf
  pub slot_last : dev (u64 (u64 (sb 128 + sb 136) + 2 ^ 64 - 1)) 8120 ≡ u64 (sb 96 + 2 ^ 64 - 1)
  pub sinode_map_there : dev (sb 64) 0 ≡ 0xbad50da
  pub slot_map_there : dev (sb 112) 0 ≡ 0x1a77e
  pub block_map_there : dev (sb 160) 0 ≡ 0xc001beb

-- One test of the chain.
is_equal : (a b : ℕ) → (a == b) ≡ true → a ≡ b
is_equal a b e = ground arith

equal_is : {a b : ℕ} → a ≡ b → (a == b) ≡ true
equal_is {a} {b} e = ground arith

step :
    (test : Bool) (rest : ℤ)
    → (if not test then negsuc 0 else rest) ≡ pos 0
    → (test ≡ true) × (rest ≡ pos 0)
step true rest e = (refl, e)
step false rest e = absurd (ground arith)

verify_extents-there :
    (dev : Device) (sb : Page) → HasExtents dev sb → verify_extents dev sb ≡ pos 0
unfolding verify_extents block_read
verify_extents-there dev sb has =
    rw
      (
        equal_is has.sinode_table,
        equal_is has.sinode_last,
        equal_is has.slot_table,
        equal_is has.slot_last,
        equal_is has.sinode_map_there,
        equal_is has.slot_map_there,
        equal_is has.block_map_there,
      )
      refl

verify_extents-only : (dev : Device) (sb : Page) → verify_extents dev sb ≡ pos 0 → HasExtents dev sb
unfolding verify_extents block_read
verify_extents-only dev sb e =
    let (a, ra) = step _ _ e in
    let (b, rb) = step _ _ ra in
    let (c, rc) = step _ _ rb in
    let (d, rd) = step _ _ rc in
    let (f, rf) = step _ _ rd in
    let (g, rg) = step _ _ rf in
    let (h, rh) = step _ _ rg in
    record {
      sinode_table = is_equal _ _ a;
      sinode_last = is_equal _ _ b;
      slot_table = is_equal _ _ c;
      slot_last = is_equal _ _ d;
      sinode_map_there = is_equal _ _ f;
      slot_map_there = is_equal _ _ g;
      block_map_there = is_equal _ _ h;
    }

-- What a run that returns 0 has seen.
pub record IsAccepted (call : Opening) (dev : Device) (extra_verification : ℕ) : Type 0 where
  pub file_exists : call.exists ≡ true
  pub file_is_supported : call.is_supported ≡ true
  pub page_given : call.has_page ≡ true
  pub file_opens : call.can_open ≡ true
  pub has_magic : dev 0 24 ≡ 0x1ba7ba
  pub extent_page_given : extra_verification ≢ 0 → call.has_extent_page ≡ true
  pub has_extents : extra_verification ≢ 0 → HasExtents dev (dev 0)

accepted :
    (call : Opening) (dev : Device) (extra_verification : ℕ)
    → IsAccepted call dev extra_verification
    → kfs_verify call dev extra_verification ≡ pos 0
unfolding kfs_verify block_read
accepted call dev extra_verification ok = elim (Bool-cases (extra_verification == 0)) [
  | inl less ↦
      rw
        (
          ok.file_exists,
          ok.file_is_supported,
          ok.page_given,
          ok.file_opens,
          equal_is ok.has_magic,
          less,
        )
        refl
  | inr more ↦
      let h : extra_verification ≢ 0 = ground arith in
      rw
        (
          ok.file_exists,
          ok.file_is_supported,
          ok.page_given,
          ok.file_opens,
          equal_is ok.has_magic,
          more,
          ok.extent_page_given h,
        )
        (verify_extents-there dev (dev 0) (ok.has_extents h))
]

only-IsAccepted :
    (call : Opening) (dev : Device) (extra_verification : ℕ)
    → kfs_verify call dev extra_verification ≡ pos 0
    → IsAccepted call dev extra_verification
unfolding kfs_verify block_read
only-IsAccepted call dev extra_verification e =
    let (a, ra) = step call.exists _ e in
    let (b, rb) = step call.is_supported _ ra in
    let (c, rc) = step call.has_page _ rb in
    let (d, rd) = step call.can_open _ rc in
    let (m, rm) = step (dev 0 at_magic == kfs_magic) _ rd in
    let more : extra_verification ≢ 0
        → (call.has_extent_page ≡ true) × (verify_extents dev (dev 0) ≡ pos 0) =
      λ h.
        let none : (extra_verification == 0) ≡ false = ground arith in
        step call.has_extent_page _ (rw none at (rm)) in
    record {
      file_exists = a;
      file_is_supported = b;
      page_given = c;
      file_opens = d;
      has_magic = is_equal _ _ m;
      extent_page_given = λ h. (more h).0;
      has_extents = λ h. verify_extents-only dev (dev 0) (more h).1;
    }

-- `kfs_verify` returns 0 exactly when the file exists, is of a kind that it supports, memory is
-- given, the file can be opened, and its super block has the magic number; with
-- `extra_verification`, also memory for a second page must be given, the tables and the maps must
-- have their magic numbers, and the last ids in the last blocks of the tables must be the capacities
-- less one.
pub kfs_verify_iff :
    (call : Opening) (dev : Device) (extra_verification : ℕ)
    → (kfs_verify call dev extra_verification ≡ pos 0) ↔ IsAccepted call dev extra_verification
kfs_verify_iff call dev extra_verification =
    (only-IsAccepted call dev extra_verification, accepted call dev extra_verification)
