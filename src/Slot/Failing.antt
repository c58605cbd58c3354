-- ===== src/Slot/Failing.antt =====
-- How `kfs_slot_reserve` and `kfs_slot_remove` of fs/kfs_slot.c end.
use kanekfs.Base.{
  ℕ, ◌*◌, ◌%◌, ◌^◌, arith, true, ℤ, negsuc, List, [], ◌∷◌, map, ◌≡◌, refl, Option, some, none, ltb,
  inl, inr, Bool-cases,
}
use kanekfs.Map.Bitmap.{◌>>=◌}
use kanekfs.Disk.{Page, Device, kfs_blocksize, u16}
use kanekfs.Super.Mount.{kfs_active, is_failure}
use kanekfs.Slot.{
  byte_count, read_bytes, extent_read, Slots, returns, fails_if, check_active, read_map,
  kfs_slot_reserve, kfs_slot_remove,
}

-- Blocks whose number has 16 bits are read.
extent_read-u16 :
    (dev : Device) (p : Page) (addr n : ℕ)
    → extent_read dev p addr (u16 n) ≡ some (read_bytes dev p addr (kfs_blocksize * u16 n))
unfolding extent_read byte_count
extent_read-u16 dev p addr n =
    let fits : ltb (8192 * (n % 65536)) (2 ^ 31) ≡ true = ground arith in
    rw (extent_read, byte_count, fits) refl

-- No read of a map is taken for a success.
read_map-fails : (pages : Option Page) (s : Slots) → read_map pages s ≡ returns (negsuc 0) s
unfolding read_map
read_map-fails none s = refl
read_map-fails (some p) s =
    let extent = s.sb.sb_slot_table.map_extent in
    rw (read_map, extent_read-u16 s.dev p extent.ex_block_addr extent.ex_block_size) refl

check_active-of :
    (s : Slots) {active : ℤ}
    → kfs_active s.sb ≡ some active
    → check_active s ≡ fails_if (is_failure active) s
unfolding check_active
check_active-of s h = rw (check_active, h) refl

module _ (map_pages slot_page : Option Page) (s : Slots) {active : ℤ}
    (h : kfs_active s.sb ≡ some active) where
  reserve-fails : kfs_slot_reserve map_pages slot_page s ≡ some (negsuc 0, s)
  unfolding kfs_slot_reserve
  reserve-fails = elim (Bool-cases (is_failure active)) [
    | inl e ↦ rw (kfs_slot_reserve, check_active-of s h, e) refl
    | inr e ↦
        elim (Bool-cases (ltb s.sb.sb_slot_table.table_capacity s.sb.sb_slot_table.table_in_use)) [
          | inl f ↦ rw (kfs_slot_reserve, check_active-of s h, e, f) refl
          | inr f ↦
              rw (kfs_slot_reserve, check_active-of s h, e, f, read_map-fails map_pages s) refl
        ]
  ]

  remove-fails : (slot_id : ℕ) → kfs_slot_remove slot_id map_pages slot_page s ≡ some (negsuc 0, s)
  unfolding kfs_slot_remove
  remove-fails slot_id = elim (Bool-cases (is_failure active)) [
    | inl e ↦ rw (kfs_slot_remove, check_active-of s h, e) refl
    | inr e ↦ elim (Bool-cases (ltb s.sb.sb_slot_table.table_capacity slot_id)) [
      | inl f ↦ rw (kfs_slot_remove, check_active-of s h, e, f) refl
      | inr f ↦ rw (kfs_slot_remove, check_active-of s h, e, f, read_map-fails map_pages s) refl
    ]
  ]

-- A call of one of the two functions, with what `pages_alloc` gives to it.
pub data Call : Type 0 where
  reserve : Option Page → Option Page → Call
  remove : ℕ → Option Page → Option Page → Call

abbrev pub run_call : Call → Slots → Option (ℤ × Slots)
run_call (reserve map_pages slot_page) s = kfs_slot_reserve map_pages slot_page s
run_call (remove slot_id map_pages slot_page) s = kfs_slot_remove slot_id map_pages slot_page s

-- The results of one call after the other, and the state after them.
unfoldable pub run_calls : List Call → Slots → Option (List ℤ × Slots)
run_calls [] s = some ([], s)
run_calls (call ∷ calls) s = do
  (rc, s') ← run_call call s
  (rcs, s'') ← run_calls calls s'
  some (rc ∷ rcs, s'')

run_call-fails :
    (call : Call) (s : Slots) {active : ℤ}
    → kfs_active s.sb ≡ some active
    → run_call call s ≡ some (negsuc 0, s)
run_call-fails (reserve map_pages slot_page) s h = reserve-fails map_pages slot_page s h
run_call-fails (remove slot_id map_pages slot_page) s h =
    remove-fails map_pages slot_page s h slot_id

-- Where `kfs_active` does not fault, every sequence of calls of `kfs_slot_reserve` and
-- `kfs_slot_remove`, whatever `pages_alloc` gives, ends without a fault, every call returns -1, and
-- the super block in memory and the device are as before: the code takes the 0 that `extent_read`
-- returns for a failure.
pub run_calls-fail :
    (calls : List Call) (s : Slots) {active : ℤ}
    → kfs_active s.sb ≡ some active
    → run_calls calls s ≡ some (map (λ call. negsuc 0) calls, s)
unfolding run_calls
run_calls-fail [] s h = refl
run_calls-fail (call ∷ calls) s h =
    rw (run_calls, run_call-fails call s h, run_calls-fail calls s h) refl
