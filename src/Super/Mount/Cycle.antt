-- ===== src/Super/Mount/Cycle.antt =====
-- A mount and then an unmount: what is left on the page of the super block.
use kanekfs.Base.{
  ℕ, ◌+◌, ◌-◌, ◌^◌, ◌≤◌, ◌<◌, ◌≡◌, refl, sym, ap, ◌∙◌, arith, pos, bit_and, bit_or, bit_xor, some,
  true, false, ◌==◌, ltb, ◌||◌, u64, inl, inr, Bool-cases, if◌then◌else◌,
}
use kanekfs.Bits.{
  bit_at, zero_bit, eq_of_bits, set_flag_bit, clear_flag_bit, bit_at-high, bit_and_bit,
  bit_and-two_pow, two_pow_bit,
}
use kanekfs.Disk.{Page, put_field, store32, store64}
use kanekfs.Disk.Layout.{
  get_table, get_extent, put_table, put_extent, kfs_magic, kfs_is_mounted, at_magic, at_flags,
  at_root, at_si_table, at_slot_table, at_blockmap, at_m_time, at_a_time,
}
use kanekfs.Super.Memory.{
  Sb, ex_2_kfsex, kfsex_2_ex, to_table, from_table, kfssb_to_sb, sb_to_kfssb,
}
use kanekfs.Super.Mount.{kfs_active, MountCalls, mount_page, kfs_mount, kfs_umount, no_sb}

-- The fields of an extent, and of a table, are as wide as their places.
pub record IsExtentFields (page : Page) (off : ℕ) : Type 0 where
  pub addr_width : page off < 2 ^ 64
  pub size_width : page (off + 8) < 2 ^ 16
  pub log_size_width : page (off + 10) < 2 ^ 16
  pub log_addr_width : page (off + 12) < 2 ^ 32

pub record IsTableFields (page : Page) (off : ℕ) : Type 0 where
  pub capacity_width : page off < 2 ^ 64
  pub in_use_width : page (off + 8) < 2 ^ 64
  pub map_width : IsExtentFields page (off + 16)
  pub table_width : IsExtentFields page (off + 32)

-- A put_field of the value that another page has there.
store_same :
    (p q : Page) (off v : ℕ)
    → ((k : ℕ) → p k ≡ q k)
    → v ≡ q off
    → (k : ℕ) → put_field p off v k ≡ q k
store_same p q off v same e k = elim (Bool-cases (k == off)) [
  | inl at ↦ let z : k ≡ off = ground arith in rw at (e ∙ ap q (sym z))
  | inr other ↦ rw other (same k)
]

put_extent_same :
    (p q : Page) (off : ℕ)
    → ((k : ℕ) → p k ≡ q k)
    → IsExtentFields q off
    → (k : ℕ) → put_extent p off (get_extent q off) k ≡ q k
put_extent_same p q off same widths =
    store_same _ q (off + 12) _
      (store_same _ q (off + 10) _
        (store_same _ q (off + 8) _ (store_same p q off _ same (omega (arith, widths.addr_width)))
          (omega (arith, widths.size_width)))
        (omega (arith, widths.log_size_width)))
      (omega (arith, widths.log_addr_width))

put_table_same :
    (p q : Page) (off : ℕ)
    → ((k : ℕ) → p k ≡ q k)
    → IsTableFields q off
    → (k : ℕ) → put_table p off (get_table q off) k ≡ q k
put_table_same p q off same widths =
    put_extent_same _ q (off + 32)
      (put_extent_same _ q (off + 16)
        (store_same _ q (off + 8) _
          (store_same p q off _ same (omega (arith, widths.capacity_width)))
          (omega (arith, widths.in_use_width)))
        widths.map_width)
      widths.table_width

-- A super block that is not mounted.
pub record IsUnmounted (page : Page) : Type 0 where
  pub has_magic : page at_magic ≡ kfs_magic
  pub not_mounted_yet : bit_and (page at_flags) kfs_is_mounted ≡ 0
  pub flags_width : page at_flags < 2 ^ 32
  pub root_width : page at_root < 2 ^ 64
  pub si_width : IsTableFields page at_si_table
  pub slot_width : IsTableFields page at_slot_table
  pub blockmap_width : IsTableFields page at_blockmap

-- The page with new times of access and change.
abbrev pub with_times : Page → ℕ → Page
with_times page now k = if k == at_a_time || k == at_m_time then u64 now else page k

-- The flag that is set and cleared again.
flag_cycle :
    (f : ℕ)
    → f < 2 ^ 32
    → bit_and f kfs_is_mounted ≡ 0
    → bit_and (bit_or f kfs_is_mounted) (bit_xor kfs_is_mounted (2 ^ 64 - 1)) ≡ f
flag_cycle f small clear = eq_of_bits _ f (λ j. elim (Bool-cases (ltb j 64)) [
  | inl low ↦ ground (
    arith,
    clear_flag_bit 64 (bit_or f (2 ^ 3)) 3 j (ground arith),
    set_flag_bit f 3 j,
    bit_and_bit f 8 j,
    ap (λ (t : ℕ). bit_at t j) clear,
    two_pow_bit 3 j,
    zero_bit j,
  )
  | inr high ↦ ground (
    arith,
    bit_and_bit (bit_or f (2 ^ 3)) (bit_xor (2 ^ 3) (2 ^ 64 - 1)) j,
    set_flag_bit f 3 j,
    bit_at-high 64 f j (omega arith) (ground arith),
  )
])

-- All calls go well, and the page cache maps `page`.
pub record IsMountable (call : MountCalls) (page : Page) : Type 0 where
  pub it_opens : call.opens ≡ true
  pub it_has_cache : call.has_cache ≡ true
  pub it_enables : call.enables ≡ true
  pub it_maps : call.maps ≡ some page
  pub it_syncs : call.syncs ≡ pos 0
  pub it_is_active : call.is_active ≡ true

mounted_sb : ℕ → Page → Sb
mounted_sb now page = record (kfssb_to_sb page) {
  sb_page_cache = some true;
  sb_flags = bit_or (page at_flags) kfs_is_mounted;
  sb_m_time = now;
  sb_a_time = now;
}

mounted_page : ℕ → Page → Page
mounted_page now page =
    let flags = bit_or (page at_flags) kfs_is_mounted in
    store64 (store64 (store32 page at_flags flags) at_m_time now) at_a_time now

mounted_flag : (f : ℕ) → (bit_and (bit_or f kfs_is_mounted) kfs_is_mounted == 0) ≡ false
mounted_flag f = bit_and-two_pow (bit_or f kfs_is_mounted) 3 ∙ ground (arith, set_flag_bit f 3 3)

mounted_active :
    (now : ℕ) (page : Page)
    → page at_magic ≡ kfs_magic
    → kfs_active (mounted_sb now page) ≡ some (pos 0)
unfolding kfs_active mounted_sb kfssb_to_sb
mounted_active now page magic =
    let is_magic : (page at_magic == kfs_magic) ≡ true = ground arith in
    rw (is_magic, mounted_flag (page at_flags)) refl

mount_returns :
    (now : ℕ) (call : MountCalls) (page : Page) (sb : Sb)
    → IsMountable call page
    → page at_magic ≡ kfs_magic
    → kfs_mount now call sb
      ≡ some (record {
        rc = pos 0;
        sb = mounted_sb now page;
        page = some (mounted_page now page);
        is_open = true;
      })
unfolding kfs_mount mount_page mounted_page mounted_sb
mount_returns now call page sb can magic =
    let active = mounted_active now page magic in
    rw
      (
        can.it_opens, can.it_has_cache, can.it_enables, can.it_maps, can.it_syncs, can.it_is_active,
        active,
      )
      refl

-- The fields before the tables.
head_same :
    (now now' : ℕ) (page : Page)
    → IsUnmounted page
    → (k : ℕ)
    → store32
        (store64
          (store64 (store64 (mounted_page now page) at_m_time now') at_a_time now')
          at_root
          (page at_root))
        at_flags
        (bit_and (bit_or (page at_flags) kfs_is_mounted) (bit_xor kfs_is_mounted (2 ^ 64 - 1)))
        k
      ≡ with_times page now' k
unfolding mounted_page
head_same now now' page un k =
    let flags = flag_cycle (page at_flags) un.flags_width un.not_mounted_yet in
    rw flags (elim (Bool-cases (k == at_flags)) [
      | inl is_flags ↦ let z : k ≡ at_flags = ground arith in rw z (omega (arith, un.flags_width))
      | inr e1 ↦ elim (Bool-cases (k == at_root)) [
        | inl is_root ↦ let z : k ≡ at_root = ground arith in rw z (omega (arith, un.root_width))
        | inr e2 ↦ elim (Bool-cases (k == at_a_time)) [
          | inl is_a ↦ rw (e1, e2, is_a) refl
          | inr e3 ↦ elim (Bool-cases (k == at_m_time)) [
            | inl is_m ↦ rw (e1, e2, e3, is_m) refl
            | inr e4 ↦ rw (e1, e2, e3, e4) refl
          ]
        ]
      ]
    ])

unmounted_page : ℕ → ℕ → Page → Page
unmounted_page now now' page =
    (sb_to_kfssb now' (mounted_page now page) (record (mounted_sb now page) {
      sb_flags =
          bit_and (bit_or (page at_flags) kfs_is_mounted) (bit_xor kfs_is_mounted (2 ^ 64 - 1));
    })).0

-- A page that agrees on the extent or the table.
extent_fields :
    (p q : Page) (off : ℕ)
    → ((k : ℕ) → off ≤ k → k < off + 16 → q k ≡ p k)
    → IsExtentFields p off
    → IsExtentFields q off
extent_fields p q off same w = record {
  addr_width = omega (arith, same off (omega arith) (omega arith), w.addr_width);
  size_width = omega (arith, same (off + 8) (omega arith) (omega arith), w.size_width);
  log_size_width = omega (arith, same (off + 10) (omega arith) (omega arith), w.log_size_width);
  log_addr_width = omega (arith, same (off + 12) (omega arith) (omega arith), w.log_addr_width);
}

table_fields :
    (p q : Page) (off : ℕ)
    → ((k : ℕ) → off ≤ k → k < off + 48 → q k ≡ p k)
    → IsTableFields p off
    → IsTableFields q off
table_fields p q off same w = record {
  capacity_width = omega (arith, same off (omega arith) (omega arith), w.capacity_width);
  in_use_width = omega (arith, same (off + 8) (omega arith) (omega arith), w.in_use_width);
  map_width =
      extent_fields p q (off + 16) (λ k lo hi. same k (omega arith) (omega arith)) w.map_width;
  table_width =
      extent_fields p q (off + 32) (λ k lo hi. same k (omega arith) (omega arith)) w.table_width;
}

-- The times come after the tables.
times_after : (now : ℕ) (page : Page) (k : ℕ) → k < 192 → with_times page now k ≡ page k
times_after now page k h = ground arith

tables_same :
    (now now' : ℕ) (page : Page)
    → IsUnmounted page
    → (k : ℕ) → unmounted_page now now' page k ≡ with_times page now' k
unfolding unmounted_page sb_to_kfssb mounted_sb kfssb_to_sb to_table from_table ex_2_kfsex
    kfsex_2_ex
tables_same now now' page un =
    put_table_same _ (with_times page now') at_blockmap
      (put_table_same _ (with_times page now') at_slot_table
        (put_table_same _ (with_times page now') at_si_table (head_same now now' page un) (
          table_fields page (with_times page now') at_si_table
            (λ k lo hi. times_after now' page k (omega arith)) un.si_width))
        (table_fields page (with_times page now') at_slot_table
          (λ k lo hi. times_after now' page k (omega arith)) un.slot_width))
      (table_fields page (with_times page now') at_blockmap
        (λ k lo hi. times_after now' page k (omega arith)) un.blockmap_width)

-- For the page of a super block with the magic number, that is not mounted, and whose fields are as
-- wide as their places: when all calls go well, `kfs_mount` returns 0, and `kfs_umount` after it
-- returns 0, clears the copy in memory, and leaves the page as it was before the mount, except that
-- the times of access and change are the time of the unmount.
pub kfs_umount-kfs_mount :
    (now now' : ℕ) (call : MountCalls) (page : Page) (sb : Sb)
    → IsMountable call page
    → IsUnmounted page
    → (mounted : Sb) × (mounted_page : Page) × (page' : Page) × (kfs_mount now call sb
        ≡ some (record { rc = pos 0; sb = mounted; page = some mounted_page; is_open = true }))
      × (kfs_umount now' mounted_page mounted ≡ some (pos 0, page', no_sb))
      × ((k : ℕ) → page' k ≡ with_times page now' k)
unfolding kfs_umount unmounted_page mounted_sb kfssb_to_sb
kfs_umount-kfs_mount now now' call page sb can un =
    let is_magic : ((mounted_sb now page).sb_magic == kfs_magic) ≡ true =
      ground (arith, un.has_magic) in
    (
      mounted_sb now page,
      mounted_page now page,
      unmounted_page now now' page,
      mount_returns now call page sb can un.has_magic,
      rw (is_magic, mounted_active now page un.has_magic) refl,
      tables_same now now' page un,
    )
