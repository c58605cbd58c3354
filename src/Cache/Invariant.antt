-- ===== src/Cache/Invariant.antt =====
-- The well-formedness of a cache, and of one element: it is active, and either dirty or clean.
use kanekfs.Base.{
  ℕ, zero, suc, ◌+◌, ◌^◌, ◌≤◌, ◌<◌, pos, List, [], ◌∷◌, Option, none, some, ◌≡◌, arith, ◌==◌,
  bit_or, length, set, get_or, get_or-set, length-set, Bool-cases, inl, inr, if◌then◌else◌,
}
use kanekfs.Bits.{bit_at, bit_at-lt, set_flag_bit, clear_flag_bit, bit_and-two_pow}
use kanekfs.Cache.{Element, Cache, Callbacks, on, off64}
use kanekfs.Cache.Marks.{
  cache_element_mark_eviction, cache_element_mark_dirty, cache_element_pin,
  cache_element_mark_unpin,
}
use kanekfs.Cache.Evict.{flush_if_dirty}

-- The digits of `ce_flags`.
abbrev pub active : Element → ℕ
active el = bit_at el.ce_flags 0

abbrev pub dirty : Element → ℕ
dirty el = bit_at el.ce_flags 1

abbrev pub evicting : Element → ℕ
evicting el = bit_at el.ce_flags 2

abbrev pub pinned : Element → ℕ
pinned el = bit_at el.ce_flags 3

abbrev pub clean : Element → ℕ
clean el = bit_at el.ce_flags 4

pub record IsElement (el : Element) : Type 0 where
  pub is_active : active el ≡ 1
  pub one_state : dirty el + clean el ≡ 1

abbrev pub SlotOk : Option Element → Type 0
SlotOk none = Unit {0}
SlotOk (some el) = IsElement el

-- The pointers that are not NULL.
unfoldable pub used : List (Option Element) → ℕ
used [] = 0
used (none ∷ rest) = used rest
used (some el ∷ rest) = suc (used rest)

pub record IsValid (cache : Cache) : Type 0 where
  pub capacity : length cache.elements < 2 ^ 32
  pub counted : cache.in_use ≡ used cache.elements
  pub slots : (i : ℕ) → SlotOk (get_or cache.elements i none)

-- The test of a flag reads its digit.
pub on-digit : (flags k : ℕ) → on flags (2 ^ k) ≡ (bit_at flags k == 1)
on-digit flags k = ground (arith, bit_and-two_pow flags k, bit_at-lt flags k)

-- Each mark, on an active element, succeeds and changes the one or two digits that it is about.
module _ (el : Element) (h : active el ≡ 1) (j : ℕ) (word : j < 64) where
  -- On an active element `cache_element_mark_dirty` returns 0, sets the dirty flag, clears the
  -- clean flag and leaves every other flag.
  pub mark_dirty-digit :
      ((cache_element_mark_dirty el).1 ≡ pos 0)
      × (bit_at (cache_element_mark_dirty el).0.ce_flags j
          ≡ (if j == 4 then 0 else if j == 1 then 1 else bit_at el.ce_flags j))
  unfolding cache_element_mark_dirty
  mark_dirty-digit = ground (
    arith,
    bit_and-two_pow el.ce_flags 0,
    set_flag_bit el.ce_flags 1 j,
    clear_flag_bit 64 (bit_or el.ce_flags 2) 4 j word,
  )

  pub mark_eviction-digit :
      ((cache_element_mark_eviction el).1 ≡ pos 0)
      × (bit_at (cache_element_mark_eviction el).0.ce_flags j
          ≡ (if j == 2 then 1 else bit_at el.ce_flags j))
  unfolding cache_element_mark_eviction
  mark_eviction-digit = ground (arith, bit_and-two_pow el.ce_flags 0, set_flag_bit el.ce_flags 2 j)

  pub pin-digit :
      ((cache_element_pin el).1 ≡ pos 0)
      × (bit_at (cache_element_pin el).0.ce_flags j ≡ (if j == 3 then 1 else bit_at el.ce_flags j))
  unfolding cache_element_pin
  pin-digit = ground (arith, bit_and-two_pow el.ce_flags 0, set_flag_bit el.ce_flags 3 j)

  pub unpin-digit :
      ((cache_element_mark_unpin el).1 ≡ pos 0)
      × (bit_at (cache_element_mark_unpin el).0.ce_flags j
          ≡ (if j == 3 then 0 else bit_at el.ce_flags j))
  unfolding cache_element_mark_unpin
  unpin-digit =
      ground (arith, bit_and-two_pow el.ce_flags 0, clear_flag_bit 64 el.ce_flags 3 j word)

-- So each keeps the element well formed.
pub mark_dirty-IsElement : {el : Element} → IsElement el → IsElement (cache_element_mark_dirty el).0
mark_dirty-IsElement {el} h = record {
  is_active = ground (arith, mark_dirty-digit el h.is_active 0 (omega arith));
  one_state = ground (
    arith,
    mark_dirty-digit el h.is_active 1 (omega arith),
    mark_dirty-digit el h.is_active 4 (omega arith),
  );
}

pub mark_eviction-IsElement :
    {el : Element} → IsElement el → IsElement (cache_element_mark_eviction el).0
mark_eviction-IsElement {el} h = record {
  is_active = ground (arith, mark_eviction-digit el h.is_active 0 (omega arith));
  one_state = ground (
    arith,
    mark_eviction-digit el h.is_active 1 (omega arith),
    mark_eviction-digit el h.is_active 4 (omega arith),
  );
}

-- The element after a flush, whatever the callback did.
pub flush-digit :
    {W : Type 0} (cb : Callbacks W) (el : Element) (w : W) (j : ℕ)
    → j < 64
    → IsElement el
    → bit_at (flush_if_dirty cb el w).0.ce_flags j
      ≡ (if j == 4 then 1 else if j == 1 then 0 else bit_at el.ce_flags j)
unfolding flush_if_dirty
flush-digit cb el w j word h = ground (
  arith,
  on-digit el.ce_flags 1,
  set_flag_bit (off64 el.ce_flags 2) 4 j,
  clear_flag_bit 64 el.ce_flags 1 j word,
  bit_at-lt el.ce_flags 1,
  bit_at-lt el.ce_flags 4,
)

pub flush-IsElement :
    {W : Type 0} (cb : Callbacks W) (el : Element) (w : W)
    → IsElement el
    → IsElement (flush_if_dirty cb el w).0
flush-IsElement cb el w h = record {
  is_active = ground (arith, flush-digit cb el w 0 (omega arith) h);
  one_state =
      ground (arith, flush-digit cb el w 1 (omega arith) h, flush-digit cb el w 4 (omega arith) h);
}

-- How a write of one slot changes the count.
abbrev pub one_if_some : Option Element → ℕ
one_if_some none = 0
one_if_some (some el) = 1

pub used-cons :
    (slot : Option Element) (rest : List (Option Element))
    → used (slot ∷ rest) ≡ one_if_some slot + used rest
unfolding used
used-cons none rest = omega arith
used-cons (some el) rest = omega arith

pub used-set :
    (elements : List (Option Element)) (i : ℕ) (slot : Option Element)
    → i < length elements
    → used (set elements i slot) + one_if_some (get_or elements i none)
      ≡ used elements + one_if_some slot
unfolding used
used-set [] i slot h = absurd (omega arith)
used-set (none ∷ rest) zero none h = omega arith
used-set (none ∷ rest) zero (some el) h = omega arith
used-set (some old ∷ rest) zero none h = omega arith
used-set (some old ∷ rest) zero (some el) h = omega arith
used-set (none ∷ rest) (suc i) slot h = omega (arith, used-set rest i slot (omega arith))
used-set (some old ∷ rest) (suc i) slot h = omega (arith, used-set rest i slot (omega arith))

pub used-le-length : (elements : List (Option Element)) → used elements ≤ length elements
unfolding used
used-le-length [] = omega arith
used-le-length (none ∷ rest) = omega (arith, used-le-length rest)
used-le-length (some el ∷ rest) = omega (arith, used-le-length rest)

-- One slot written, and the count with it.
pub set-IsValid :
    (cache : Cache) (i in_use : ℕ) (slot : Option Element)
    → IsValid cache
    → i < length cache.elements
    → SlotOk slot
    → in_use + one_if_some (get_or cache.elements i none) ≡ cache.in_use + one_if_some slot
    → IsValid (record cache { elements = set cache.elements i slot; in_use = in_use })
set-IsValid cache i in_use slot v h ok count = record {
  capacity = omega (arith, v.capacity, length-set cache.elements i slot);
  counted = omega (arith, v.counted, used-set cache.elements i slot h);
  slots = λ j. elim (Bool-cases (i == j)) [
    | inl here ↦ rw (get_or-set cache.elements i j slot none h) (rw here ok)
    | inr there ↦ rw (get_or-set cache.elements i j slot none h) (rw there (v.slots j))
  ];
}
