-- ===== src/Cache.antt =====
-- The element cache of fs/cache.c and fs/cache.h. Every function that takes `ca_mutex` is one
-- step on the state. A pointer to an element is its place in the array of pointers, and
-- `ca_elements_capacity`, which never changes, is the length of that array. What the callbacks
-- do outside of the cache is a state `W` that they transform; the result that they return is
-- not read by the code.
pub mod Invariant
pub mod Marks
pub mod Evict
pub mod Lookup
pub mod Mapping
pub mod Eviction
pub mod Replacement
pub mod Outcomes
pub mod Pass
pub mod Rounds
pub mod Sync
pub mod Reads
pub mod Thread
pub mod Control
pub mod Waiting
use kanekfs.Base.{ℕ, ◌-◌, ◌^◌, List, Option, Bool, not, ◌==◌, bit_and, bit_or, bit_xor}

-- `CACHE_EL_*`
abbrev pub el_active : ℕ
el_active = 0x0001

abbrev pub el_dirty : ℕ
el_dirty = 0x0002

abbrev pub el_evict : ℕ
el_evict = 0x0004

abbrev pub el_pin : ℕ
el_pin = 0x0008

abbrev pub el_clean : ℕ
el_clean = 0x0010

-- `CACHE_*`
abbrev pub cache_ready : ℕ
cache_ready = 0x0001

abbrev pub cache_active : ℕ
cache_active = 0x0002

abbrev pub cache_sync_flag : ℕ
cache_sync_flag = 0x0004

abbrev pub cache_flush : ℕ
cache_flush = 0x0008

abbrev pub cache_pause_flag : ℕ
cache_pause_flag = 0x0010

abbrev pub cache_exit : ℕ
cache_exit = 0x0020

abbrev pub cache_on_loop : ℕ
cache_on_loop = 0x0040

abbrev pub cache_evicted : ℕ
cache_evicted = 0x0080

abbrev pub cache_set_loop_done : ℕ
cache_set_loop_done = 0x0100

abbrev pub cache_loop_done : ℕ
cache_loop_done = 0x0200

-- `(flags & flag) != 0`
abbrev pub on : ℕ → ℕ → Bool
on flags flag = not (bit_and flags flag == 0)

-- `flags & ~flag`, of a `uint64_t` and of a `uint32_t`.
abbrev pub off64 : ℕ → ℕ → ℕ
off64 flags flag = bit_and flags (bit_xor flag (2 ^ 64 - 1))

abbrev pub off32 : ℕ → ℕ → ℕ
off32 flags flag = bit_and flags (bit_xor flag (2 ^ 32 - 1))

-- `cache_element_t`, less its mutex and the pointer to its cache, with the address at which
-- `malloc` put it.
pub record Element : Type 0 where
  pub address : ℕ
  pub ce_id : ℕ
  pub ce_flags : ℕ
  pub ce_access_count : ℕ

-- `cache_t`, less its mutex and threads. A slot that is `none` is a NULL pointer.
pub record Cache : Type 0 where
  pub elements : List (Option Element)
  pub in_use : ℕ
  pub flags : ℕ

-- `ca_on_evict_callback` and `ca_on_flush_callback`; `none` is NULL.
pub record Callbacks (W : Type 0) : Type 0 where
  pub on_evict : Option (Element → W → W)
  pub on_flush : Option (Element → W → W)
