-- ===== src/PageCache.antt =====
-- The page cache of fs/page_cache.c, on top of the element cache. What an element of the page cache
-- has after its `cache_element_t` is found by the address of the element. A call is one step: it
-- holds `pc_mutex`. The timeouts are in Cache/Waiting.
pub mod Mapped
use kanekfs.Base.{
  ℕ, ◌+◌, ◌*◌, ◌-◌, ◌/◌, ◌%◌, ◌==◌, ltb, leb, ◌&&◌, ℤ, pos, negsuc, Bool, not, List, Option, none,
  some, get_elem?, set, if◌then◌else◌,
}
use kanekfs.Map.Bitmap.{◌>>=◌}
use kanekfs.Cache.{Element, Cache, Callbacks, el_active, el_dirty, el_clean, cache_active, on}
use kanekfs.Cache.Marks.{add_count, cache_element_mark_eviction, cache_element_mark_dirty}
use kanekfs.Cache.Evict.{find_key}
use kanekfs.Cache.Mapping.{cache_init, cache_element_map}
use kanekfs.Cache.Waiting.{Wake, cache_wait_for_flags, cache_element_wait_for_flags}
use kanekfs.Disk.{Page, Device, put_field, kfs_blocksize, clear}
use kanekfs.Slot.{io_rc, byte_count, extent_read, extent_write}
use kanekfs.Super.Mount.{is_failure}

-- `pgcache_element_t` after its `cache_element_t`.
pub record Part : Type 0 where
  pub pe_mem_ptr : Option Page
  pub pe_block_addr : ℕ
  pub pe_num_blocks : ℕ

-- What the callbacks work on: the parts of the elements, by address, and the device.
pub record Pages : Type 0 where
  pub parts : ℕ → Part
  pub dev : Device

abbrev pub set_part : Pages → ℕ → Part → Pages
set_part pages at part = record pages {
  parts = λ address. if address == at then part else pages.parts address;
}

-- The memory of the part is given back, and after it the element.
unfoldable pub pgcache_on_evict : Element → Pages → Pages
pgcache_on_evict el pages =
    set_part pages el.address (record (pages.parts el.address) { pe_mem_ptr = none })

-- A write from NULL fails, and the result is only reported. The number of blocks of a part is one
-- that `byte_count` let through.
abbrev pub flush_part : Part → Pages → Pages
flush_part part pages = elim part.pe_mem_ptr [
  | none ↦ pages
  | some mem ↦ elim (extent_write pages.dev mem part.pe_block_addr part.pe_num_blocks) [
    | none ↦ pages
    | some dev ↦ record pages { dev = dev }
  ]
]

unfoldable pub pgcache_on_flush : Element → Pages → Pages
pgcache_on_flush el pages = flush_part (pages.parts el.address) pages

abbrev pub callbacks : Callbacks Pages
callbacks = record { on_evict = some pgcache_on_evict; on_flush = some pgcache_on_flush }

-- `pgcache_t`, less its mutex and its file.
pub record PgCache : Type 0 where
  pub cache : Cache
  pub pages : Pages

abbrev pub put_element : PgCache → ℕ → Element → PgCache
put_element pc i el = record pc {
  cache = record pc.cache { elements = set pc.cache.elements i (some el) };
}

-- `realloc` gave `none`, NULL, or memory.
unfoldable pub grow : PgCache → ℕ → Element → ℕ → ℕ → Option Page → Option (PgCache × Option ℕ)
grow pc i el addr numblocks memory = do
  let pages = if on el.ce_flags el_dirty then pgcache_on_flush el pc.pages else pc.pages
  let part = pages.parts el.address
  bytes ← byte_count numblocks
  elim memory [
    | none ↦
        some (
          record pc { pages = set_part pages el.address (record part { pe_mem_ptr = none }) },
          none,
        )
    | some p ↦ (do
      mem ← extent_read pages.dev p addr numblocks
      some (
        record pc {
          pages = set_part pages el.address (record part {
            pe_mem_ptr = some mem;
            pe_num_blocks = if is_failure io_rc then part.pe_num_blocks else numblocks;
          });
        },
        if is_failure io_rc then none else some i,
      ))
  ]

-- The element that was found at place `i`.
unfoldable pub map_cached : PgCache → ℕ → ℕ → ℕ → Option Page → Option (PgCache × Option ℕ)
map_cached pc i addr numblocks memory = do
  slot ← get_elem? pc.cache.elements i
  el ← slot
  let counted = put_element pc i (add_count el)
  if leb numblocks (pc.pages.parts el.address).pe_num_blocks
      then some (counted, some i)
      else grow counted i (add_count el) addr numblocks memory

-- The part of an element that was just allocated: `cache_element_map` clears it.
abbrev pub no_part : Part
no_part = record { pe_mem_ptr = none; pe_block_addr = 0; pe_num_blocks = 0 }

abbrev pub with_new : Cache → Pages → Element → PgCache
with_new cache pages el = record { cache = cache; pages = set_part pages el.address no_part }

-- The new element at place `i` gets its memory.
unfoldable pub fill_element : PgCache → ℕ → Element → ℕ → ℕ → Page → PgCache
fill_element pc i el addr numblocks mem =
    put_element
      (record pc {
        pages =
            set_part pc.pages el.address
              (record { pe_mem_ptr = some mem; pe_block_addr = addr; pe_num_blocks = numblocks });
      })
      i (record el { ce_id = addr })

unfoldable pub map_new : PgCache → ℕ → ℕ → Option ℕ → Option Page → Option (PgCache × Option ℕ)
map_new pc addr numblocks element memory = do
  (cache, pages, result) ← cache_element_map callbacks pc.cache element pc.pages
  elim result [
    | none ↦ some (record { cache = cache; pages = pages }, none)
    | some i ↦ (do
      slot ← get_elem? cache.elements i
      el ← slot
      let pc' = with_new cache pages el
      bytes ← byte_count numblocks
      elim memory [
        | none ↦ some (put_element pc' i (cache_element_mark_eviction el).0, none)
        | some p ↦ (do
          mem ← extent_read pages.dev p addr numblocks
          if is_failure io_rc
              then some (put_element pc' i (cache_element_mark_eviction el).0, none)
              else some (fill_element pc' i el addr numblocks mem, some i))
      ])
  ]

-- The place of the element, or NULL; `none` beside that where the number of bytes is no `int`. `element` and `memory` are what `malloc`, or `realloc`, give.
unfoldable pub pgcache_element_map :
    PgCache → ℕ → ℕ → Option ℕ → Option Page → Option (PgCache × Option ℕ)
pgcache_element_map pc addr numblocks element memory = elim (find_key pc.cache.elements addr 0) [
  | some i ↦ map_cached pc i addr numblocks memory
  | none ↦ map_new pc addr numblocks element memory
]

-- An element with the address is counted once more, and NULL is returned.
unfoldable pub pgcache_element_map_zero :
    PgCache → ℕ → ℕ → Option ℕ → Option Page → Option (PgCache × Option ℕ)
pgcache_element_map_zero pc addr numblocks element memory =
    elim (find_key pc.cache.elements addr 0) [
      | some i ↦ (do
        slot ← get_elem? pc.cache.elements i
        el ← slot
        some (put_element pc i (add_count el), none))
      | none ↦ (do
        (cache, pages, result) ← cache_element_map callbacks pc.cache element pc.pages
        elim result [
          | none ↦ some (record { cache = cache; pages = pages }, none)
          | some i ↦ (do
            slot ← get_elem? cache.elements i
            el ← slot
            let pc' = with_new cache pages el
            bytes ← byte_count numblocks
            elim memory [
              | none ↦ some (pc', none)
              | some p ↦ some (fill_element pc' i el addr numblocks (clear p bytes), some i)
            ])
        ])
    ]

-- `none` is NULL. The last arguments are the answers of `malloc` here, of `malloc` and
-- `pthread_mutex_init` in `cache_init`, and of `pthread_mutex_init` here.
unfoldable pub pgcache_alloc : Pages → ℕ → Bool → Bool → Bool → Bool → Option PgCache
pgcache_alloc pages elements_capacity malloc_ok elements_ok mutex_ok pc_mutex_ok =
    let (cache, rc) = cache_init elements_capacity elements_ok mutex_ok in
    if not malloc_ok
    then none
    else if is_failure rc
    then none
    else if not pc_mutex_ok
    then none
    else some (record { cache = cache; pages = pages })

-- The result of `cache_enable`, and what the wake-ups observe, are arguments.
unfoldable pub pgcache_enable_sync : ℤ → List Wake → Option ℤ
pgcache_enable_sync enabled wakes =
    if is_failure enabled then some enabled else cache_wait_for_flags cache_active wakes

-- The address and the number of blocks are not used: it is always block 0 that is mapped.
unfoldable pub pgcache_element_map_sync :
    PgCache → ℕ → ℕ → Option ℕ → Option Page → List Wake → Option (PgCache × Option ℕ)
pgcache_element_map_sync pc addr numblocks element memory wakes = do
  (pc', result) ← pgcache_element_map pc 0 1 element memory
  elim result [
    | none ↦ some (pc', none)
    | some i ↦ (do
      slot ← get_elem? pc'.cache.elements i
      el ← slot
      rc ← cache_element_wait_for_flags el_active wakes
      if is_failure rc
          then some (put_element pc' i (cache_element_mark_eviction el).0, none)
          else some (pc', some i))
  ]

unfoldable pub pgcache_element_sync : Element → List Wake → Option (Element × ℤ)
pgcache_element_sync el wakes = do
  let (el', marked) = cache_element_mark_dirty el
  if is_failure marked
      then some (el', marked)
      else do rc ← cache_element_wait_for_flags el_clean wakes; some (el', rc)
