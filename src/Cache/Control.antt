-- ===== src/Cache/Control.antt =====
-- The operations of fs/cache.c on the flags of the cache, and the marks that `cache_sync` and
-- `cache_disable` set before they wait for the thread.
use kanekfs.Base.{
  ℕ, ℤ, pos, negsuc, List, Option, none, some, ◌==◌, bit_and, bit_or, map, if◌then◌else◌,
}
use kanekfs.Cache.{
  Element, Cache, el_pin, cache_ready, cache_pause_flag, cache_exit, cache_set_loop_done,
  cache_loop_done, off32,
}
use kanekfs.Map.Bitmap.{◌>>=◌}
use kanekfs.Cache.Marks.{cache_element_mark_eviction}
use kanekfs.Cache.Waiting.{Wake, cache_wait_for_flags}

abbrev pub settable_flags : ℕ
settable_flags = 0x013c

unfoldable pub cache_set_flags : Cache → ℕ → Cache × ℤ
cache_set_flags cache flag_to_enable =
    if bit_and flag_to_enable settable_flags == 0
    then (cache, negsuc 0)
    else (record cache { flags = bit_or cache.flags flag_to_enable }, pos 0)

unfoldable pub cache_clear_loop_done : Cache → Cache
cache_clear_loop_done cache = record cache { flags = off32 cache.flags cache_loop_done }

unfoldable pub cache_pause : Cache → Cache
cache_pause cache = record cache { flags = bit_or cache.flags cache_pause_flag }

unfoldable pub cache_clear_pause : Cache → Cache
cache_clear_pause cache = record cache { flags = off32 cache.flags cache_pause_flag }

-- The loop of `cache_disable`.
unfoldable pub mark_slot : Option Element → Option Element
mark_slot none = none
mark_slot (some el) = some (cache_element_mark_eviction el).0

unfoldable pub disable_begin : Cache → Cache
disable_begin cache = record cache {
  elements = map mark_slot cache.elements;
  flags = bit_or cache.flags cache_exit;
}

-- The loop of `cache_sync`.
unfoldable pub mark_unpinned_slot : Option Element → Option Element
mark_unpinned_slot none = none
mark_unpinned_slot (some el) =
    if bit_and el.ce_flags el_pin == 0 then some (cache_element_mark_eviction el).0 else some el

-- `cache_sync` up to its wait; -1 if the cache is not ready.
unfoldable pub sync_begin : Cache → Cache × ℤ
sync_begin cache = if bit_and cache.flags cache_ready == 0 then (cache, negsuc 0) else (
  record cache {
    elements = map mark_unpinned_slot cache.elements;
    flags = bit_or cache.flags cache_set_loop_done;
  },
  pos 0,
)

-- `cache_sync`: `others` is what the other threads do to the cache during the wait, and `wakes` what
-- the wait observes.
unfoldable pub cache_sync :
    {W : Type 0} → (Cache → W → Cache × W) → List Wake → Cache → W → Option (Cache × W × ℤ)
cache_sync others wakes cache w =
    if bit_and cache.flags cache_ready == 0 then some (cache, w, negsuc 0) else (do
      let (cache', w') = others (sync_begin cache).0 w
      rc ← cache_wait_for_flags cache_loop_done wakes
      some (cache_clear_loop_done cache', w', rc))
