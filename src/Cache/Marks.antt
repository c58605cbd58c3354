-- ===== src/Cache/Marks.antt =====
-- The operations of fs/cache.c on one element: marks and pins. The `int` result stands beside
-- the element.
use kanekfs.Base.{ℕ, ℤ, pos, negsuc, ◌+◌, u64, ◌==◌, bit_and, bit_or, if◌then◌else◌}
use kanekfs.Cache.{Element, el_active, el_dirty, el_evict, el_pin, el_clean, off64}

-- The guard that the four share.
abbrev pub if_active : Element → ℕ → Element × ℤ
if_active ce flags =
    if bit_and ce.ce_flags el_active == 0
    then (ce, negsuc 0)
    else (record ce { ce_flags = flags }, pos 0)

unfoldable pub cache_element_mark_eviction : Element → Element × ℤ
cache_element_mark_eviction ce = if_active ce (bit_or ce.ce_flags el_evict)

unfoldable pub cache_element_mark_dirty : Element → Element × ℤ
cache_element_mark_dirty ce = if_active ce (off64 (bit_or ce.ce_flags el_dirty) el_clean)

unfoldable pub cache_element_pin : Element → Element × ℤ
cache_element_pin ce = if_active ce (bit_or ce.ce_flags el_pin)

unfoldable pub cache_element_mark_unpin : Element → Element × ℤ
cache_element_mark_unpin ce = if_active ce (off64 ce.ce_flags el_pin)

-- `CACHE_EL_ADD_COUNT`
abbrev pub add_count : Element → Element
add_count ce = record ce { ce_access_count = u64 (ce.ce_access_count + 1) }
