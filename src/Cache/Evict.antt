-- ===== src/Cache/Evict.antt =====
-- Flush and eviction of fs/cache.c: what `cache_element_evict_by_idx` and the cache thread do to
-- one element, and `cache_element_evict`.
use kanekfs.Base.{
  ℕ, ◌+◌, ◌-◌, ◌^◌, List, [], ◌∷◌, Option, none, some, u32, ◌==◌, bit_or, get_elem?, set,
  if◌then◌else◌,
}
use kanekfs.Map.Bitmap.{◌>>=◌}
use kanekfs.Cache.{Element, Cache, Callbacks, el_dirty, el_clean, on, off64}
use kanekfs.Cache.Marks.{add_count}

-- A callback, unless it is NULL.
abbrev pub call : {W : Type 0} → Option (Element → W → W) → Element → W → W
call none el w = w
call (some f) el w = f el w

-- The loop of `cache_element_evict` and `cache_lookup`: the first element with the key, from
-- place `i` on.
unfoldable pub find_key : List (Option Element) → ℕ → ℕ → Option ℕ
find_key [] key i = none
find_key (none ∷ rest) key i = find_key rest key (i + 1)
find_key (some el ∷ rest) key i = if el.ce_id == key then some i else find_key rest key (i + 1)

module _ {W : Type 0} (cb : Callbacks W) where
  -- The part under `(flags & CACHE_EL_DIRTY) != 0`. A callback that is NULL only warns.
  unfoldable pub flush_if_dirty : Element → W → Element × W
  flush_if_dirty el w =
      if on el.ce_flags el_dirty
      then (let el' = add_count el in
          (
            record el' { ce_flags = bit_or (off64 el.ce_flags el_dirty) el_clean },
            call cb.on_flush el' w,
          ))
      else (el, w)

  unfoldable pub call_on_evict : Element → W → W
  call_on_evict el w = call cb.on_evict el w

  -- A NULL pointer or a place outside the array is a fault.
  unfoldable pub cache_element_evict_by_idx : Cache → ℕ → W → Option (Cache × W)
  cache_element_evict_by_idx cache subin w = do
    slot ← get_elem? cache.elements subin
    el ← slot
    let flushed = flush_if_dirty el w
    some (
      record cache {
        elements = set cache.elements subin none;
        in_use = u32 (cache.in_use + 2 ^ 32 - 1);
      },
      call_on_evict flushed.0 flushed.1,
    )

  unfoldable pub cache_element_evict : Cache → ℕ → W → Option (Cache × W)
  cache_element_evict cache key w = elim (find_key cache.elements key 0) [
    | none ↦ some (cache, w)
    | some i ↦ cache_element_evict_by_idx cache i w
  ]
