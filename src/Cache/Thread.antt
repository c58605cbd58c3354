-- ===== src/Cache/Thread.antt =====
-- One pass of the loop of `cache_thread` in fs/cache.c, between the lock and the unlock of
-- `ca_mutex`. `busy i` says that `pthread_mutex_trylock` fails on the element at place `i`.
use kanekfs.Base.{
  ℕ, ◌+◌, ◌-◌, ◌^◌, List, [], ◌∷◌, Option, none, some, Bool, ◌==◌, ltb, u32, bit_and, bit_or,
  if◌then◌else◌,
}
use kanekfs.Cache.{
  Element, Cache, Callbacks, el_active, el_evict, cache_active, cache_pause_flag, cache_exit,
  cache_on_loop, cache_evicted, cache_set_loop_done, cache_loop_done, on, off32,
}
use kanekfs.Cache.Evict.{flush_if_dirty, call_on_evict}

-- The flags at the end of a pass.
unfoldable pub end_of_pass : ℕ → ℕ
end_of_pass flags =
    let flags1 = off32 flags cache_on_loop in
    let flags2 = if on flags1 cache_exit then bit_or flags1 cache_evicted else flags1 in
    if on flags2 cache_set_loop_done
    then bit_or (off32 flags2 cache_set_loop_done) cache_loop_done
    else flags2

module _ {W : Type 0} (cb : Callbacks W) (busy : ℕ → Bool) where
  -- The body of the `for` loop: the slot after it, `ca_elements_in_use` and the world.
  unfoldable pub visit : ℕ → Option Element → ℕ → W → Option Element × ℕ × W
  visit i none in_use w = (none, in_use, w)
  visit i (some el) in_use w =
      if bit_and el.ce_flags el_active == 0
      then (some el, in_use, w)
      else if busy i
      then (some el, in_use, w)
      else (let flushed = flush_if_dirty cb el w in
          if on el.ce_flags el_evict
          then (none, u32 (in_use + 2 ^ 32 - 1), call_on_evict cb flushed.0 flushed.1)
          else (some flushed.0, in_use, flushed.1))

  unfoldable pub traverse : ℕ → List (Option Element) → ℕ → W → List (Option Element) × ℕ × W
  traverse i [] in_use w = ([], in_use, w)
  traverse i (slot ∷ rest) in_use w =
      let (slot', in_use', w') = visit i slot in_use w in
      let (rest', in_use'', w'') = traverse (i + 1) rest in_use' w' in
      (slot' ∷ rest', in_use'', w'')

  unfoldable pub thread_pass : Cache → W → Cache × W
  thread_pass cache w =
      if ltb 0 cache.in_use
      then (let (elements', in_use', w') = traverse 0 cache.elements cache.in_use w in
          let flags' = end_of_pass (bit_or cache.flags cache_on_loop) in
          (record { elements = elements'; in_use = in_use'; flags = flags' }, w'))
      else (record cache { flags = end_of_pass cache.flags }, w)

  -- A round of the `do … while` loop: nothing but a sleep while the cache is paused.
  unfoldable pub thread_round : Cache → W → Cache × W
  thread_round cache w = if on cache.flags cache_pause_flag then (cache, w) else thread_pass cache w

-- The flags that the thread sets when it starts and when it ends.
unfoldable pub thread_start : Cache → Cache
thread_start cache = record cache { flags = bit_or cache.flags cache_active }

unfoldable pub thread_end : Cache → Cache
thread_end cache = record cache { flags = bit_or cache_exit cache_evicted }
