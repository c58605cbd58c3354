-- ===== src/Cache/Waiting.antt =====
-- `cache_wait_for_flags` and `cache_element_wait_for_flags` of fs/cache.c. The clock and the
-- other threads are a list of what each wake-up observes: whether the time is over, and the
-- flags. `none` says that the observations ended while the call still waits.
use kanekfs.Base.{
  ℕ, ℤ, pos, List, [], ◌∷◌, Option, none, some, Bool, ◌==◌, ◌&&◌, ◌||◌, not, bit_and, if◌then◌else◌,
}

pub record Wake : Type 0 where
  pub timed_out : Bool
  pub flags : ℕ

abbrev pub awaited : ℕ → ℕ → Bool
awaited flags seen = flags == 0 && seen == 0 || not (flags == 0) && bit_and seen flags == flags

unfoldable pub cache_wait_for_flags : ℕ → List Wake → Option ℤ
cache_wait_for_flags flags [] = none
cache_wait_for_flags flags (w ∷ later) =
    let again = cache_wait_for_flags flags later in
    if w.timed_out then some (pos 1) else if awaited flags w.flags then some (pos 0) else again

-- `rc` is 0 from the start, and is only ever set to 0 or, on a time-out, to 1.
unfoldable pub element_wait_loop : ℕ → ℕ → List Wake → Option ℤ
element_wait_loop flags rc [] = none
element_wait_loop flags rc (w ∷ later) =
    let rc' = if awaited flags w.flags then 0 else rc in
    let again = element_wait_loop flags rc' later in
    if w.timed_out then some (pos 1) else if rc' == 0 then some (pos rc') else again

unfoldable pub cache_element_wait_for_flags : ℕ → List Wake → Option ℤ
cache_element_wait_for_flags flags wakes = element_wait_loop flags 0 wakes
