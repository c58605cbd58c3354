-- ===== src/Cache/Mapping.antt =====
-- `cache_init` and `cache_element_map` of fs/cache.c.
use kanekfs.Base.{
  ℕ, ◌+◌, ◌-◌, ◌^◌, ℤ, pos, negsuc, List, [], ◌∷◌, Option, none, some, Bool, ◌==◌, ltb, u32, ◌&&◌,
  not, bit_and, bit_or, set, replicate, if◌then◌else◌,
}
use kanekfs.Map.Bitmap.{◌>>=◌}
use kanekfs.Cache.{Element, Cache, Callbacks, el_active, el_pin, el_clean, cache_ready}
use kanekfs.Cache.Evict.{cache_element_evict_by_idx}

-- Whether `malloc` and `pthread_mutex_init` succeed is up to the system.
unfoldable pub cache_init : ℕ → Bool → Bool → Cache × ℤ
cache_init elements_capacity malloc_ok mutex_ok =
    if not malloc_ok
    then (record { elements = []; in_use = 0; flags = 0 }, negsuc 0)
    else let elements' = replicate elements_capacity none in
      if not mutex_ok
      then (record { elements = elements'; in_use = 0; flags = 0 }, negsuc 0)
      else (record { elements = elements'; in_use = 0; flags = cache_ready }, pos 0)

-- The search for an empty slot, from place `i` on.
unfoldable pub first_free : List (Option Element) → ℕ → Option ℕ
first_free [] i = none
first_free (none ∷ rest) i = some i
first_free (some el ∷ rest) i = first_free rest (i + 1)

abbrev pub int_max : ℕ
int_max = 2 ^ 31 - 1

-- The search for the least used element. The outer `none` is the abort at a NULL pointer, the
-- inner one is `sub < 0`.
unfoldable pub least_used : List (Option Element) → ℕ → ℕ → Option ℕ → Option (Option ℕ)
least_used [] i least sub = some sub
least_used (none ∷ rest) i least sub = none
least_used (some el ∷ rest) i least sub =
    let better = bit_and el.ce_flags el_pin == 0 && ltb el.ce_access_count least in
    least_used rest (i + 1) (if better then el.ce_access_count else least)
      (if better then some i else sub)

-- The new element: `address` is where `malloc` put it.
abbrev pub new_element : ℕ → Element
new_element address = record {
  address = address;
  ce_id = address;
  ce_flags = bit_or el_active el_clean;
  ce_access_count = 1;
}

module _ {W : Type 0} (cb : Callbacks W) where
  -- From `clean pointer found` on. `malloc` gives `none` also where the mutex cannot be made.
  unfoldable pub fill_slot : Cache → ℕ → Option ℕ → W → Cache × W × Option ℕ
  fill_slot cache sub malloc w = elim malloc [
    | none ↦ (cache, w, none)
    | some address ↦ (
      record cache {
        elements = set cache.elements sub (some (new_element address));
        in_use = u32 (cache.in_use + 1);
      },
      w,
      some sub,
    )
  ]

  -- The result is the place of the new element; `none` beside the state is a NULL result.
  unfoldable pub cache_element_map : Cache → Option ℕ → W → Option (Cache × W × Option ℕ)
  cache_element_map cache malloc w = elim (first_free cache.elements 0) [
    | some sub ↦ some (fill_slot cache sub malloc w)
    | none ↦ elim (least_used cache.elements 0 int_max none) [
      | none ↦ some (cache, w, none)
      | some none ↦ some (cache, w, none)
      | some (some sub) ↦ do
        (cache', w') ← cache_element_evict_by_idx cb cache sub w
        some (fill_slot cache' sub malloc w')
    ]
  ]
