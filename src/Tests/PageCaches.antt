-- ===== src/Tests/PageCaches.antt =====
-- fs/page_cache.c on a cache with two empty places, and a device with a number in every cell.
use kanekfs.Base.{ℕ, ◌+◌, ◌*◌, zero, suc, [], ◌∷◌, Option, none, some, ◌≡◌, refl, arith, get_or}
use kanekfs.Cache.{Cache}
use kanekfs.Cache.Evict.{find_key}
use kanekfs.Cache.Invariant.{IsValid, SlotOk, used}
use kanekfs.Disk.{Page}
use kanekfs.PageCache.{PgCache, no_part, pgcache_element_map}
use kanekfs.PageCache.Mapped.{IsMappedOrRefused, pgcache_element_map-IsMappedOrRefused}

abbrev zeroes : Page
zeroes off = 0

abbrev two_places : Cache
two_places = record { elements = none ∷ none ∷ []; in_use = 0; flags = 1 }

abbrev page_cache : PgCache
page_cache = record {
  cache = two_places;
  pages = record { parts = λ address. no_part; dev = λ addr off. addr * 10000 + off };
}

two_places-slots : (i : ℕ) → SlotOk (get_or two_places.elements i none)
two_places-slots zero = tt
two_places-slots (suc zero) = tt
two_places-slots (suc (suc i)) = tt

two_places-IsValid : IsValid two_places
unfolding used
two_places-IsValid = record { capacity = omega arith; counted = refl; slots = two_places-slots }

not_cached : find_key two_places.elements 7 0 ≡ none
unfolding find_key
not_cached = refl

pgcache_element_map-IsMappedOrRefused_example :
    (pc' : PgCache) × (result : Option ℕ) × (pgcache_element_map page_cache 7 2
        (some 4096)
        (some zeroes)
      ≡ some (pc', result))
    × IsMappedOrRefused page_cache pc' 7 2 result
    × IsValid pc'.cache
pgcache_element_map-IsMappedOrRefused_example =
    pgcache_element_map-IsMappedOrRefused page_cache 7 2 4096 zeroes two_places-IsValid
      (omega arith) not_cached
