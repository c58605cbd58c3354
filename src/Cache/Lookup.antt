-- ===== src/Cache/Lookup.antt =====
-- `cache_lookup` of fs/cache.c: the place of the element, and the cache with its count raised.
use kanekfs.Base.{ℕ, ◌+◌, List, [], ◌∷◌, Option, none, some, ◌==◌, if◌then◌else◌}
use kanekfs.Cache.{Element, Cache}
use kanekfs.Cache.Marks.{add_count}

unfoldable pub lookup_loop : List (Option Element) → ℕ → ℕ → List (Option Element) × Option ℕ
lookup_loop [] key i = ([], none)
lookup_loop (none ∷ rest) key i =
    let (rest', ret) = lookup_loop rest key (i + 1) in (none ∷ rest', ret)
lookup_loop (some el ∷ rest) key i =
    let (rest', ret) = lookup_loop rest key (i + 1) in
    if el.ce_id == key then (some (add_count el) ∷ rest, some i) else (some el ∷ rest', ret)

unfoldable pub cache_lookup : Cache → ℕ → Cache × Option ℕ
cache_lookup cache key =
    let (elements', ret) = lookup_loop cache.elements key 0 in
    (record cache { elements = elements' }, ret)
