-- ===== src/PageCache/Mapped.antt =====
-- The page cache of fs/page_cache.c: pages that were not in the cache.
use kanekfs.Base.{
  ℕ, ◌+◌, ◌*◌, ◌-◌, ◌/◌, ◌%◌, ◌^◌, ◌<◌, true, ◌==◌, ltb, leb, ◌&&◌, Option, none, some, ◌≡◌, refl,
  ap, ◌∙◌, inl, inr, Bool-cases, arith, length, set, get_or, get_or-set, length-set,
  get_elem?-eq-get_or,
}
use kanekfs.Cache.{Element, Cache}
use kanekfs.Cache.Evict.{find_key}
use kanekfs.Cache.Replacement.{Full, UsedAtLeast}
use kanekfs.Cache.Mapping.{int_max, new_element, cache_element_map}
use kanekfs.Cache.Invariant.{IsValid, IsElement, set-IsValid}
use kanekfs.Cache.Eviction.{emptied}
use kanekfs.Cache.Outcomes.{
  MapOutcome, into_free, into_victim, refused, filled, new_element-IsElement,
  cache_element_map-MapOutcome,
}
use kanekfs.Disk.{Page, Device, kfs_blocksize}
use kanekfs.Slot.{byte_count, read_bytes, extent_read, write_bytes, extent_write}
use kanekfs.PageCache.{
  Part, Pages, PgCache, flush_part, pgcache_on_flush, callbacks, with_new, fill_element, map_new,
  pgcache_element_map,
}

-- Block `b` of an extent that was read.
read_block :
    (dev : Device) (p : Page) (addr n b k : ℕ)
    → b < n
    → k < 8192
    → read_bytes dev p addr (kfs_blocksize * n) (b * kfs_blocksize + k) ≡ dev (addr + b) k
unfolding read_bytes
read_block dev p addr n b k h l =
    let inside : ltb (b * 8192 + k) (8192 * n) ≡ true = ground arith in
    let block : (b * 8192 + k) / 8192 ≡ b = omega arith in
    let offset : (b * 8192 + k) % 8192 ≡ k = omega arith in
    rw (read_bytes, inside, block, offset) refl

-- As many bytes as an `int` counts.
byte_count-blocks : (n : ℕ) → n * 8192 < 2 ^ 31 → byte_count n ≡ some (kfs_blocksize * n)
unfolding byte_count
byte_count-blocks n h =
    let fits : ltb (8192 * n) (2 ^ 31) ≡ true = ground arith in rw (byte_count, fits) refl

extent_read-blocks :
    (dev : Device) (p : Page) (addr n : ℕ)
    → n * 8192 < 2 ^ 31
    → extent_read dev p addr n ≡ some (read_bytes dev p addr (kfs_blocksize * n))
unfolding extent_read
extent_read-blocks dev p addr n h = rw (extent_read, byte_count-blocks n h) refl

extent_write-blocks :
    (dev : Device) (p : Page) (addr n : ℕ)
    → n * 8192 < 2 ^ 31
    → extent_write dev p addr n ≡ some (write_bytes dev p addr (kfs_blocksize * n))
unfolding extent_write
extent_write-blocks dev p addr n h = rw (extent_write, byte_count-blocks n h) refl

-- A write of what was read changes no block.
write_read :
    (dev : Device) (p : Page) (addr n b k : ℕ)
    → k < 8192
    → write_bytes dev (read_bytes dev p addr (kfs_blocksize * n)) addr (kfs_blocksize * n) b k
      ≡ dev b k
unfolding write_bytes
write_read dev p addr n b k l =
    let blocks : 8192 * n / 8192 ≡ n = omega arith in
    elim (Bool-cases (leb addr b && ltb b (addr + n))) [
      | inl inside ↦
          let fits : ltb k 8192 ≡ true = ground arith in
          let same : addr + (b - addr) ≡ b = ground arith in
          rw (write_bytes, blocks, inside, fits)
            (read_block dev p addr n (b - addr) k (ground arith) l ∙ ap (λ (t : ℕ). dev t k) same)
      | inr outside ↦ rw (write_bytes, blocks, outside) refl
    ]

-- The element at place `i` stands for the `n` blocks from `addr` on: it has their address, its
-- memory what the device holds, and a flush leaves every block as it is.
pub record IsMapped (pc : PgCache) (addr n i : ℕ) : Type 0 where
  pub element : Element
  pub here : get_or pc.cache.elements i none ≡ some element
  pub named : element.ce_id ≡ addr
  pub mem : Page
  pub part :
      pc.pages.parts element.address
      ≡ record { pe_mem_ptr = some mem; pe_block_addr = addr; pe_num_blocks = n }
  pub contents :
      (b k : ℕ) → b < n → k < 8192 → mem (b * kfs_blocksize + k) ≡ pc.pages.dev (addr + b) k
  pub flushes :
      (b k : ℕ) → k < 8192 → (pgcache_on_flush element pc.pages).dev b k ≡ pc.pages.dev b k

same_address : (a : ℕ) → (a == a) ≡ true
same_address a = ground arith

flush-part :
    (el : Element) (pages : Pages) (mem : Page) (addr n : ℕ)
    → n * 8192 < 2 ^ 31
    → pages.parts el.address
      ≡ record { pe_mem_ptr = some mem; pe_block_addr = addr; pe_num_blocks = n }
    → pgcache_on_flush el pages
      ≡ record pages { dev = write_bytes pages.dev mem addr (kfs_blocksize * n) }
unfolding pgcache_on_flush
flush-part el pages mem addr n small h =
    ap (λ (part : Part). flush_part part pages) h
    ∙ rw (flush_part, extent_write-blocks pages.dev mem addr n small) refl

fill_element-IsMapped :
    (pc : PgCache) (i : ℕ) (el : Element) (addr n : ℕ) (p : Page)
    → n * 8192 < 2 ^ 31
    → i < length pc.cache.elements
    → IsMapped
        (fill_element pc i el addr n (read_bytes pc.pages.dev p addr (kfs_blocksize * n)))
        addr
        n
        i
unfolding fill_element
fill_element-IsMapped pc i el addr n p small h =
    let read : Page = read_bytes pc.pages.dev p addr (kfs_blocksize * n) in
    let element : Element = record el { ce_id = addr } in
    let pc' : PgCache = fill_element pc i el addr n read in
    let part : pc'.pages.parts el.address
        ≡ record { pe_mem_ptr = some read; pe_block_addr = addr; pe_num_blocks = n } =
      rw (same_address el.address) refl in
    record {
      element = element;
      here = get_or-set pc.cache.elements i i (some element) none h ∙ rw (same_address i) refl;
      named = refl;
      mem = read;
      part = part;
      contents = λ b k l m. read_block pc.pages.dev p addr n b k l m;
      flushes = λ b k m.
          ap (λ (pages : Pages). pages.dev b k)
            (flush-part element pc'.pages read addr n small part)
          ∙ write_read pc.pages.dev p addr n b k m;
    }

-- No element may be replaced.
abbrev pub IsBusy : Cache → Type 0
IsBusy cache = Full cache.elements × UsedAtLeast cache.elements int_max

-- The new element is in its place, or there is none and nothing has changed.
abbrev IsNew : ℕ → Cache → Pages → Cache → Pages → Option ℕ → Type 0
IsNew address old w cache w' none = (cache ≡ old) × (w' ≡ w) × IsBusy old
IsNew address old w cache w' (some i) =
    (i < length cache.elements) × (get_or cache.elements i none ≡ some (new_element address))

filled-IsNew :
    (address : ℕ) (old cache : Cache) (w w' : Pages) (i : ℕ)
    → i < length cache.elements
    → IsNew address old w (filled cache i address) w' (some i)
filled-IsNew address old cache w w' i h =
    let new : Option Element = some (new_element address) in
    (
      omega (arith, length-set cache.elements i new),
      get_or-set cache.elements i i new none h ∙ rw (same_address i) refl,
    )

outcome-IsNew :
    (address : ℕ) (cache : Cache) (w : Pages) {cache' : Cache} {w' : Pages} {result : Option ℕ}
    → MapOutcome callbacks address cache w cache' w' result
    → IsNew address cache w cache' w' result
outcome-IsNew address cache w (into_free i h free) = filled-IsNew address cache cache w w i h
outcome-IsNew address cache w (into_victim i el full victim less) =
    filled-IsNew address cache (emptied callbacks cache w i) w w i
      (omega (arith, victim.1, length-set cache.elements i none))
outcome-IsNew address cache w (refused full all) = (refl, refl, (full, all))

named-IsElement : (address addr : ℕ) → IsElement (record (new_element address) { ce_id = addr })
named-IsElement address addr = record {
  is_active = (new_element-IsElement address).is_active;
  one_state = (new_element-IsElement address).one_state;
}

named-IsValid :
    (cache : Cache) (i address addr : ℕ)
    → IsValid cache
    → (i < length cache.elements) × (get_or cache.elements i none ≡ some (new_element address))
    → IsValid (record cache {
      elements = set cache.elements i (some (record (new_element address) { ce_id = addr }));
    })
named-IsValid cache i address addr v new =
    set-IsValid cache i cache.in_use (some (record (new_element address) { ce_id = addr })) v new.0
      (named-IsElement address addr) (rw new.1 refl)

-- What `pgcache_element_map` leaves of a page cache when there is memory: NULL is the answer only
-- where no element may be replaced, and then nothing has changed.
abbrev pub IsMappedOrRefused : PgCache → PgCache → ℕ → ℕ → Option ℕ → Type 0
IsMappedOrRefused old pc addr n none = (pc ≡ old) × IsBusy old.cache
IsMappedOrRefused old pc addr n (some i) = IsMapped pc addr n i

-- How `map_new` goes on after the element is there.
map_new-IsMappedOrRefused :
    (pc : PgCache) (addr n address : ℕ) (p : Page) (cache : Cache) (pages : Pages)
    (result : Option ℕ)
    → n * 8192 < 2 ^ 31
    → cache_element_map callbacks pc.cache (some address) pc.pages ≡ some (cache, pages, result)
    → IsNew address pc.cache pc.pages cache pages result
    → IsValid cache
    → (pc' : PgCache) × (result' : Option ℕ) × (map_new pc addr n (some address) (some p)
        ≡ some (pc', result'))
      × IsMappedOrRefused pc pc' addr n result'
      × IsValid pc'.cache
unfolding map_new fill_element
map_new-IsMappedOrRefused pc addr n address p cache pages none small called new v = (
  record { cache = cache; pages = pages },
  none,
  rw (map_new, called) refl,
  ((λ j. record { cache = new.0 j; pages = new.1 j }), new.2),
  v,
)
map_new-IsMappedOrRefused pc addr n address p cache pages (some i) small called new v =
    let el : Element = new_element address in
    let pc' : PgCache = with_new cache pages el in
    (
      fill_element pc' i el addr n (read_bytes pages.dev p addr (kfs_blocksize * n)),
      some i,
      rw
          (
            map_new,
            called,
            get_elem?-eq-get_or cache.elements i none new.0,
            new.1,
            byte_count-blocks n small,
            extent_read-blocks pages.dev p addr n small,
          )
          refl,
      fill_element-IsMapped pc' i el addr n p small new.0,
      named-IsValid cache i address addr v new,
    )

-- On a well-formed cache that has no element with the address, with memory for the element and its
-- blocks, whose bytes an `int` can count, `pgcache_element_map` returns the place of an element that
-- is named by the address, whose memory holds what the device has from the address on, and whose
-- flush leaves every block as it is; or NULL, and then nothing has changed, no place is empty, and
-- every element that is not pinned was used `INT_MAX` times or more. The cache stays well formed.
pub pgcache_element_map-IsMappedOrRefused :
    (pc : PgCache) (addr n address : ℕ) (p : Page)
    → IsValid pc.cache
    → n * 8192 < 2 ^ 31
    → find_key pc.cache.elements addr 0 ≡ none
    → (pc' : PgCache) × (result : Option ℕ) × (pgcache_element_map pc addr n (some address) (some p)
        ≡ some (pc', result))
      × IsMappedOrRefused pc pc' addr n result
      × IsValid pc'.cache
unfolding pgcache_element_map
pgcache_element_map-IsMappedOrRefused pc addr n address p v small absent =
    let (cache, pages, result, called, outcome, v') =
      cache_element_map-MapOutcome callbacks address pc.cache pc.pages v in
    let (pc', result', e, spec, valid) =
      map_new-IsMappedOrRefused pc addr n address p cache pages result small called
        (outcome-IsNew address pc.cache pc.pages outcome) v' in
    (pc', result', rw (pgcache_element_map, absent) e, spec, valid)
