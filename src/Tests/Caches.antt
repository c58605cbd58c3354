-- ===== src/Tests/Caches.antt =====
-- fs/cache.c on a cache of three elements: one pinned, one dirty, one clean.
use kanekfs.Base.{
  ℕ, zero, suc, ◌+◌, pos, List, [], ◌∷◌, ◌++◌, Option, none, some, ◌≡◌, ◌⊎◌, refl, arith, get_or,
  set, true, false, length,
}
use kanekfs.Bits.{bit_at}
use kanekfs.Cache.{Element, Cache, Callbacks}
use kanekfs.Cache.Marks.{
  add_count, cache_element_mark_eviction, cache_element_mark_dirty, cache_element_pin,
  cache_element_mark_unpin,
}
use kanekfs.Cache.Evict.{
  flush_if_dirty, call_on_evict, cache_element_evict_by_idx, find_key, cache_element_evict,
}
use kanekfs.Cache.Lookup.{lookup_loop, cache_lookup}
use kanekfs.Cache.Mapping.{
  cache_init, first_free, least_used, fill_slot, cache_element_map, new_element,
}
use kanekfs.Cache.Thread.{visit, traverse, end_of_pass, thread_pass}
use kanekfs.Cache.Control.{mark_slot, mark_unpinned_slot, sync_begin, cache_sync, disable_begin}
use kanekfs.Cache.Waiting.{Wake, awaited, cache_wait_for_flags, cache_element_wait_for_flags}
use kanekfs.Cache.Invariant.{IsElement, IsValid, used, mark_dirty-digit}
use kanekfs.Cache.Eviction.{NoKey, emptied, cache_element_evict-FirstKey}
use kanekfs.Cache.Outcomes.{MapOutcome, cache_element_map-MapOutcome}
use kanekfs.Cache.Sync.{kept, idle, cache_sync-kept, disable-empty}
use kanekfs.Cache.Reads.{
  Decided, cache_lookup-FirstKey, cache_wait_for_flags-Decided, cache_element_wait_for_flags-blind,
}

-- All of the model, open.
program : Unit {0}
unfolding cache_element_mark_eviction cache_element_mark_dirty cache_element_pin
    cache_element_mark_unpin flush_if_dirty call_on_evict cache_element_evict_by_idx find_key
    cache_element_evict lookup_loop cache_lookup cache_init first_free least_used fill_slot
    cache_element_map visit traverse end_of_pass thread_pass mark_slot mark_unpinned_slot sync_begin
    disable_begin
program = tt

abbrev pinned_one : Element
pinned_one = record { address = 10; ce_id = 10; ce_flags = 0x19; ce_access_count = 2 }

abbrev dirty_one : Element
dirty_one = record { address = 20; ce_id = 20; ce_flags = 0x03; ce_access_count = 3 }

abbrev clean_one : Element
clean_one = record { address = 30; ce_id = 30; ce_flags = 0x11; ce_access_count = 7 }

abbrev three : Cache
three = record {
  elements = some pinned_one ∷ some dirty_one ∷ some clean_one ∷ [];
  in_use = 3;
  flags = 0x0003;
}

-- The world is a log of the elements that were flushed, and 1000 more for those evicted.
abbrev logging : Callbacks (List ℕ)
logging = record {
  on_evict = some (λ el log. log ++ (1000 + el.ce_id) ∷ []);
  on_flush = some (λ el log. log ++ el.ce_id ∷ []);
}

three-IsValid : IsValid three
unfolding bit_at used
three-IsValid = record { capacity = omega arith; counted = refl; slots = slots }
  where
    slots : (i : ℕ) → kanekfs.Cache.Invariant.SlotOk (get_or three.elements i none)
    slots zero = record { is_active = refl; one_state = refl }
    slots (suc zero) = record { is_active = refl; one_state = refl }
    slots (suc (suc zero)) = record { is_active = refl; one_state = refl }
    slots (suc (suc (suc i))) = tt

-- The dirty element is the least used one that is not pinned; it is flushed and then replaced.
map_runs :
    cache_element_map logging three (some 77) []
    ≡ some (
      record three { elements = some pinned_one ∷ some (new_element 77) ∷ some clean_one ∷ [] },
      20 ∷ 1020 ∷ [],
      some 1,
    )
unfolding program
map_runs = refl

pass_runs : thread_pass logging idle three [] ≡ (
  record three {
    elements =
        some pinned_one
        ∷ some (record dirty_one { ce_flags = 0x11; ce_access_count = 4 })
        ∷ some clean_one
        ∷ [];
  },
  20 ∷ [],
)
unfolding program
pass_runs = refl

sync_runs : thread_pass logging idle (sync_begin three).0 [] ≡ (
  record { elements = some pinned_one ∷ none ∷ none ∷ []; in_use = 1; flags = 0x0203 },
  20 ∷ 1020 ∷ 1030 ∷ [],
)
unfolding program
sync_runs = refl

cache_element_map-MapOutcome_example :
    (cache' : Cache) × (w' : List ℕ) × (result : Option ℕ) × (cache_element_map logging three
        (some 77)
        []
      ≡ some (cache', w', result))
    × MapOutcome logging 77 three [] cache' w' result
    × IsValid cache'
cache_element_map-MapOutcome_example =
    cache_element_map-MapOutcome logging 77 three [] three-IsValid

cache_sync-kept_example :
    let passed = thread_pass logging idle (sync_begin three).0 [] in
    (done : Cache) × (cache_sync
        (thread_pass logging idle)
        (record { timed_out = false; flags = passed.0.flags } ∷ [])
        three
        []
      ≡ some (done, passed.1, pos 0))
    × IsValid done
    × ((k : ℕ) → get_or done.elements k none ≡ kept (get_or three.elements k none))
    × (bit_at done.flags 9 ≡ 0)
cache_sync-kept_example = cache_sync-kept logging three [] three-IsValid ready
  where
    ready : bit_at 3 0 ≡ 1
    ready = unfold bit_at in refl

disable-empty_example :
    let passed = (thread_pass logging idle (disable_begin three) []).0 in
    ((k : ℕ) → get_or passed.elements k none ≡ none)
    × (passed.in_use ≡ 0)
    × (bit_at passed.flags 5 ≡ 1)
    × (bit_at passed.flags 7 ≡ 1)
disable-empty_example = disable-empty logging three [] three-IsValid

cache_element_evict-FirstKey_example :
    NoKey three.elements 20 (length three.elements)
      × (cache_element_evict logging three 20 [] ≡ some (three, []))
    ⊎ ((i : ℕ) × (el : Element) × (get_or three.elements i none ≡ some el)
        × (el.ce_id ≡ 20)
        × NoKey three.elements 20 i
        × (cache_element_evict logging three 20 []
            ≡ some (
              emptied logging three [] i,
              call_on_evict logging
                  (flush_if_dirty logging el []).0
                  (flush_if_dirty logging el []).1,
            ))
        × IsValid (emptied logging three [] i))
cache_element_evict-FirstKey_example =
    cache_element_evict-FirstKey logging three 20 [] three-IsValid

cache_lookup-FirstKey_example :
    (cache_lookup three 20 ≡ (three, none)) × NoKey three.elements 20 (length three.elements)
    ⊎ ((i : ℕ) × (el : Element) × (cache_lookup three 20
          ≡ (record three { elements = set three.elements i (some (add_count el)) }, some i))
        × (get_or three.elements i none ≡ some el)
        × (el.ce_id ≡ 20)
        × NoKey three.elements 20 i)
cache_lookup-FirstKey_example = cache_lookup-FirstKey three 20

abbrev wakes : List Wake
wakes =
    record { timed_out = false; flags = 0x0001 } ∷ record { timed_out = false; flags = 0x0003 } ∷ []

wait_returns : cache_wait_for_flags 0x0002 wakes ≡ some (pos 0)
unfolding cache_wait_for_flags
wait_returns = refl

cache_wait_for_flags-Decided_example :
    (pos 0 ≡ pos 0) × Decided 2 wakes (λ w. (w.timed_out ≡ false) × (awaited 2 w.flags ≡ true))
    ⊎ (pos 0 ≡ pos 1) × Decided 2 wakes (λ w. w.timed_out ≡ true)
cache_wait_for_flags-Decided_example = cache_wait_for_flags-Decided 2 wakes (pos 0) wait_returns

-- The element is dirty, and the call that waits for it to be clean returns 0.
cache_element_wait_for_flags-blind_example :
    cache_element_wait_for_flags 0x0010 (record { timed_out = false; flags = 0x0003 } ∷ [])
    ≡ some (pos 0)
cache_element_wait_for_flags-blind_example =
    cache_element_wait_for_flags-blind 0x0010 (record { timed_out = false; flags = 0x0003 }) []
