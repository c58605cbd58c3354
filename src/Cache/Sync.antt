-- ===== src/Cache/Sync.antt =====
-- `cache_sync` and `cache_disable` together with the pass of the thread that they wait for.
use kanekfs.Base.{
  ℕ, zero, suc, List, [], ◌∷◌, Option, none, some, ◌≡◌, refl, sym, ap, ◌∙◌, arith, length, get_or,
  Bool, true, false, inl, inr, if◌then◌else◌, ◌==◌, ◌^◌, bit_and, bit_or, Bool-cases, map, ◌&&◌,
  pos,
}
use kanekfs.Bits.{
  bit_at, bit_at-lt, bit_and-two_pow, bit_and_bit, two_pow_bit, eq_of_bits, set_flag_bit,
  clear_flag_bit,
}
use kanekfs.Cache.{Element, Cache, Callbacks}
use kanekfs.Cache.Thread.{thread_pass}
use kanekfs.Cache.Control.{
  mark_slot, mark_unpinned_slot, disable_begin, sync_begin, cache_clear_loop_done, cache_sync,
}
use kanekfs.Cache.Waiting.{awaited, cache_wait_for_flags}
use kanekfs.Cache.Invariant.{
  SlotOk, IsValid, evicting, pinned, used, one_if_some, used-cons, mark_eviction-digit,
  mark_eviction-IsElement,
}
use kanekfs.Cache.Rounds.{end_of_pass-digit, used-none, thread_pass-after_pass}
use kanekfs.Cache.Pass.{flushed, after_pass}

-- A change of the slots that leaves the empty ones empty.
module _ (f : Option Element → Option Element) (empty : f none ≡ none) where
  get_or-map_slots :
      (elements : List (Option Element)) (k : ℕ)
      → get_or (map f elements) k none ≡ f (get_or elements k none)
  get_or-map_slots [] k = sym empty
  get_or-map_slots (slot ∷ rest) zero = refl
  get_or-map_slots (slot ∷ rest) (suc k) = get_or-map_slots rest k

  used-map_slots :
      ((slot : Option Element) → one_if_some (f slot) ≡ one_if_some slot)
      → (elements : List (Option Element))
      → (used (map f elements) ≡ used elements) × (length (map f elements) ≡ length elements)
  used-map_slots h [] = (refl, refl)
  used-map_slots h (slot ∷ rest) =
      let (a, b) = used-map_slots h rest in
      (omega (arith, a, h slot, used-cons slot rest, used-cons (f slot) (map f rest)), ap suc b)

  IsValid-map_slots :
      (cache : Cache) (flags : ℕ)
      → ((slot : Option Element) → one_if_some (f slot) ≡ one_if_some slot)
      → ((slot : Option Element) → SlotOk slot → SlotOk (f slot))
      → IsValid cache
      → IsValid (record cache { elements = map f cache.elements; flags = flags })
  IsValid-map_slots cache flags h ok v =
      let (a, b) = used-map_slots h cache.elements in
      record {
        capacity = omega (arith, b, v.capacity);
        counted = omega (arith, a, v.counted);
        slots = λ k.
            rw (get_or-map_slots cache.elements k) (ok (get_or cache.elements k none) (v.slots k));
      }

mark_slot-SlotOk : (slot : Option Element) → SlotOk slot → SlotOk (mark_slot slot)
unfolding mark_slot
mark_slot-SlotOk none h = tt
mark_slot-SlotOk (some el) h = mark_eviction-IsElement h

mark_unpinned_slot-SlotOk : (slot : Option Element) → SlotOk slot → SlotOk (mark_unpinned_slot slot)
unfolding mark_unpinned_slot
mark_unpinned_slot-SlotOk none h = tt
mark_unpinned_slot-SlotOk (some el) h = elim (Bool-cases (bit_and el.ce_flags 8 == 0)) [
  | inl free ↦ rw free (mark_eviction-IsElement h)
  | inr held ↦ rw held h
]

mark_slot-some : (slot : Option Element) → one_if_some (mark_slot slot) ≡ one_if_some slot
unfolding mark_slot
mark_slot-some none = refl
mark_slot-some (some el) = refl

mark_unpinned_slot-some :
    (slot : Option Element) → one_if_some (mark_unpinned_slot slot) ≡ one_if_some slot
unfolding mark_unpinned_slot
mark_unpinned_slot-some none = refl
mark_unpinned_slot-some (some el) = ground arith

-- What a sync leaves of a slot: the pinned elements, flushed.
abbrev pub kept : Option Element → Option Element
kept none = none
kept (some el) = if pinned el == 1 && evicting el == 0 then some (flushed el) else none

abbrev pub idle : ℕ → Bool
idle i = false

sync_slot :
    (k : ℕ) (slot : Option Element)
    → SlotOk slot
    → after_pass idle k (mark_unpinned_slot slot) ≡ kept slot
unfolding after_pass mark_unpinned_slot
sync_slot k none h = refl
sync_slot k (some el) h = ground (
  arith,
  bit_and-two_pow el.ce_flags 3,
  bit_at-lt el.ce_flags 3,
  bit_at-lt el.ce_flags 2,
  mark_eviction-digit el h.is_active 2 (omega arith),
)

disable_slot :
    (k : ℕ) (slot : Option Element) → SlotOk slot → after_pass idle k (mark_slot slot) ≡ none
unfolding after_pass mark_slot
disable_slot k none h = refl
disable_slot k (some el) h = ground (arith, mark_eviction-digit el h.is_active 2 (omega arith))

flag_alone : (flags k : ℕ) → bit_at flags k ≡ 1 → bit_and flags (2 ^ k) ≡ 2 ^ k
flag_alone flags k on =
    eq_of_bits (bit_and flags (2 ^ k)) (2 ^ k)
      (λ i. ground (arith, on, bit_and_bit flags (2 ^ k) i, two_pow_bit k i, bit_at-lt flags i))

done_seen : (flags : ℕ) → bit_at flags 9 ≡ 1 → awaited 512 flags ≡ true
done_seen flags on = ground (arith, flag_alone flags 9 on)

module _ {W : Type 0} (cb : Callbacks W) (cache : Cache) (w : W) (v : IsValid cache) where
  -- Up to the wake-up.
  marks-kept :
      bit_at cache.flags 0 ≡ 1
      → let marked = sync_begin cache in
        let passed = (thread_pass cb idle marked.0 w).0 in
        (marked.1 ≡ pos 0)
        × IsValid passed
        × ((k : ℕ) → get_or passed.elements k none ≡ kept (get_or cache.elements k none))
        × (bit_at passed.flags 9 ≡ 1)
  unfolding sync_begin
  marks-kept ready =
      let test : (bit_and cache.flags 1 == 0) ≡ false =
        ground (arith, bit_and-two_pow cache.flags 0) in
      let marked : Cache = record cache {
        elements = map mark_unpinned_slot cache.elements;
        flags = bit_or cache.flags 256;
      } in
      let v' : IsValid marked =
        IsValid-map_slots mark_unpinned_slot (unfold mark_unpinned_slot in refl) cache
          (bit_or cache.flags 256) mark_unpinned_slot-some mark_unpinned_slot-SlotOk v in
      let (v'', slots, flags) = thread_pass-after_pass idle cb marked w v' in
      rw test (
        refl,
        v'',
        λ k.
            slots k
            ∙ ap (after_pass idle k) (
                get_or-map_slots mark_unpinned_slot (unfold mark_unpinned_slot in refl)
                  cache.elements k)
            ∙ sync_slot k (get_or cache.elements k none) (v.slots k),
        ground (
          arith,
          flags 9 (omega arith),
          end_of_pass-digit (bit_or cache.flags 256) 9 (omega arith),
          set_flag_bit cache.flags 8 8,
          bit_at-lt (bit_or cache.flags 256) 9,
        ),
      )

  -- On a well-formed cache that is ready, `cache_sync`, when the thread makes one pass during its
  -- wait, in which no element is locked, and the wait observes the flags after it in time, returns 0:
  -- it empties every slot except those with an element that is pinned and not marked for eviction,
  -- which is flushed; the cache stays well formed and `CACHE_LOOP_DONE` is off.
  pub cache_sync-kept :
      bit_at cache.flags 0 ≡ 1
      → let passed = thread_pass cb idle (sync_begin cache).0 w in
        (done : Cache) × (cache_sync
            (thread_pass cb idle)
            (record { timed_out = false; flags = passed.0.flags } ∷ [])
            cache
            w
          ≡ some (done, passed.1, pos 0))
        × IsValid done
        × ((k : ℕ) → get_or done.elements k none ≡ kept (get_or cache.elements k none))
        × (bit_at done.flags 9 ≡ 0)
  unfolding cache_sync cache_clear_loop_done cache_wait_for_flags
  cache_sync-kept ready =
      let test : (bit_and cache.flags 1 == 0) ≡ false =
        ground (arith, bit_and-two_pow cache.flags 0) in
      let passed = thread_pass cb idle (sync_begin cache).0 w in
      let (zero_rc, valid, slots, loop_done) = marks-kept ready in
      let seen : awaited 512 passed.0.flags ≡ true = done_seen passed.0.flags loop_done in
      (
        cache_clear_loop_done passed.0,
        rw (test, seen) refl,
        record { capacity = valid.capacity; counted = valid.counted; slots = valid.slots },
        slots,
        clear_flag_bit 32 passed.0.flags 9 9 (omega arith),
      )

  -- On a well-formed cache, after the marks of `cache_disable` and one pass in which no element is
  -- locked, no element is left, pinned or not, `ca_elements_in_use` is 0, and `CACHE_EXIT` and
  -- `CACHE_EVICTED`, for which `cache_disable` waits, are on.
  pub disable-empty :
      let passed = (thread_pass cb idle (disable_begin cache) w).0 in
      ((k : ℕ) → get_or passed.elements k none ≡ none)
      × (passed.in_use ≡ 0)
      × (bit_at passed.flags 5 ≡ 1)
      × (bit_at passed.flags 7 ≡ 1)
  unfolding disable_begin
  disable-empty =
      let marked : Cache = record cache {
        elements = map mark_slot cache.elements;
        flags = bit_or cache.flags 32;
      } in
      let v' : IsValid marked =
        IsValid-map_slots mark_slot (unfold mark_slot in refl) cache (bit_or cache.flags 32)
          mark_slot-some mark_slot-SlotOk v in
      let (v'', slots, flags) = thread_pass-after_pass idle cb marked w v' in
      let empty : (k : ℕ) → get_or (thread_pass cb idle marked w).0.elements k none ≡ none = λ k.
        slots k
        ∙ ap (after_pass idle k)
            (get_or-map_slots mark_slot (unfold mark_slot in refl) cache.elements k)
        ∙ disable_slot k (get_or cache.elements k none) (v.slots k) in
      let digit = end_of_pass-digit (bit_or cache.flags 32) in
      (
        empty,
        omega (arith, v''.counted, used-none (thread_pass cb idle marked w).0.elements empty),
        ground (arith, flags 5 (omega arith), digit 5 (omega arith), set_flag_bit cache.flags 5 5),
        ground (
          arith,
          flags 7 (omega arith),
          digit 7 (omega arith),
          set_flag_bit cache.flags 5 5,
          bit_at-lt (bit_or cache.flags 32) 7,
        ),
      )
