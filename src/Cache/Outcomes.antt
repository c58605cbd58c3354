-- ===== src/Cache/Outcomes.antt =====
-- What `cache_element_map` does on each branch.
use kanekfs.Base.{
  ℕ, ◌+◌, ◌<◌, Option, none, some, ◌≡◌, refl, ap, arith, u32, length, set, get_or, inl, inr,
  get_or-set, length-set,
}
use kanekfs.Bits.{bit_at}
use kanekfs.Cache.{Element, Cache, Callbacks}
use kanekfs.Cache.Evict.{flush_if_dirty, call_on_evict}
use kanekfs.Cache.Mapping.{int_max, new_element, fill_slot, cache_element_map}
use kanekfs.Cache.Invariant.{IsElement, IsValid, one_if_some, used-le-length, used-set, set-IsValid}
use kanekfs.Cache.Eviction.{emptied, evict_by_idx-emptied}
use kanekfs.Cache.Replacement.{Full, UsedAtLeast, Victim, first_free_cases, least_used-LeastUsed}

pub new_element-IsElement : (address : ℕ) → IsElement (new_element address)
unfolding bit_at
new_element-IsElement address = record { is_active = refl; one_state = refl }

-- The new element in its place.
abbrev pub filled : Cache → ℕ → ℕ → Cache
filled cache i address = record cache {
  elements = set cache.elements i (some (new_element address));
  in_use = cache.in_use + 1;
}

module _ {W : Type 0} (cb : Callbacks W) (address : ℕ) where
  fill_slot-filled :
      (cache : Cache) (i : ℕ) (w : W)
      → IsValid cache
      → i < length cache.elements
      → get_or cache.elements i none ≡ none
      → (fill_slot cb cache i (some address) w ≡ (filled cache i address, w, some i))
        × IsValid (filled cache i address)
  unfolding fill_slot
  fill_slot-filled cache i w v h free =
      let count : one_if_some (get_or cache.elements i none) ≡ 0 = ap one_if_some free in
      let new = some (new_element address) in
      let inc : u32 (cache.in_use + 1) ≡ cache.in_use + 1 = omega (
        arith,
        v.counted,
        v.capacity,
        count,
        used-set cache.elements i new h,
        used-le-length (set cache.elements i new),
        length-set cache.elements i new,
      ) in
      (
        ground (arith, inc),
        set-IsValid cache i (cache.in_use + 1) new v h (new_element-IsElement address)
            (omega (arith, count)),
      )

  -- The three ways in which a call ends when there is memory.
  pub data MapOutcome (cache : Cache) (w : W) : Cache → W → Option ℕ → Type 0 where
    -- An empty slot is used.
    into_free :
        (i : ℕ)
        → i < length cache.elements
        → get_or cache.elements i none ≡ none
        → MapOutcome cache w (filled cache i address) w (some i)
    -- No slot is empty: the least used element that is not pinned makes room, after a flush.
    into_victim :
        (i : ℕ) (el : Element)
        → Full cache.elements
        → Victim cache.elements i el
        → el.ce_access_count < int_max
        → MapOutcome cache w
            (filled (emptied cb cache w i) i address)
            (call_on_evict cb (flush_if_dirty cb el w).0 (flush_if_dirty cb el w).1)
            (some i)
    -- No slot is empty, and every element that is not pinned was used `INT_MAX` times or more.
    refused :
        Full cache.elements → UsedAtLeast cache.elements int_max → MapOutcome cache w cache w none

  -- On a well-formed cache, with memory for the element, `cache_element_map` returns in one of
  -- the three ways of `MapOutcome`, and leaves a well-formed cache.
  pub cache_element_map-MapOutcome :
      (cache : Cache) (w : W)
      → IsValid cache
      → (cache' : Cache) × (w' : W) × (result : Option ℕ) × (cache_element_map cb cache
            (some address)
            w
          ≡ some (cache', w', result))
        × MapOutcome cache w cache' w' result
        × IsValid cache'
  unfolding cache_element_map
  cache_element_map-MapOutcome cache w v = elim (first_free_cases cache.elements 0) [
    | inr (i, found, h, free) ↦
        let (e, v') = fill_slot-filled cache i w v h free in
        (filled cache i address, w, some i, ground (arith, found, e), into_free i h free, v')
    | inl (found, full) ↦
        let (r, searched, spec) = least_used-LeastUsed cache.elements 0 int_max none full in
        elim spec [
          | inl (nobody, all) ↦
              (cache, w, none, ground (arith, found, searched, nobody), refused full all, v)
          | inr (i, el, here, (at, h, p, all), less) ↦
              let (evicted, v') = evict_by_idx-emptied cb cache w i el v h at in
              let (e, v'') =
                fill_slot-filled (emptied cb cache w i) i
                  (call_on_evict cb (flush_if_dirty cb el w).0 (flush_if_dirty cb el w).1) v'
                  (omega (arith, length-set cache.elements i none))
                  (ground (arith, get_or-set cache.elements i i none none h)) in
              (
                filled (emptied cb cache w i) i address,
                call_on_evict cb (flush_if_dirty cb el w).0 (flush_if_dirty cb el w).1,
                some i,
                ground (arith, found, searched, here, evicted, e),
                into_victim i el full (at, h, p, all) less,
                v'',
              )
        ]
  ]
