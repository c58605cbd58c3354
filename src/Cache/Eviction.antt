-- ===== src/Cache/Eviction.antt =====
-- `cache_element_evict_by_idx` and `cache_element_evict` keep the cache well formed and empty
-- exactly the slot that they are about.
use kanekfs.Base.{
  ℕ, zero, suc, ◌+◌, ◌-◌, ◌^◌, ◌<◌, List, [], ◌∷◌, Option, none, some, ◌≡◌, ◌≢◌, refl, ap, arith,
  ◌==◌, u32, ◌⊎◌, length, set, get_or, get_elem?-eq-get_or, Bool-cases, inl, inr,
}
use kanekfs.Cache.{Element, Cache, Callbacks}
use kanekfs.Cache.Evict.{
  flush_if_dirty, call_on_evict, cache_element_evict_by_idx, find_key, cache_element_evict,
}
use kanekfs.Cache.Invariant.{IsValid, used, one_if_some, used-le-length, used-set, set-IsValid}

-- A slot in use is counted.
pub used-pos :
    (elements : List (Option Element)) (i : ℕ) {el : Element}
    → i < length elements
    → get_or elements i none ≡ some el
    → 0 < used elements
used-pos elements i h e =
    let count : one_if_some (get_or elements i none) ≡ 1 = ap one_if_some e in
    omega (arith, used-set elements i none h, count)

module _ {W : Type 0} (cb : Callbacks W) (cache : Cache) (w : W) where
  -- The cache with the slot emptied.
  abbrev pub emptied : ℕ → Cache
  emptied i = record cache { elements = set cache.elements i none; in_use = cache.in_use - 1 }

  -- The element is flushed if it is dirty, then given to the callback for evictions, and its
  -- slot is emptied.
  pub evict_by_idx-emptied :
      (i : ℕ) (el : Element)
      → IsValid cache
      → i < length cache.elements
      → get_or cache.elements i none ≡ some el
      → (cache_element_evict_by_idx cb cache i w
          ≡ some
              (emptied i, call_on_evict cb (flush_if_dirty cb el w).0 (flush_if_dirty cb el w).1))
        × IsValid (emptied i)
  unfolding cache_element_evict_by_idx
  evict_by_idx-emptied i el v h e =
      let positive = used-pos cache.elements i h e in
      let dec : u32 (cache.in_use + 2 ^ 32 - 1) ≡ cache.in_use - 1 =
        omega (arith, v.counted, v.capacity, used-le-length cache.elements) in
      let count : one_if_some (get_or cache.elements i none) ≡ 1 = ap one_if_some e in
      (
        ground (arith, get_elem?-eq-get_or cache.elements i none h, dec),
        set-IsValid cache i (cache.in_use - 1) none v h tt (omega (arith, v.counted, count)),
      )

-- `find_key` gives the first slot whose element has the key, or no slot has one.
abbrev pub NoKey : List (Option Element) → ℕ → ℕ → Type 0
NoKey elements key n =
    (k : ℕ) (el : Element) → k < n → get_or elements k none ≡ some el → el.ce_id ≢ key

abbrev pub FirstKey : List (Option Element) → ℕ → ℕ → Option ℕ → Type 0
FirstKey elements key i result =
    (result ≡ none) × NoKey elements key (length elements)
    ⊎ ((k : ℕ) × (el : Element) × (result ≡ some (i + k))
        × (k < length elements)
        × (get_or elements k none ≡ some el)
        × (el.ce_id ≡ key)
        × NoKey elements key k)

-- One more slot in front, which does not have the key.
FirstKey-cons :
    (slot : Option Element) (elements : List (Option Element)) (key i : ℕ) (result : Option ℕ)
    → ((el : Element) → slot ≡ some el → el.ce_id ≢ key)
    → FirstKey elements key (i + 1) result
    → FirstKey (slot ∷ elements) key i result
FirstKey-cons slot elements key i result other (inl (e, absent)) = inl (e, absent')
  where
    absent' : NoKey (slot ∷ elements) key (suc (length elements))
    absent' zero el h p = other el p
    absent' (suc k) el h p = absent k el (omega arith) p
FirstKey-cons slot elements key i result other (inr (k, el, e, h, p, q, absent)) =
    inr (suc k, el, ground arith, omega arith, p, q, absent')
  where
    absent' : NoKey (slot ∷ elements) key (suc k)
    absent' zero el h p = other el p
    absent' (suc k) el h p = absent k el (omega arith) p

pub find_key-FirstKey :
    (elements : List (Option Element)) (key i : ℕ)
    → FirstKey elements key i (find_key elements key i)
unfolding find_key
find_key-FirstKey [] key i = inl (refl, λ k el h e. absurd (omega arith))
find_key-FirstKey (none ∷ rest) key i =
    FirstKey-cons none rest key i _ (λ el e. cc) (find_key-FirstKey rest key (i + 1))
find_key-FirstKey (some el ∷ rest) key i = elim (Bool-cases (el.ce_id == key)) [
  | inl same ↦
      inr (0, el, ground arith, omega arith, refl, ground arith, λ k el h e. absurd (omega arith))
  | inr other ↦ rw other (
      FirstKey-cons (some el) rest key i _ (λ x e. ground arith)
        (find_key-FirstKey rest key (i + 1)))
]

-- On a well-formed cache `cache_element_evict` finds the first element with the key; there it
-- flushes the element if it is dirty, calls the eviction callback and empties the slot. Without
-- such an element it changes nothing. The cache stays well formed.
pub cache_element_evict-FirstKey :
    {W : Type 0} (cb : Callbacks W) (cache : Cache) (key : ℕ) (w : W)
    → IsValid cache
    → NoKey cache.elements key (length cache.elements)
        × (cache_element_evict cb cache key w ≡ some (cache, w))
      ⊎ ((i : ℕ) × (el : Element) × (get_or cache.elements i none ≡ some el)
          × (el.ce_id ≡ key)
          × NoKey cache.elements key i
          × (cache_element_evict cb cache key w
              ≡ some (
                emptied cb cache w i,
                call_on_evict cb (flush_if_dirty cb el w).0 (flush_if_dirty cb el w).1,
              ))
          × IsValid (emptied cb cache w i))
unfolding cache_element_evict
cache_element_evict-FirstKey cb cache key w v = elim (find_key-FirstKey cache.elements key 0) [
  | inl (e, absent) ↦ inl (absent, ground (arith, e))
  | inr (i, el, e, h, p, q, absent) ↦
      let (returns, v') = evict_by_idx-emptied cb cache w i el v h p in
      inr (i, el, p, q, absent, ground (arith, e, returns), v')
]
