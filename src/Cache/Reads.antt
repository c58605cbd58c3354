-- ===== src/Cache/Reads.antt =====
-- `cache_lookup`, and the two calls that wait for flags.
use kanekfs.Base.{
  ℕ, zero, suc, ◌+◌, ◌<◌, ℤ, pos, List, [], ◌∷◌, Option, none, some, ◌≡◌, refl, ap, arith, ◌⊎◌,
  true, false, length, set, get_or, get_elem?, Bool-cases, inl, inr, if◌then◌else◌,
}
use kanekfs.Cache.{Element, Cache}
use kanekfs.Cache.Marks.{add_count}
use kanekfs.Cache.Evict.{find_key}
use kanekfs.Cache.Eviction.{NoKey, find_key-FirstKey}
use kanekfs.Cache.Lookup.{lookup_loop, cache_lookup}
use kanekfs.Cache.Waiting.{
  Wake, awaited, cache_wait_for_flags, element_wait_loop, cache_element_wait_for_flags,
}

-- `cache_lookup` and `cache_element_evict` look for the same slot.
lookup_loop-find_key :
    (elements : List (Option Element)) (key i : ℕ)
    → (lookup_loop elements key i).1 ≡ find_key elements key i
unfolding lookup_loop find_key
lookup_loop-find_key [] key i = refl
lookup_loop-find_key (none ∷ rest) key i = lookup_loop-find_key rest key (i + 1)
lookup_loop-find_key (some el ∷ rest) key i = ground (arith, lookup_loop-find_key rest key (i + 1))

lookup_loop-hit :
    (elements : List (Option Element)) (key i k : ℕ) (el : Element)
    → get_or elements k none ≡ some el
    → el.ce_id ≡ key
    → NoKey elements key k
    → (lookup_loop elements key i).0 ≡ set elements k (some (add_count el))
unfolding lookup_loop
lookup_loop-hit [] key i k el e p absent = cc
lookup_loop-hit (none ∷ rest) key i zero el e p absent = cc
lookup_loop-hit (none ∷ rest) key i (suc k) el e p absent =
    ap (◌∷◌ none)
      (lookup_loop-hit rest key (i + 1) k el e p (λ j x h. absent (suc j) x (omega arith)))
lookup_loop-hit (some x ∷ rest) key i zero el e p absent = ground arith
lookup_loop-hit (some x ∷ rest) key i (suc k) el e p absent = ground (
  arith,
  absent 0 x,
  lookup_loop-hit rest key (i + 1) k el e p (λ j y h. absent (suc j) y (omega arith)),
)

lookup_loop-miss :
    (elements : List (Option Element)) (key i : ℕ)
    → NoKey elements key (length elements)
    → (lookup_loop elements key i).0 ≡ elements
unfolding lookup_loop
lookup_loop-miss [] key i absent = refl
lookup_loop-miss (none ∷ rest) key i absent =
    ap (◌∷◌ none) (lookup_loop-miss rest key (i + 1) (λ j x h. absent (suc j) x (omega arith)))
lookup_loop-miss (some x ∷ rest) key i absent =
    ground (
      arith,
      absent 0 x,
      lookup_loop-miss rest key (i + 1) (λ j y h. absent (suc j) y (omega arith)),
    )

-- `cache_lookup` returns the first element with the key, after it has raised the access count of
-- that element and of no other; or NULL when no element has the key, and then nothing changes.
pub cache_lookup-FirstKey :
    (cache : Cache) (key : ℕ)
    → (cache_lookup cache key ≡ (cache, none)) × NoKey cache.elements key (length cache.elements)
      ⊎ ((i : ℕ) × (el : Element) × (cache_lookup cache key
            ≡ (record cache { elements = set cache.elements i (some (add_count el)) }, some i))
          × (get_or cache.elements i none ≡ some el)
          × (el.ce_id ≡ key)
          × NoKey cache.elements key i)
unfolding cache_lookup
cache_lookup-FirstKey cache key =
    let same = lookup_loop-find_key cache.elements key 0 in
    elim (find_key-FirstKey cache.elements key 0) [
      | inl (e, absent) ↦
          inl (ground (arith, same, e, lookup_loop-miss cache.elements key 0 absent), absent)
      | inr (i, el, e, h, p, q, absent) ↦ inr (
        i,
        el,
        ground (arith, same, e, lookup_loop-hit cache.elements key 0 i el p q absent),
        p,
        q,
        absent,
      )
    ]

-- A wake-up that ends no wait for the flags.
abbrev pub IsQuiet : ℕ → Wake → Type 0
IsQuiet flags w = (w.timed_out ≡ false) × (awaited flags w.flags ≡ false)

-- The wake-up that decides a wait, after quiet ones only.
pub record Decided (flags : ℕ) (wakes : List Wake) (ends : Wake → Type 0) : Type 0 where
  pub place : ℕ
  pub wake : Wake
  pub there : get_elem? wakes place ≡ some wake
  pub decides : ends wake
  pub quiet_before : (k : ℕ) (w : Wake) → k < place → get_elem? wakes k ≡ some w → IsQuiet flags w

Decided-now :
    {flags : ℕ} {ends : Wake → Type 0} (w : Wake) (later : List Wake)
    → ends w
    → Decided flags (w ∷ later) ends
Decided-now w later h = record {
  place = 0;
  wake = w;
  there = refl;
  decides = h;
  quiet_before = λ k x p. absurd (omega arith);
}

Decided-later :
    {flags : ℕ} {ends : Wake → Type 0} (w : Wake) (later : List Wake)
    → IsQuiet flags w
    → Decided flags later ends
    → Decided flags (w ∷ later) ends
Decided-later {flags} w later q d = record {
  place = suc d.place;
  wake = d.wake;
  there = d.there;
  decides = d.decides;
  quiet_before = before;
}
  where
    before :
        (k : ℕ) (x : Wake) → k < suc d.place → get_elem? (w ∷ later) k ≡ some x → IsQuiet flags x
    before zero x p e = let same : w ≡ x = cc in rw same at q
    before (suc k) x p e = d.quiet_before k x (omega arith) e

-- `cache_wait_for_flags` returns 0 only on a wake-up in time at which the flags are as awaited,
-- and 1 only on a time-out; every wake-up before was in time, with other flags.
pub cache_wait_for_flags-Decided :
    (flags : ℕ) (wakes : List Wake) (rc : ℤ)
    → cache_wait_for_flags flags wakes ≡ some rc
    → (rc ≡ pos 0)
        × Decided flags wakes (λ w. (w.timed_out ≡ false) × (awaited flags w.flags ≡ true))
      ⊎ (rc ≡ pos 1) × Decided flags wakes (λ w. w.timed_out ≡ true)
unfolding cache_wait_for_flags
cache_wait_for_flags-Decided flags [] rc e = cc
cache_wait_for_flags-Decided flags (w ∷ later) rc e = elim (Bool-cases w.timed_out) [
  | inl over ↦ inr (ground arith, Decided-now w later over)
  | inr in_time ↦ elim (Bool-cases (awaited flags w.flags)) [
    | inl seen ↦ inl (ground arith, Decided-now w later (in_time, seen))
    | inr other ↦ elim (cache_wait_for_flags-Decided flags later rc (ground arith)) [
      | inl (z, d) ↦ inl (z, Decided-later w later (in_time, other) d)
      | inr (z, d) ↦ inr (z, Decided-later w later (in_time, other) d)
    ]
  ]
]

-- `cache_element_wait_for_flags` never waits for the flags: its first wake-up ends it, with 1 on a
-- time-out and otherwise with 0, whatever the flags of the element are.
pub cache_element_wait_for_flags-blind :
    (flags : ℕ) (w : Wake) (later : List Wake)
    → cache_element_wait_for_flags flags (w ∷ later) ≡ some (pos (if w.timed_out then 1 else 0))
unfolding cache_element_wait_for_flags element_wait_loop
cache_element_wait_for_flags-blind flags w later = ground arith
