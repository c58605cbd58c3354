-- ===== src/Cache/Pass.antt =====
-- A pass of the cache thread, slot by slot.
use kanekfs.Base.{
  ℕ, zero, suc, ◌+◌, ◌^◌, ◌≤◌, ◌<◌, List, [], ◌∷◌, Option, none, some, ◌≡◌, refl, ap, arith, length,
  get_or, Bool, inl, inr, if◌then◌else◌, ◌==◌, Bool-cases,
}
use kanekfs.Bits.{bit_and-two_pow}
use kanekfs.Cache.{Element, Callbacks}
use kanekfs.Cache.Evict.{flush_if_dirty}
use kanekfs.Cache.Thread.{visit, traverse}
use kanekfs.Cache.Invariant.{
  IsElement, SlotOk, evicting, used, one_if_some, used-cons, on-digit, flush-IsElement,
}

-- The element after a flush; the world does not matter.
unfoldable pub flushed : Element → Element
unfolding flush_if_dirty
flushed el = (flush_if_dirty {W = Unit {0}} (record { on_evict = none; on_flush = none }) el tt).0

flush-flushed :
    {W : Type 0} (cb : Callbacks W) (el : Element) (w : W) → (flush_if_dirty cb el w).0 ≡ flushed el
unfolding flush_if_dirty flushed
flush-flushed cb el w = ground arith

flushed-IsElement : {el : Element} → IsElement el → IsElement (flushed el)
unfolding flushed
flushed-IsElement {el} h =
    flush-IsElement {W = Unit {0}} (record { on_evict = none; on_flush = none }) el tt h

module _ (busy : ℕ → Bool) where
  -- What a pass makes of the slot at place `i`.
  unfoldable pub after_pass : ℕ → Option Element → Option Element
  after_pass i none = none
  after_pass i (some el) =
      if busy i then some el else if evicting el == 1 then none else some (flushed el)

  pub after_pass-SlotOk : (i : ℕ) (slot : Option Element) → SlotOk slot → SlotOk (after_pass i slot)
  unfolding after_pass
  after_pass-SlotOk i none h = tt
  after_pass-SlotOk i (some el) h = elim (Bool-cases (busy i)) [
    | inl taken ↦ rw taken h
    | inr idle ↦ rw idle (elim (Bool-cases (evicting el == 1)) [
      | inl gone ↦ rw gone tt
      | inr stays ↦ rw stays (flushed-IsElement h)
    ])
  ]

  after_pass-le :
      (i : ℕ) (slot : Option Element) → one_if_some (after_pass i slot) ≤ one_if_some slot
  unfolding after_pass
  after_pass-le i none = omega arith
  after_pass-le i (some el) = ground arith

  slots-cons :
      (i : ℕ) (x y : Option Element) (xs ys : List (Option Element))
      → x ≡ after_pass i y
      → ((k : ℕ) → get_or xs k none ≡ after_pass (i + 1 + k) (get_or ys k none))
      → (k : ℕ) → get_or (x ∷ xs) k none ≡ after_pass (i + k) (get_or (y ∷ ys) k none)
  slots-cons i x y xs ys e f zero = let z : i + 0 ≡ i = omega arith in rw z e
  slots-cons i x y xs ys e f (suc k) = let z : i + suc k ≡ i + 1 + k = omega arith in rw z (f k)

  module _ {W : Type 0} (cb : Callbacks W) where
    visit-after_pass :
        (i : ℕ) (slot : Option Element) (in_use : ℕ) (w : W)
        → SlotOk slot
        → one_if_some slot ≤ in_use
        → in_use < 2 ^ 32
        → ((visit cb busy i slot in_use w).0 ≡ after_pass i slot)
          × ((visit cb busy i slot in_use w).1 + one_if_some slot
              ≡ in_use + one_if_some (after_pass i slot))
    unfolding visit after_pass
    visit-after_pass i none in_use w h p q = (refl, refl)
    visit-after_pass i (some el) in_use w h p q =
        ground (arith, bit_and-two_pow el.ce_flags 0, on-digit el.ce_flags 2, flush-flushed cb el w)

    -- The slots, the count and the length after the `for` loop.
    pub traverse-after_pass :
        (i : ℕ) (elements : List (Option Element)) (in_use : ℕ) (w : W)
        → ((k : ℕ) → SlotOk (get_or elements k none))
        → used elements ≤ in_use
        → in_use < 2 ^ 32
        → ((k : ℕ)
            → get_or (traverse cb busy i elements in_use w).0 k none
              ≡ after_pass (i + k) (get_or elements k none))
          × ((traverse cb busy i elements in_use w).1 + used elements
              ≡ in_use + used (traverse cb busy i elements in_use w).0)
          × (length (traverse cb busy i elements in_use w).0 ≡ length elements)
    unfolding traverse
    traverse-after_pass i [] in_use w ok p q = (λ k. unfold after_pass in refl, refl, refl)
    traverse-after_pass i (slot ∷ rest) in_use w ok p q =
        let one = used-cons slot rest in
        let (here, count) = visit-after_pass i slot in_use w (ok 0) (omega arith) q in
        let (slot', in_use', w') = visit cb busy i slot in_use w in
        let le : one_if_some (after_pass i slot) ≤ one_if_some slot = after_pass-le i slot in
        let (there, count', same) =
          traverse-after_pass (i + 1) rest in_use' w' (λ k. ok (suc k)) (omega arith)
            (omega arith) in
        (
          slots-cons i slot' slot (traverse cb busy (i + 1) rest in_use' w').0 rest here there,
          omega (
            arith,
            one,
            count,
            count',
            ap one_if_some here,
            used-cons slot' (traverse cb busy (i + 1) rest in_use' w').0,
          ),
          ap suc same,
        )
