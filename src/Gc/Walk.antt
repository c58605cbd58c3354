-- ===== src/Gc/Walk.antt =====
-- The walks of fs/gc.c over a list: `gc_list_total_mem` and `gc_list_destroy`.
use kanekfs.Base.{
  ℕ, zero, suc, ◌+◌, ◌<◌, List, [], ◌∷◌, some, true, false, ◌==◌, ◌≡◌, ◌≢◌, ◌↔◌, refl, sym, arith,
  length, u64,
}
use kanekfs.Gc.{Links, Heap, list_empty, member, read_next, total_loop, gc_list_total_mem}
use kanekfs.Gc.Ring.{Seg, NotIn, IsRing}

-- None of the entries was freed.
abbrev pub Live : List ℕ → List ℕ → Type 0
Live freed [] = Unit {0}
Live freed (x ∷ xs) = (member x freed ≡ false) × Live freed xs

-- The sum of the sizes, in a `size_t`.
unfoldable pub sum_sizes : (ℕ → ℕ) → List ℕ → ℕ → ℕ
sum_sizes size [] total = total
sum_sizes size (x ∷ xs) total = sum_sizes size xs (u64 (total + size x))

-- The entry after a walk of no step or more.
unfoldable pub first_of : List ℕ → ℕ → ℕ
first_of [] b = b
first_of (x ∷ xs) b = x

pub Seg-next : (l : Links) (a : ℕ) (xs : List ℕ) (b : ℕ) → Seg l a xs b → l.next a ≡ first_of xs b
unfolding first_of
Seg-next l a [] b (s, t) = s
Seg-next l a (x ∷ xs) b (s, t, u) = s

pub first_of-Live :
    (freed xs : List ℕ) (b : ℕ)
    → member b freed ≡ false
    → Live freed xs
    → member (first_of xs b) freed ≡ false
unfolding first_of
first_of-Live freed [] b h k = h
first_of-Live freed (x ∷ xs) b h k = k.0

pub read_next-live :
    (l : Links) (freed : List ℕ) (a : ℕ)
    → member a freed ≡ false
    → read_next l freed a ≡ some (l.next a)
unfolding read_next
read_next-live l freed a h = rw h refl

pub not_equal : (a b : ℕ) → a ≢ b → (a == b) ≡ false
not_equal a b h = ground arith

-- `list_for_each_safe` is one entry ahead.
total_loop-sum :
    (rounds : ℕ) (h : Heap) (head a : ℕ) (xs : List ℕ) (total : ℕ)
    → length xs < rounds
    → Seg h.links a xs head
    → NotIn head xs
    → member head h.freed ≡ false
    → Live h.freed xs
    → total_loop rounds h head (first_of xs head) (h.links.next (first_of xs head)) total
      ≡ some (sum_sizes h.size xs total)
unfolding total_loop first_of sum_sizes
total_loop-sum zero h head a xs total l seg out live_head live = absurd (omega arith)
total_loop-sum (suc rounds) h head a [] total l seg out live_head live = ground arith
total_loop-sum (suc rounds) h head a (x ∷ xs) total l (s, t, u) out live_head live =
    let go_on : (x == head) ≡ false = not_equal x head (λ e. out.0 (sym e)) in
    let ahead = Seg-next h.links x xs head u in
    let alive = first_of-Live h.freed xs head live_head live.1 in
    rw (go_on, ahead, read_next-live h.links h.freed (first_of xs head) alive)
      (total_loop-sum rounds h head x xs (u64 (total + h.size x)) (omega arith) u out.1 live_head
        live.1)

-- On a list none of whose nodes was freed, `gc_list_total_mem` returns the sum of the sizes of its
-- nodes, in a `size_t`, after as many rounds as the list has nodes and one more.
pub gc_list_total_mem-sum :
    (h : Heap) (ll : ℕ) (xs : List ℕ)
    → IsRing h.links ll xs
    → member ll h.freed ≡ false
    → Live h.freed xs
    → gc_list_total_mem (suc (length xs)) h ll ≡ some (sum_sizes h.size xs 0)
unfolding gc_list_total_mem
gc_list_total_mem-sum h ll xs ring live_head live =
    let ahead = Seg-next h.links ll xs ll ring.seg in
    let alive = first_of-Live h.freed xs ll live_head live in
    rw
      (
        read_next-live h.links h.freed ll live_head,
        ahead,
        read_next-live h.links h.freed (first_of xs ll) alive,
      )
      (total_loop-sum (suc (length xs)) h ll ll xs 0 (omega arith) ring.seg ring.outside live_head
        live)

not_empty : (x head : ℕ) (xs : List ℕ) → x ∷ xs ≢ []
not_empty x head xs h = ground arith

-- `list_empty` holds of the head of a list exactly when the list has no nodes.
pub list_empty_iff :
    (l : Links) (head : ℕ) (xs : List ℕ) → IsRing l head xs → (list_empty l head ≡ true) ↔ (xs ≡ [])
unfolding list_empty
list_empty_iff l head [] ring = (λ h. refl, λ h. ground (arith, ring.seg.0))
list_empty_iff l head (x ∷ xs) ring =
    (λ h. absurd (ring.outside.0 (ground (arith, ring.seg.0))), λ h. absurd (not_empty x head xs h))
