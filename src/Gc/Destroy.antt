-- ===== src/Gc/Destroy.antt =====
-- `gc_list_destroy` of fs/gc.c.
use kanekfs.Base.{
  ℕ, zero, suc, ◌<◌, List, [], ◌∷◌, some, false, ◌==◌, ◌≡◌, refl, sym, arith, length,
}
use kanekfs.Gc.{Links, Heap, init_list_head, member, destroy_loop, gc_list_destroy}
use kanekfs.Gc.Ring.{Seg, NotIn, Distinct, IsRing}
use kanekfs.Gc.Insert.{init_list_head-IsRing}
use kanekfs.Gc.Walk.{Live, first_of, Seg-next, first_of-Live, read_next-live, not_equal}

-- The entries in front of `freed`, the last one first.
unfoldable pub all_freed : List ℕ → List ℕ → List ℕ
all_freed [] freed = freed
all_freed (x ∷ xs) freed = all_freed xs (x ∷ freed)

pub Live-cons :
    (freed : List ℕ) (x : ℕ) (xs : List ℕ) → NotIn x xs → Live freed xs → Live (x ∷ freed) xs
Live-cons freed x [] n h = tt
Live-cons freed x (y ∷ ys) n h =
    (rw (not_equal y x (λ e. n.0 (sym e))) h.0, Live-cons freed x ys n.1 h.1)

destroy_loop-all_freed :
    (rounds : ℕ) (l : Links) (freed : List ℕ) (head a : ℕ) (xs : List ℕ)
    → length xs < rounds
    → Seg l a xs head
    → NotIn head xs
    → Distinct xs
    → member head freed ≡ false
    → Live freed xs
    → destroy_loop rounds l freed head (first_of xs head) (l.next (first_of xs head))
      ≡ some (all_freed xs freed)
unfolding destroy_loop first_of all_freed
destroy_loop-all_freed zero l freed head a xs m seg out d live_head live = absurd (omega arith)
destroy_loop-all_freed (suc rounds) l freed head a [] m seg out d live_head live = ground arith
destroy_loop-all_freed (suc rounds) l freed head a (x ∷ xs) m (s, t, u) out d live_head live =
    let go_on : (x == head) ≡ false = not_equal x head (λ e. out.0 (sym e)) in
    let ahead = Seg-next l x xs head u in
    let live' = Live-cons freed x xs d.0 live.1 in
    let live_head' : member head (x ∷ freed) ≡ false = rw (not_equal head x out.0) live_head in
    let alive = first_of-Live (x ∷ freed) xs head live_head' live' in
    rw (go_on, ahead, read_next-live l (x ∷ freed) (first_of xs head) alive)
      (destroy_loop-all_freed rounds l (x ∷ freed) head x xs (omega arith) u out.1 d.1 live_head'
        live')

-- On a list none of whose nodes was freed, `gc_list_destroy` frees each node once, reads no node
-- after it is freed, and leaves an empty list, after as many rounds as the list has nodes and one
-- more.
pub gc_list_destroy-all_freed :
    (h : Heap) (ll : ℕ) (xs : List ℕ)
    → IsRing h.links ll xs
    → member ll h.freed ≡ false
    → Live h.freed xs
    → (h' : Heap) × (gc_list_destroy (suc (length xs)) h ll ≡ some h')
      × IsRing h'.links ll []
      × (h'.freed ≡ all_freed xs h.freed)
unfolding gc_list_destroy
gc_list_destroy-all_freed h ll xs ring live_head live =
    let ahead = Seg-next h.links ll xs ll ring.seg in
    let alive = first_of-Live h.freed xs ll live_head live in
    let done =
      destroy_loop-all_freed (suc (length xs)) h.links h.freed ll ll xs (omega arith) ring.seg
        ring.outside ring.distinct live_head live in
    (
      record h { links = init_list_head h.links ll; freed = all_freed xs h.freed },
      rw
          (
            read_next-live h.links h.freed ll live_head,
            ahead,
            read_next-live h.links h.freed (first_of xs ll) alive,
            done,
          )
          refl,
      init_list_head-IsRing h.links ll,
      refl,
    )
