-- ===== src/Tests/Nodes.antt =====
-- fs/gc.c and fs/list.h on a list of two nodes, and fs/krand64.c.
use kanekfs.Base.{ℕ, ◌+◌, List, [], ◌∷◌, some, ◌≡◌, ◌≢◌, refl, arith, true, ltb, u32, if◌then◌else◌}
use kanekfs.Gc.{
  Links, Heap, init_list_head, list_add, gc_malloc, gc_free, gc_list_total_mem, total_loop,
  gc_list_destroy, read_next,
}
use kanekfs.Gc.Ring.{IsRing}
use kanekfs.Gc.Insert.{init_list_head-IsRing, list_add-IsRing}
use kanekfs.Gc.Walk.{sum_sizes, gc_list_total_mem-sum}
use kanekfs.Gc.Destroy.{all_freed, gc_list_destroy-all_freed}
use kanekfs.Gc.Nodes.{IsHeap, gc_malloc-IsHeap, gc_free-IsHeap}

-- Zeroes everywhere.
abbrev zeroes : Links
zeroes = record { next = λ a. 0; prev = λ a. 0 }

abbrev both : List ℕ
both = 300 ∷ 200 ∷ []

-- The head at 100, and nodes at 300 and 200.
abbrev empty_list : Links
empty_list = init_list_head zeroes 100

abbrev two_links : Links
two_links = list_add (list_add empty_list 200 100) 300 100

apart : (a b : ℕ) → ltb a b ≡ true → b ≢ a
apart a b h e = ground arith

empty-IsRing : IsRing empty_list 100 []
empty-IsRing = init_list_head-IsRing zeroes 100

one-IsRing : IsRing (list_add empty_list 200 100) 100 (200 ∷ [])
one-IsRing = list_add-IsRing empty_list 200 100 [] (apart 100 200 refl) tt empty-IsRing

two-IsRing : IsRing two_links 100 (300 ∷ 200 ∷ [])
two-IsRing =
    list_add-IsRing (list_add empty_list 200 100) 300 100 (200 ∷ []) (apart 100 300 refl)
      (apart 200 300 refl, tt) one-IsRing

-- Two nodes of 10 and 20 bytes.
abbrev two_nodes : Heap
two_nodes = record {
  links = two_links;
  size = λ a. if ltb a 250 then 20 else 10;
  mark = λ a. 0;
  freed = [];
}

two_nodes-IsHeap : IsHeap two_nodes 100 (300 ∷ 200 ∷ [])
two_nodes-IsHeap = record { ring = two-IsRing; head_live = refl; nodes_live = (refl, (refl, tt)) }

thirty : gc_list_total_mem 3 two_nodes 100 ≡ some 30
unfolding gc_list_total_mem total_loop read_next list_add init_list_head
thirty = refl

gc_list_total_mem-sum_example :
    gc_list_total_mem 3 two_nodes 100 ≡ some (sum_sizes two_nodes.size (300 ∷ 200 ∷ []) 0)
gc_list_total_mem-sum_example =
    gc_list_total_mem-sum two_nodes 100 (300 ∷ 200 ∷ []) two-IsRing refl (refl, (refl, tt))

gc_list_destroy-all_freed_example :
    (h' : Heap) × (gc_list_destroy 3 two_nodes 100 ≡ some h')
    × IsRing h'.links 100 []
    × (h'.freed ≡ all_freed (300 ∷ 200 ∷ []) [])
gc_list_destroy-all_freed_example =
    gc_list_destroy-all_freed two_nodes 100 (300 ∷ 200 ∷ []) two-IsRing refl (refl, (refl, tt))

gc_malloc-IsHeap_example :
    (h' : Heap) × (gc_malloc two_nodes 100 5 (some 400) ≡ (h', some (400 + 72)))
    × IsHeap h' 100 (400 ∷ 300 ∷ 200 ∷ [])
    × (h'.size 400 ≡ u32 5)
    × (h'.mark 400 ≡ 0)
gc_malloc-IsHeap_example =
    gc_malloc-IsHeap two_nodes 100 5 400 (300 ∷ 200 ∷ []) (apart 100 400 refl)
      (apart 300 400 refl, (apart 200 400 refl, tt)) two_nodes-IsHeap

gc_free-IsHeap_example :
    IsHeap (gc_free two_nodes (200 + 72)) 100 (300 ∷ [])
    × ((gc_free two_nodes (200 + 72)).freed ≡ 200 ∷ [])
gc_free-IsHeap_example = gc_free-IsHeap two_nodes 100 200 (300 ∷ []) [] two_nodes-IsHeap
