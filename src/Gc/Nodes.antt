-- ===== src/Gc/Nodes.antt =====
-- `gc_malloc` and `gc_free` of fs/gc.c.
use kanekfs.Base.{ℕ, ◌+◌, ◌-◌, List, [], ◌∷◌, ◌++◌, some, false, ◌≡◌, ◌≢◌, refl, arith, u32}
use kanekfs.Gc.{Heap, put, member, without, list_add, gc_malloc, gc_free}
use kanekfs.Gc.Ring.{NotIn, IsRing, put_same}
use kanekfs.Gc.Insert.{list_add-IsRing}
use kanekfs.Gc.Remove.{list_del-IsRing, NotIn-split, Distinct-split}
use kanekfs.Gc.Walk.{Live, not_equal}
use kanekfs.Gc.Destroy.{Live-cons}

-- The collector's list holds these nodes, and neither they nor its head were freed.
pub record IsHeap (h : Heap) (ll : ℕ) (nodes : List ℕ) : Type 0 where
  pub ring : IsRing h.links ll nodes
  pub head_live : member ll h.freed ≡ false
  pub nodes_live : Live h.freed nodes

member-without :
    (a x : ℕ) (freed : List ℕ) → member x freed ≡ false → member x (without a freed) ≡ false
unfolding without
member-without a x [] h = refl
member-without a x (y ∷ ys) h = ground (arith, member-without a x ys)

without_self : (a : ℕ) (freed : List ℕ) → member a (without a freed) ≡ false
unfolding without
without_self a [] = refl
without_self a (y ∷ ys) = ground (arith, without_self a ys)

Live-without : (a : ℕ) (freed xs : List ℕ) → Live freed xs → Live (without a freed) xs
Live-without a freed [] h = tt
Live-without a freed (x ∷ xs) h = (member-without a x freed h.0, Live-without a freed xs h.1)

Live-split :
    (freed xs : List ℕ) (e : ℕ) (ys : List ℕ) → Live freed (xs ++ (e ∷ ys)) → Live freed (xs ++ ys)
Live-split freed [] e ys h = h.1
Live-split freed (x ∷ xs) e ys h = (h.0, Live-split freed xs e ys h.1)

-- On a list of nodes that were not freed, where `malloc` gives a node that is neither the head nor
-- on the list, `gc_malloc` puts it at the front of the list, with its size and no mark, and returns
-- the address of its data.
pub gc_malloc-IsHeap :
    (h : Heap) (ll size node : ℕ) (nodes : List ℕ)
    → node ≢ ll
    → NotIn node nodes
    → IsHeap h ll nodes
    → (h' : Heap) × (gc_malloc h ll size (some node) ≡ (h', some (node + 72)))
      × IsHeap h' ll (node ∷ nodes)
      × (h'.size node ≡ u32 size)
      × (h'.mark node ≡ 0)
unfolding gc_malloc
gc_malloc-IsHeap h ll size node nodes q p heap = (
  record {
    links = list_add h.links node ll;
    size = put h.size node (u32 size);
    mark = put h.mark node 0;
    freed = without node h.freed;
  },
  refl,
  record {
    ring = list_add-IsRing h.links node ll nodes q p heap.ring;
    head_live = member-without node ll h.freed heap.head_live;
    nodes_live = (without_self node h.freed, Live-without node h.freed nodes heap.nodes_live);
  },
  put_same h.size node (u32 size),
  put_same h.mark node 0,
)

-- On a list of nodes that were not freed, `gc_free` of the data of one of them frees that node and
-- takes it off the list; the other nodes keep their order, and were not freed.
pub gc_free-IsHeap :
    (h : Heap) (ll node : ℕ) (xs ys : List ℕ)
    → IsHeap h ll (xs ++ (node ∷ ys))
    → IsHeap (gc_free h (node + 72)) ll (xs ++ ys)
      × ((gc_free h (node + 72)).freed ≡ node ∷ h.freed)
unfolding gc_free
gc_free-IsHeap h ll node xs ys heap =
    let at : node + 72 - 72 ≡ node = omega arith in
    let apart = NotIn-split ll xs node ys heap.ring.outside in
    let single = Distinct-split xs node ys heap.ring.distinct in
    rw at (
      record {
        ring = list_del-IsRing h.links ll xs node ys heap.ring;
        head_live = rw (not_equal ll node apart.0) heap.head_live;
        nodes_live =
            Live-cons h.freed node (xs ++ ys) single.0
              (Live-split h.freed xs node ys heap.nodes_live);
      },
      refl,
    )
