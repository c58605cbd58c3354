-- ===== src/Gc.antt =====
-- The lists of fs/list.h and the garbage collector of fs/gc.c. A pointer is its address. The heads
-- and the nodes of lists are two fields that an address leads to; a `gc_node_t` begins with them,
-- so a node and its list entry have the same address. The caller's data starts 72 bytes after it.
pub mod Ring
pub mod Insert
pub mod Remove
pub mod Tail
pub mod Walk
pub mod Destroy
pub mod Nodes
use kanekfs.Base.{
  ℕ, zero, suc, ◌+◌, ◌-◌, ◌%◌, ◌^◌, List, [], ◌∷◌, Option, none, some, Bool, false, true, ◌==◌,
  ◌||◌, u32, u64, if◌then◌else◌,
}
use kanekfs.Map.Bitmap.{◌>>=◌}

-- `struct list_entry`, at every address.
pub record Links : Type 0 where
  pub next : ℕ → ℕ
  pub prev : ℕ → ℕ

-- A write of one field at one address.
abbrev pub put : (ℕ → ℕ) → ℕ → ℕ → ℕ → ℕ
put f a v x = if x == a then v else f x

abbrev pub set_next : Links → ℕ → ℕ → Links
set_next l a v = record l { next = put l.next a v }

abbrev pub set_prev : Links → ℕ → ℕ → Links
set_prev l a v = record l { prev = put l.prev a v }

-- `INIT_LIST_HEAD`
unfoldable pub init_list_head : Links → ℕ → Links
init_list_head l ptr = set_prev (set_next l ptr ptr) ptr ptr

unfoldable pub list_empty : Links → ℕ → Bool
list_empty l list = l.next list == list

unfoldable pub list_add : Links → ℕ → ℕ → Links
list_add l new_entry head =
    let l1 = set_next l new_entry (l.next head) in
    let l2 = set_prev l1 new_entry head in
    let l3 = set_prev l2 (l2.next head) new_entry in set_next l3 head new_entry

unfoldable pub list_add_tail : Links → ℕ → ℕ → Links
list_add_tail l new_entry head =
    let l1 = set_next l new_entry head in
    let l2 = set_prev l1 new_entry (l1.prev head) in
    let l3 = set_next l2 (l2.prev head) new_entry in set_prev l3 head new_entry

unfoldable pub list_del : Links → ℕ → Links
list_del l entry =
    let l1 = set_prev l (l.next entry) (l.prev entry) in set_next l1 (l1.prev entry) (l1.next entry)

-- The nodes of the collector: the links, `size` and `mark` at every address, and what was freed.
pub record Heap : Type 0 where
  pub links : Links
  pub size : ℕ → ℕ
  pub mark : ℕ → ℕ
  pub freed : List ℕ

-- `offsetof( gc_node_t, data)`
abbrev pub data_offset : ℕ
data_offset = 72

unfoldable pub gc_list_init : Heap → ℕ → Heap
gc_list_init h ll = record h { links = init_list_head h.links ll }

abbrev pub member : ℕ → List ℕ → Bool
member a [] = false
member a (x ∷ xs) = a == x || member a xs

-- The addresses other than `a`.
unfoldable pub without : ℕ → List ℕ → List ℕ
without a [] = []
without a (x ∷ xs) = let rest = without a xs in if a == x then rest else x ∷ rest

-- `malloc` gives the address of the node, or NULL, and then so does the call. It may give an
-- address that was freed.
unfoldable pub gc_malloc : Heap → ℕ → ℕ → Option ℕ → Heap × Option ℕ
gc_malloc h ll size none = (h, none)
gc_malloc h ll size (some node) = (
  record h {
    links = list_add h.links node ll;
    size = put h.size node (u32 size);
    mark = put h.mark node 0;
    freed = without node h.freed;
  },
  some (node + data_offset),
)

unfoldable pub gc_free : Heap → ℕ → Heap
gc_free h p =
    let node = p - data_offset in record h { links = list_del h.links node; freed = node ∷ h.freed }

unfoldable pub gc_mark : Heap → ℕ → Heap
gc_mark h ptr = record h { mark = put h.mark (ptr - data_offset) 1 }

-- `a->next`; a fault when `a` was freed.
unfoldable pub read_next : Links → List ℕ → ℕ → Option ℕ
read_next l freed a = if member a freed then none else some (l.next a)

-- `list_for_each_safe` with the body of `gc_list_total_mem`, with rounds to spare.
unfoldable pub total_loop : ℕ → Heap → ℕ → ℕ → ℕ → ℕ → Option ℕ
total_loop zero h head i tmp size = none
total_loop (suc rounds) h head i tmp size = if i == head then some size else do
  tmp' ← read_next h.links h.freed tmp
  total_loop rounds h head tmp tmp' (u64 (size + h.size i))

unfoldable pub gc_list_total_mem : ℕ → Heap → ℕ → Option ℕ
gc_list_total_mem rounds h ll = do
  i ← read_next h.links h.freed ll
  tmp ← read_next h.links h.freed i
  total_loop rounds h ll i tmp 0

-- The same with the body of `gc_list_destroy`: what is freed.
unfoldable pub destroy_loop : ℕ → Links → List ℕ → ℕ → ℕ → ℕ → Option (List ℕ)
destroy_loop zero l freed head i tmp = none
destroy_loop (suc rounds) l freed head i tmp =
    if i == head
    then some freed
    else do tmp' ← read_next l (i ∷ freed) tmp; destroy_loop rounds l (i ∷ freed) head tmp tmp'

unfoldable pub gc_list_destroy : ℕ → Heap → ℕ → Option Heap
gc_list_destroy rounds h ll = do
  i ← read_next h.links h.freed ll
  tmp ← read_next h.links h.freed i
  freed' ← destroy_loop rounds h.links h.freed ll i tmp
  some (record h { links = init_list_head h.links ll; freed = freed' })
