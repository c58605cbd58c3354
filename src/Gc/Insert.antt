-- ===== src/Gc/Insert.antt =====
-- `list_add` and `INIT_LIST_HEAD` of fs/list.h.
use mathlib.Core.Path.{subst}
use kanekfs.Base.{ℕ, List, [], ◌∷◌, ◌≡◌, ◌≢◌, refl, sym, ap, ◌∙◌}
use kanekfs.Gc.{Links, put, init_list_head, list_add}
use kanekfs.Gc.Ring.{Seg, NotIn, Distinct, IsRing, put_same, put_other, Seg-frame}

pub init_list_head-IsRing : (l : Links) (head : ℕ) → IsRing (init_list_head l head) head []
unfolding init_list_head
init_list_head-IsRing l head = record {
  seg = (put_same l.next head head, put_same l.prev head head);
  outside = tt;
  distinct = tt;
}

-- The four writes of `list_add`, in two steps.
abbrev first_writes : Links → ℕ → ℕ → Links
first_writes l new head = record { next = put l.next new (l.next head); prev = put l.prev new head }

abbrev all_writes : Links → ℕ → ℕ → Links
all_writes l new head = record {
  next = put (first_writes l new head).next head new;
  prev = put (first_writes l new head).prev (l.next head) new;
}

list_add-writes :
    (l : Links) (new head : ℕ) → head ≢ new → list_add l new head ≡ all_writes l new head
unfolding list_add
list_add-writes l new head h = rw (put_other l.next new (l.next head) head h) refl

all_writes-Seg :
    (l : Links) (new head : ℕ) (xs : List ℕ)
    → NotIn new xs
    → new ≢ head
    → NotIn head xs
    → Distinct xs
    → Seg l head xs head
    → Seg (all_writes l new head) head (new ∷ xs) head
all_writes-Seg l new head [] p q r d (s, t) = (
  put_same (first_writes l new head).next head new,
  put_other (first_writes l new head).prev (l.next head) new new (λ e. q (e ∙ s))
      ∙ put_same l.prev new head,
  (
    put_other (first_writes l new head).next head new new q ∙ put_same l.next new (l.next head) ∙ s,
    ap (put (first_writes l new head).prev (l.next head) new) (sym s)
        ∙ put_same (first_writes l new head).prev (l.next head) new,
  ),
)
all_writes-Seg l new head (x ∷ xs) p q r d (s, t, u) = (
  put_same (first_writes l new head).next head new,
  put_other (first_writes l new head).prev (l.next head) new new (λ e. p.0 (e ∙ s))
      ∙ put_same l.prev new head,
  (
    put_other (first_writes l new head).next head new new q ∙ put_same l.next new (l.next head) ∙ s,
    ap (put (first_writes l new head).prev (l.next head) new) (sym s)
        ∙ put_same (first_writes l new head).prev (l.next head) new,
    Seg-frame (first_writes l new head) (all_writes l new head) x xs head head x
        (λ y h. put_other (first_writes l new head).next head new y h)
        (λ y h. put_other (first_writes l new head).prev (l.next head) new y (λ e. h (e ∙ s))) r.0
        r.1 d.0 (λ e. r.0 (sym e))
        (Seg-frame l (first_writes l new head) x xs head new new
          (λ y h. put_other l.next new (l.next head) y h) (λ y h. put_other l.prev new head y h) p.0
          p.1 p.1 q u),
  ),
)

-- `list_add` of an entry that is neither the head nor in the list puts it at the front.
pub list_add-IsRing :
    (l : Links) (new head : ℕ) (xs : List ℕ)
    → new ≢ head
    → NotIn new xs
    → IsRing l head xs
    → IsRing (list_add l new head) head (new ∷ xs)
list_add-IsRing l new head xs q p ring = record {
  seg =
      subst (λ m. Seg m head (new ∷ xs) head) (sym (list_add-writes l new head (λ e. q (sym e))))
        (all_writes-Seg l new head xs p q ring.outside ring.distinct ring.seg);
  outside = (λ e. q (sym e), ring.outside);
  distinct = (p, ring.distinct);
}
