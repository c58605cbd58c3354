-- ===== src/Gc/Tail.antt =====
-- `list_add_tail` of fs/list.h.
use mathlib.Core.Path.{subst}
use kanekfs.Base.{ℕ, List, [], ◌∷◌, ◌++◌, ◌≡◌, ◌≢◌, refl, sym, ap, ◌∙◌}
use kanekfs.Gc.{Links, put, list_add_tail}
use kanekfs.Gc.Ring.{Seg, NotIn, Distinct, IsRing, put_same, put_other}
use kanekfs.Gc.Remove.{before_e}

abbrev with_next : Links → ℕ → ℕ → Links
with_next l new head = record {
  next = put (put l.next new head) (l.prev head) new;
  prev = put (put l.prev new (l.prev head)) head new;
}

list_add_tail-writes :
    (l : Links) (new head : ℕ) → head ≢ new → list_add_tail l new head ≡ with_next l new head
unfolding list_add_tail
list_add_tail-writes l new head h = rw (put_other l.prev new (l.prev head) head h) refl

with_next-Seg :
    (l : Links) (new head a : ℕ) (xs : List ℕ)
    → a ≢ new
    → NotIn new xs
    → new ≢ head
    → NotIn a xs
    → NotIn head xs
    → Distinct xs
    → Seg l a xs head
    → Seg (with_next l new head) a (xs ++ (new ∷ [])) head
with_next-Seg l new head a [] an p q r o d (s, t) = (
  ap (put (put l.next new head) (l.prev head) new) (sym t)
      ∙ put_same (put l.next new head) (l.prev head) new,
  put_other (put l.prev new (l.prev head)) head new new q ∙ put_same l.prev new (l.prev head) ∙ t,
  (
    put_other (put l.next new head) (l.prev head) new new (λ e. an (sym (e ∙ t)))
        ∙ put_same l.next new head,
    put_same (put l.prev new (l.prev head)) head new,
  ),
)
with_next-Seg l new head a (x ∷ xs) an p q r o d (s, t, u) = (
  put_other (put l.next new head) (l.prev head) new a (before_e l a x xs head r.0 r.1 u)
      ∙ put_other l.next new head a an
      ∙ s,
  put_other (put l.prev new (l.prev head)) head new x (λ e. o.0 (sym e))
      ∙ put_other l.prev new (l.prev head) x (λ e. p.0 (sym e))
      ∙ t,
  with_next-Seg l new head x xs (λ e. p.0 (sym e)) p.1 q d.0 o.1 d.1 u,
)

NotIn-append : (a b : ℕ) (xs : List ℕ) → a ≢ b → NotIn a xs → NotIn a (xs ++ (b ∷ []))
NotIn-append a b [] n h = (n, tt)
NotIn-append a b (x ∷ xs) n h = (h.0, NotIn-append a b xs n h.1)

Distinct-append : (b : ℕ) (xs : List ℕ) → NotIn b xs → Distinct xs → Distinct (xs ++ (b ∷ []))
Distinct-append b [] n h = (tt, tt)
Distinct-append b (x ∷ xs) n h =
    (NotIn-append x b xs (λ e. n.0 (sym e)) h.0, Distinct-append b xs n.1 h.1)

-- `list_add_tail` of an entry that is neither the head nor in the list puts it at the end.
pub list_add_tail-IsRing :
    (l : Links) (new head : ℕ) (xs : List ℕ)
    → new ≢ head
    → NotIn new xs
    → IsRing l head xs
    → IsRing (list_add_tail l new head) head (xs ++ (new ∷ []))
list_add_tail-IsRing l new head xs q p ring =
    let other : head ≢ new = λ e. q (sym e) in
    record {
      seg =
          subst (λ m. Seg m head (xs ++ (new ∷ [])) head)
            (sym (list_add_tail-writes l new head other))
            (with_next-Seg l new head head xs other p q ring.outside ring.outside ring.distinct
              ring.seg);
      outside = NotIn-append head new xs other ring.outside;
      distinct = Distinct-append new xs p ring.distinct;
    }
