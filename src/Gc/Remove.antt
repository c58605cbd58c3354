-- ===== src/Gc/Remove.antt =====
-- `list_del` of fs/list.h.
use mathlib.Core.Path.{subst}
use kanekfs.Base.{ℕ, List, [], ◌∷◌, ◌++◌, ◌≡◌, ◌≢◌, refl, sym, ap, ◌∙◌}
use kanekfs.Gc.{Links, put, list_del}
use kanekfs.Gc.Ring.{Seg, NotIn, Distinct, IsRing, put_same, put_other, Seg-frame}

Seg-split :
    (l : Links) (a : ℕ) (xs : List ℕ) (e : ℕ) (ys : List ℕ) (b : ℕ)
    → Seg l a (xs ++ (e ∷ ys)) b
    → Seg l a xs e × Seg l e ys b
Seg-split l a [] e ys b (s, t, u) = ((s, t), u)
Seg-split l a (x ∷ xs) e ys b (s, t, u) =
    let (left, right) = Seg-split l x xs e ys b u in ((s, t, left), right)

pub NotIn-split :
    (a : ℕ) (xs : List ℕ) (e : ℕ) (ys : List ℕ)
    → NotIn a (xs ++ (e ∷ ys))
    → (a ≢ e) × NotIn a (xs ++ ys)
NotIn-split a [] e ys h = h
NotIn-split a (x ∷ xs) e ys (h, k) = let (n, m) = NotIn-split a xs e ys k in (n, (h, m))

pub Distinct-split :
    (xs : List ℕ) (e : ℕ) (ys : List ℕ)
    → Distinct (xs ++ (e ∷ ys))
    → NotIn e (xs ++ ys) × Distinct (xs ++ ys)
Distinct-split [] e ys h = h
Distinct-split (x ∷ xs) e ys (h, k) =
    let (n, m) = NotIn-split x xs e ys h in
    let (i, j) = Distinct-split xs e ys k in ((λ f. n (sym f), i), (m, j))

NotIn-right : (a : ℕ) (xs ys : List ℕ) → NotIn a (xs ++ ys) → NotIn a ys
NotIn-right a [] ys h = h
NotIn-right a (x ∷ xs) ys h = NotIn-right a xs ys h.1

NotIn-left : (a : ℕ) (xs ys : List ℕ) → NotIn a (xs ++ ys) → NotIn a xs
NotIn-left a [] ys h = tt
NotIn-left a (x ∷ xs) ys h = (h.0, NotIn-left a xs ys h.1)

-- The entry before `e` is one of the segment, and so is the entry after it.
pub before_e :
    (l : Links) (a x : ℕ) (xs : List ℕ) (e : ℕ) → a ≢ x → NotIn a xs → Seg l x xs e → a ≢ l.prev e
before_e l a x [] e n h (s, t) f = n (f ∙ t)
before_e l a x (y ∷ xs) e n h (s, t, u) f = before_e l a y xs e h.0 h.1 u f

after_e :
    (l : Links) (x e : ℕ) (ys : List ℕ) (b : ℕ) → x ≢ b → NotIn x ys → Seg l e ys b → x ≢ l.next e
after_e l x e [] b n h (s, t) f = n (f ∙ s)
after_e l x e (y ∷ ys) b n h (s, t, u) f = h.0 (f ∙ s)

abbrev skipped : Links → ℕ → Links
skipped l e = record {
  next = put l.next (l.prev e) (l.next e);
  prev = put l.prev (l.next e) (l.prev e);
}

list_del-writes : (l : Links) (e : ℕ) → e ≢ l.next e → list_del l e ≡ skipped l e
unfolding list_del
list_del-writes l e h = rw (put_other l.prev (l.next e) (l.prev e) e h) refl

skipped-Seg :
    (l : Links) (a : ℕ) (xs : List ℕ) (e : ℕ) (ys : List ℕ) (b : ℕ)
    → NotIn a (xs ++ ys)
    → Distinct (xs ++ ys)
    → NotIn b (xs ++ ys)
    → Seg l a xs e
    → Seg l e ys b
    → Seg (skipped l e) a (xs ++ ys) b
skipped-Seg l a [] e [] b na d nb (s, t) (u, v) = (
  ap (put l.next (l.prev e) (l.next e)) (sym t) ∙ put_same l.next (l.prev e) (l.next e) ∙ u,
  ap (put l.prev (l.next e) (l.prev e)) (sym u) ∙ put_same l.prev (l.next e) (l.prev e) ∙ t,
)
skipped-Seg l a [] e (y ∷ ys) b na d nb (s, t) (u, v, w) = (
  ap (put l.next (l.prev e) (l.next e)) (sym t) ∙ put_same l.next (l.prev e) (l.next e) ∙ u,
  ap (put l.prev (l.next e) (l.prev e)) (sym u) ∙ put_same l.prev (l.next e) (l.prev e) ∙ t,
  Seg-frame l (skipped l e) y ys b a y
      (λ z h. put_other l.next (l.prev e) (l.next e) z (λ f. h (f ∙ t)))
      (λ z h. put_other l.prev (l.next e) (l.prev e) z (λ f. h (f ∙ u))) na.0 na.1 d.0
      (λ f. nb.0 (sym f)) w,
)
skipped-Seg l a (x ∷ xs) e ys b na d nb (s, t, u) right = (
  put_other l.next (l.prev e) (l.next e) a (before_e l a x xs e na.0 (NotIn-left a xs ys na.1) u)
      ∙ s,
  put_other l.prev (l.next e) (l.prev e) x
        (after_e l x e ys b (λ f. nb.0 (sym f)) (NotIn-right x xs ys d.0) right)
      ∙ t,
  skipped-Seg l x xs e ys b d.0 d.1 nb.1 u right,
)

-- `list_del` takes an entry out of its list and leaves the others in their order.
pub list_del-IsRing :
    (l : Links) (head : ℕ) (xs : List ℕ) (entry : ℕ) (ys : List ℕ)
    → IsRing l head (xs ++ (entry ∷ ys))
    → IsRing (list_del l entry) head (xs ++ ys)
list_del-IsRing l head xs entry ys ring =
    let (left, right) = Seg-split l head xs entry ys head ring.seg in
    let (apart, outside') = NotIn-split head xs entry ys ring.outside in
    let (single, distinct') = Distinct-split xs entry ys ring.distinct in
    let moved =
      list_del-writes l entry (
        after_e l entry entry ys head (λ f. apart (sym f)) (NotIn-right entry xs ys single)
          right) in
    record {
      seg =
          subst (λ m. Seg m head (xs ++ ys) head) (sym moved)
            (skipped-Seg l head xs entry ys head outside' distinct' outside' left right);
      outside = outside';
      distinct = distinct';
    }
