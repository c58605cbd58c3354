-- ===== src/Gc/Ring.antt =====
-- A list of fs/list.h: the nodes in order between two ends, linked both ways.
use kanekfs.Base.{ℕ, List, [], ◌∷◌, ◌≡◌, ◌≢◌, sym, ◌∙◌, arith}
use kanekfs.Gc.{Links, put}

-- From `a` through `xs` to `b`.
abbrev pub Seg : Links → ℕ → List ℕ → ℕ → Type 0
Seg l a [] b = (l.next a ≡ b) × (l.prev b ≡ a)
Seg l a (x ∷ xs) b = (l.next a ≡ x) × (l.prev x ≡ a) × Seg l x xs b

abbrev pub NotIn : ℕ → List ℕ → Type 0
NotIn a [] = Unit {0}
NotIn a (x ∷ xs) = (a ≢ x) × NotIn a xs

abbrev pub Distinct : List ℕ → Type 0
Distinct [] = Unit {0}
Distinct (x ∷ xs) = NotIn x xs × Distinct xs

-- The list with the given head holds the nodes in order, each once and none the head.
pub record IsRing (l : Links) (head : ℕ) (xs : List ℕ) : Type 0 where
  pub seg : Seg l head xs head
  pub outside : NotIn head xs
  pub distinct : Distinct xs

pub put_same : (f : ℕ → ℕ) (a v : ℕ) → put f a v a ≡ v
put_same f a v = ground arith

pub put_other : (f : ℕ → ℕ) (a v x : ℕ) → x ≢ a → put f a v x ≡ f x
put_other f a v x h = ground arith

-- Links that agree on what a segment reads.
pub Seg-frame :
    (l m : Links) (a : ℕ) (xs : List ℕ) (b n p : ℕ)
    → ((x : ℕ) → x ≢ n → m.next x ≡ l.next x)
    → ((x : ℕ) → x ≢ p → m.prev x ≡ l.prev x)
    → n ≢ a
    → NotIn n xs
    → NotIn p xs
    → p ≢ b
    → Seg l a xs b
    → Seg m a xs b
Seg-frame l m a [] b n p f g na nx px pb (s, t) =
    (f a (λ e. na (sym e)) ∙ s, g b (λ e. pb (sym e)) ∙ t)
Seg-frame l m a (x ∷ xs) b n p f g na nx px pb (s, t, u) = (
  f a (λ e. na (sym e)) ∙ s,
  g x (λ e. px.0 (sym e)) ∙ t,
  Seg-frame l m x xs b n p f g nx.0 nx.1 px.1 pb u,
)
