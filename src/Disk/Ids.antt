-- ===== src/Disk/Ids.antt =====
-- The loops that number the entries of a table.
use kanekfs.Base.{ℕ, zero, suc, ◌+◌, ◌*◌, ◌<◌, ◌≡◌, refl, ◌∙◌, arith, u64}
use kanekfs.Disk.{Page, store64}

-- `rounds` entries of `size` bytes from `off` on get the ids from `id` on.
unfoldable pub fill_ids : ℕ → ℕ → ℕ → ℕ → Page → Page
fill_ids zero off size id page = page
fill_ids (suc rounds) off size id page =
    fill_ids rounds (off + size) size (id + 1) (store64 page off id)

-- Nothing before the first entry changes.
pub fill_ids-before :
    (rounds off size id : ℕ) (page : Page) (k : ℕ)
    → k < off
    → fill_ids rounds off size id page k ≡ page k
unfolding fill_ids
fill_ids-before zero off size id page k h = refl
fill_ids-before (suc rounds) off size id page k h =
    fill_ids-before rounds (off + size) size (id + 1) (store64 page off id) k (omega arith)
    ∙ ground arith

pub fill_ids-entry :
    (rounds off size id : ℕ) (page : Page) (k : ℕ)
    → 0 < size
    → k < rounds
    → fill_ids rounds off size id page (off + k * size) ≡ u64 (id + k)
unfolding fill_ids
fill_ids-entry zero off size id page k s h = absurd (omega arith)
fill_ids-entry (suc rounds) off size id page zero s h =
    let z : off + 0 * size ≡ off = omega arith in
    let w : id + 0 ≡ id = omega arith in
    rw (z, w)
      (fill_ids-before rounds (off + size) size (id + 1) (store64 page off id) off (omega arith)
        ∙ ground arith)
fill_ids-entry (suc rounds) off size id page (suc k) s h =
    let z : off + suc k * size ≡ off + size + k * size = grind arith in
    let w : id + suc k ≡ id + 1 + k = omega arith in
    rw (z, w)
      (fill_ids-entry rounds (off + size) size (id + 1) (store64 page off id) k s (omega arith))
