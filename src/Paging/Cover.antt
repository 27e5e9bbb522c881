-- ===== src/Paging/Cover.antt =====
-- The pages of a list, read one after the other, are the list.
use apifor_dev.Common.{
  length-drop, take-add, drop-drop, length-take, take_of_length-le, ℕ, zero, suc, ◌+◌, ◌-◌, ◌*◌,
  ◌/◌, ◌≤◌, ◌<◌, min, max, ◌≡◌, refl, ap, ◌∙◌, ◌↔◌, List, [], ◌∷◌, ◌++◌, arith, length, take, drop,
}
use apifor_dev.Paging.{total_pages, safe_page, rows}

pub safe_page-lt : (page size n : ℕ) → safe_page page (total_pages size n) < total_pages size n
unfolding safe_page total_pages
safe_page-lt page size n = omega arith

safe_page_of_lt : (page total : ℕ) → page < total → safe_page page total ≡ page
unfolding safe_page
safe_page_of_lt page total h = omega arith

le-total_pages : (k n : ℕ) → n ≤ total_pages (suc k) n * suc k
unfolding total_pages
le-total_pages k n = grind arith

-- The visible rows of `k` pages from page `i` on, one page after the other.
abbrev pub pages_from {ℓ} : {A : Type ℓ} → ℕ → ℕ → ℕ → List A → List A
pages_from size i zero xs = []
pages_from size i (suc k) xs = rows size i xs ++ pages_from size (suc i) k xs

pages_from-take {ℓ} :
    {A : Type ℓ} (size i k : ℕ) (xs : List A)
    → i + k ≤ total_pages size (length xs)
    → pages_from size i k xs ≡ take (k * size) (drop (i * size) xs)
unfolding rows
pages_from-take size i zero xs h = let e : 0 * size ≡ 0 = omega arith in rw e refl
pages_from-take size i (suc k) xs h =
    let here : safe_page i (total_pages size (length xs)) ≡ i = safe_page_of_lt i _ (omega arith) in
    let next : suc i * size ≡ i * size + size = omega arith in
    let both : suc k * size ≡ size + k * size = omega arith in
    rw (here, both, pages_from-take size (suc i) k xs (omega arith), next, ← drop-drop)
      (take-add size (k * size) (drop (i * size) xs))

-- Reading every page in turn, from the first to the last, gives each row of the list once and in
-- order, for every page size of at least one.
pub pages-cover {ℓ} :
    {A : Type ℓ} (k : ℕ) (xs : List A)
    → pages_from (suc k) 0 (total_pages (suc k) (length xs)) xs ≡ xs
pages-cover k xs =
    pages_from-take (suc k) 0 (total_pages (suc k) (length xs)) xs (omega arith)
    ∙ let e : 0 * suc k ≡ 0 = omega arith in
      rw e (take_of_length-le _ xs (le-total_pages k (length xs)))

offset-lt : (k page n : ℕ) → 0 < n → safe_page page (total_pages (suc k) n) * suc k < n
unfolding safe_page total_pages
offset-lt k page n h =
    let q : ℕ = (n + (suc k - 1)) / suc k in
    let last : min page (max 1 q - 1) ≤ q - 1 = omega arith in
    let room : (q - 1) * suc k < n = grind arith in grind arith

length-rows {ℓ} :
    {A : Type ℓ} (size page : ℕ) (xs : List A)
    → length (rows size page xs)
      ≡ min size (length xs - safe_page page (total_pages size (length xs)) * size)
unfolding rows
length-rows size page xs =
    length-take size _
    ∙ ap (min size) (length-drop (safe_page page (total_pages size (length xs)) * size) xs)

rows_empty {ℓ} :
    {A : Type ℓ} (k page : ℕ) (xs : List A) → (length (rows (suc k) page xs) ≡ 0) ↔ (length xs ≡ 0)
rows_empty {A} k page [] = (λ h. refl, λ h. omega (arith, length-rows {A = A} (suc k) page []))
rows_empty {A} k page (x ∷ xs) = (
  λ h. absurd (
      omega (
        arith,
        h,
        length-rows (suc k) page (x ∷ xs),
        offset-lt k page (length (x ∷ xs)) (omega arith),
      )),
  λ h. absurd (omega arith),
)

-- The clamped page lies in range whatever the page asked for, its rows are at most a page, and there
-- are rows to show exactly when the list has any.
pub rows_bounds {ℓ} :
    {A : Type ℓ} (k page : ℕ) (xs : List A)
    → (safe_page page (total_pages (suc k) (length xs)) < total_pages (suc k) (length xs))
      × (length (rows (suc k) page xs) ≤ suc k)
      × ((length (rows (suc k) page xs) ≡ 0) ↔ (length xs ≡ 0))
rows_bounds k page xs = (
  safe_page-lt page (suc k) (length xs),
  omega (arith, length-rows (suc k) page xs),
  rows_empty k page xs,
)

pub rows-zero {ℓ} : {A : Type ℓ} (size : ℕ) (xs : List A) → rows size 0 xs ≡ take size xs
unfolding rows safe_page
rows-zero size xs =
    let e : min 0 (total_pages size (length xs) - 1) * size ≡ 0 = grind arith in rw e refl
