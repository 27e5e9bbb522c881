-- ===== src/Paging.antt =====
-- Pagination as every list page of the dashboard has it (app/dashboard/app/queue/page.tsx and the
-- pages that repeat it): the number of pages, the clamped page, the visible rows, and the two
-- buttons.
pub mod Cover
pub mod Buttons
use apifor_dev.Common.{ℕ, ◌+◌, ◌-◌, ◌*◌, ◌/◌, min, max, Bool, List, leb, nat_eq, length, take, drop}

-- `Math.max(1, Math.ceil(n / PAGE_SIZE))`
unfoldable pub total_pages : ℕ → ℕ → ℕ
total_pages size n = max 1 ((n + (size - 1)) / size)

-- `Math.min(page, totalPages - 1)`
unfoldable pub safe_page : ℕ → ℕ → ℕ
safe_page page total = min page (total - 1)

-- `filtered.slice(safePage * PAGE_SIZE, safePage * PAGE_SIZE + PAGE_SIZE)`
unfoldable pub rows {ℓ} : {A : Type ℓ} → ℕ → ℕ → List A → List A
rows size page xs = take size (drop (safe_page page (total_pages size (length xs)) * size) xs)

-- The page after "previous": `setPage((p) => Math.max(0, p - 1))`.
unfoldable pub prev_page : ℕ → ℕ
prev_page p = p - 1

-- The page after "next": `setPage((p) => Math.min(totalPages - 1, p + 1))`.
unfoldable pub next_page : ℕ → ℕ → ℕ
next_page total p = min (total - 1) (p + 1)

-- `safePage === 0` and `safePage >= totalPages - 1`
unfoldable pub prev_disabled : ℕ → ℕ → Bool
unfolding safe_page
prev_disabled total page = nat_eq (safe_page page total) 0

unfoldable pub next_disabled : ℕ → ℕ → Bool
unfolding safe_page
next_disabled total page = leb (total - 1) (safe_page page total)
