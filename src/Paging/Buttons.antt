-- ===== src/Paging/Buttons.antt =====
-- What the two buttons do to the clamped page.
use apifor_dev.Common.{ℕ, ◌+◌, ◌-◌, ◌≤◌, ◌<◌, min, ◌≡◌, ◌↔◌, false, arith}
use apifor_dev.Paging.{safe_page, prev_page, next_page, prev_disabled, next_disabled}

-- From a page in range a button moves the visible page by one, and not beyond the first, or last,
-- page, where exactly it is disabled.
pub step_in_range :
    (total page : ℕ)
    → page < total
    → ((prev_disabled total page ≡ false) ↔ (0 < page))
      × ((next_disabled total page ≡ false) ↔ (page + 1 < total))
      × (safe_page (prev_page page) total ≡ page - 1)
      × (safe_page (next_page total page) total ≡ min (total - 1) (page + 1))
unfolding prev_disabled next_disabled prev_page next_page safe_page
step_in_range total page h = ground arith

-- The page asked for is not clamped before a step back: when a poll has shortened the list so that
-- the page asked for lies beyond the last one, the enabled "previous" button leaves the
-- visible page where it is.
pub prev_stuck :
    (total page : ℕ)
    → 1 < total
    → total ≤ page
    → (prev_disabled total page ≡ false) × (safe_page (prev_page page) total ≡ safe_page page total)
unfolding prev_disabled prev_page safe_page
prev_stuck total page h k = ground arith

-- "Next" does clamp: whatever page was asked for, the page that it leads to is in range.
pub next-lt : (total page : ℕ) → 0 < total → next_page total page < total
unfolding next_page
next-lt total page h = omega arith
