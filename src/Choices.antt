-- ===== src/Choices.antt =====
-- The options of a select that are read off the data, `[...new Set(xs.filter(Boolean))]`
-- (app/dashboard/app/ci/page.tsx and app/dashboard/app/logs/page.tsx): the texts that are not empty,
-- each once, in the order of their first places.
pub mod Laws
use apifor_dev.Common.{String, ◌==◌, not, List, [], ◌∷◌, filter}

unfoldable pub distinct : List String → List String
distinct [] = []
distinct (x ∷ xs) = x ∷ filter (λ y. not (y == x)) (distinct xs)

unfoldable pub choices : List String → List String
unfolding distinct
choices xs = distinct (filter (λ s. not (s == "")) xs)
