-- ===== src/Qa/Pages.antt =====
-- The pages of the QA list: no control leads beyond them.
use apifor_dev.Common.{
  ◌<◌, String, ◌==◌, ◌≡◌, refl, ap, ◌∙◌, Bool, ◌||◌, List, [], ◌∷◌, map, arith, filter,
}
use apifor_dev.Qa.Screen.{reports, Covered, found}
use apifor_dev.Qa.{match_state, found_by, pages, Qa, filtered, Report}

-- The reports found with their coverages are those that the filters leave.
filter-map :
    (p : Report → Bool) (xs : List Covered)
    → map (λ (x : Covered). x.report) (filter (λ x. p x.report) xs) ≡ filter p (reports xs)
filter-map p [] = refl
filter-map p (x ∷ xs) = ground (arith, filter-map p xs)

-- Whether the number of the page is one of those that the filters leave.
abbrev pub IsOnPage : (String → String) → List Report → Qa → Type 0
IsOnPage lower list s = s.page < pages lower list s

-- The rows that the page draws are the reports that the filters leave on it, in their order, each with
-- its coverage.
pub map-found :
    (lower : String → String) (s : Qa) (xs : List Covered)
    → map (λ (x : Covered). x.report) (found lower s xs) ≡ filtered lower s (reports xs)
unfolding found filtered
map-found lower s xs =
    filter-map (found_by lower s.q) (
      filter (λ x. (s.repo == "todos") || (x.report.repo_id == s.repo))
        (filter (λ x. match_state s.state x.report.status) xs))
    ∙ ap (filter (found_by lower s.q)) (
        filter-map (λ r. (s.repo == "todos") || (r.repo_id == s.repo))
          (filter (λ x. match_state s.state x.report.status) xs))
    ∙ ap
        (λ l.
          filter (found_by lower s.q)
            (filter (λ r. (s.repo == "todos") || (r.repo_id == s.repo)) l))
        (filter-map (λ r. match_state s.state r.status) xs)
