-- ===== src/Prs/Laws.antt =====
-- The rows that the page of the pull requests shows.
use apifor_dev.Common.{
  All-drop, All-take, ◌≤◌, String, ◌≡◌, refl, ◌↔◌, inl, inr, Bool, true, List, [], ◌∷◌, map,
  Bool-cases, length, filter, All, nat_eq_iff,
}
use apifor_dev.Prs.{Pr, Prs, filtered, match_tab, found_by, screen, row}
use apifor_dev.Paging.{rows}
use apifor_dev.Paging.Cover.{rows_bounds}

filter-filter {ℓ} :
    {A : Type ℓ} (p q : A → Bool) (xs : List A)
    → All (λ x. (p x ≡ true) × (q x ≡ true)) (filter q (filter p xs))
filter-filter p q [] = tt
filter-filter p q (x ∷ xs) = elim (Bool-cases (p x)) [
  | inl e ↦ elim (Bool-cases (q x)) [
    | inl f ↦ rw (e, f) (((e, f)), filter-filter p q xs)
    | inr f ↦ rw (e, f) (filter-filter p q xs)
  ]
  | inr e ↦ rw e (filter-filter p q xs)
]

module _ (lower age_of : String → String) where
  -- Whatever page is asked for, the table shows at most twenty rows, each of a pull request that
  -- the tab and the search both admit, and says that there are none exactly when they admit none.
  pub table-admitted :
      (prs : List Pr) (s : Prs)
      → let visible = rows 20 s.page (filtered lower s prs) in
        ((screen lower age_of prs s).table ≡ map (row age_of) visible)
        × (length visible ≤ 20)
        × All (λ p. (match_tab s.tab p ≡ true) × (found_by lower s.q p ≡ true)) visible
        × (((screen lower age_of prs s).empty ≡ true) ↔ (length (filtered lower s prs) ≡ 0))
  unfolding screen rows filtered
  table-admitted prs s =
      let (lt, le, none_iff) = rows_bounds 19 s.page (filtered lower s prs) in
      (
        refl,
        le,
        All-take _ 20 _ (All-drop _ _ _ (filter-filter (match_tab s.tab) (found_by lower s.q) prs)),
        (λ h. none_iff.0 ((nat_eq_iff _ 0).0 h), λ h. (nat_eq_iff _ 0).1 (none_iff.1 h)),
      )
