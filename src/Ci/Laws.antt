-- ===== src/Ci/Laws.antt =====
-- The cards, the pills and the select of the CI page agree.
use apifor_dev.Common.{
  ℕ, ◌<◌, String, ◌==◌, ◌≡◌, refl, inl, inr, true, List, [], ◌∷◌, map, arith, Bool-cases, length,
  contains,
}
use apifor_dev.Ci.{Run, filtered, tally, match_state, providers, found_by}
use apifor_dev.Choices.Laws.{contains-choices}

module _ (lower : String → String) where
  -- With no search and all connections, the pills "Verde", "Falhou" and "Rodando" leave as many runs as
  -- the cards count: of the runs that passed, that failed and that are running.
  pub filtered-tally :
      (runs : List Run) (page : ℕ)
      → let found : String → ℕ = λ state.
        length
          (filtered lower (record { q = ""; state = state; conn = "todas"; page = page }) runs) in
        (found "verde" ≡ tally "passed" runs)
        × (found "falhou" ≡ tally "failed" runs)
        × (found "rodando" ≡ tally "running" runs)
  unfolding filtered match_state found_by
  filtered-tally [] page = (refl, refl, refl)
  filtered-tally (r ∷ runs) page = let (a, b, c) = filtered-tally runs page in ground arith

  provider-kept :
      (runs : List Run) (v : String) (page : ℕ)
      → contains (map (λ (r : Run). r.provider) runs) v ≡ true
      → 0 < length (filtered lower (record { q = ""; state = "todos"; conn = v; page = page }) runs)
  unfolding filtered match_state found_by
  provider-kept [] v page h = cc
  provider-kept (r ∷ runs) v page h = elim (Bool-cases (r.provider == v)) [
    | inl e ↦ ground arith
    | inr e ↦ ground (arith, provider-kept runs v page (ground arith))
  ]

  -- Every provider that the data name and the select offers has a run: choosing it, with no search and in
  -- every state, leaves at least one row.
  pub providers-shown :
      (runs : List Run) (v : String) (page : ℕ)
      → contains (providers runs) v ≡ true
      → 0 < length (filtered lower (record { q = ""; state = "todos"; conn = v; page = page }) runs)
  unfolding providers
  providers-shown runs v page h =
      provider-kept runs v page
        (ground (arith, contains-choices (map (λ (r : Run). r.provider) runs) v))
