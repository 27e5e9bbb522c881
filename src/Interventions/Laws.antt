-- ===== src/Interventions/Laws.antt =====
-- Which items the intervention page lists, its filters, and its pool switch.
use apifor_dev.Common.{
  ◌+◌, String, ◌==◌, ◌≡◌, refl, ap, ◌⊎◌, inl, inr, Bool, true, false, ◌||◌, not, Option, none, some,
  List, [], ◌∷◌, arith, length,
}
use apifor_dev.Interventions.{
  bloqueada, decisao, Kind, Item, filtered, toggle_pool, after_toggle, toggle_from, Interventions,
  PoolCfg, Call, post_pool,
}
use apifor_dev.Async.{run, Outcome, returned, thrown}
use apifor_dev.Pipeline.{Task}

kind_cases : (k : Kind) → (k ≡ decisao) ⊎ (k ≡ bloqueada)
kind_cases decisao = inl refl
kind_cases bloqueada = inr refl

-- The counts of the two kinds add up to the count of "Todos", whatever the search.
pub filtered-kinds :
    (lower : String → String) (q : String) (is : List Item)
    → length (filtered lower "decisao" q is) + length (filtered lower "bloqueada" q is)
      ≡ length (filtered lower "todos" q is)
unfolding filtered
filtered-kinds lower q [] = refl
filtered-kinds lower q (i ∷ is) = elim (kind_cases i.kind) [
  | inl e ↦ rw e (ground (arith, filtered-kinds lower q is))
  | inr e ↦ rw e (ground (arith, filtered-kinds lower q is))
]

-- The page after the call of the switch.
abbrev pub switched : Outcome (Unit {0}) → Interventions → Interventions
switched (returned r) s = record s { toggling = false; pool_loads = s.pool_loads + 1 }
switched (thrown e) s = record s { toggling = false }

-- Whether a task is blocked or has failed.
abbrev pub is_down : Task → Bool
is_down t = (t.status == "blocked") || (t.status == "failed")

module _ (env : Call → Outcome (Unit {0})) where
  after_toggle_lem :
      (o : Outcome (Unit {0})) (s : Interventions)
      → run env (after_toggle o) (record s { toggling = true }) ≡ (switched o s, [])
  unfolding run
  after_toggle_lem (returned r) s = refl
  after_toggle_lem (thrown e) s = refl

  -- The page and the calls after a switch of this pool.
  abbrev pub switch_result : Option PoolCfg → Interventions → Interventions × List Call
  switch_result none s = (s, [])
  switch_result (some p) s =
      let asked : Call = post_pool (record p { paused = not p.paused }) in
      (switched (env asked) s, asked ∷ [])

  run-toggle_from :
      (o : Option PoolCfg) (s : Interventions) → run env (toggle_from o) s ≡ switch_result o s
  unfolding run
  run-toggle_from none s = refl
  run-toggle_from (some p) s =
      let asked : Call = post_pool (record p { paused = not p.paused }) in
      ap (λ (r : Interventions × List Call). (r.0, asked ∷ r.1)) (after_toggle_lem (env asked) s)

  -- Switching the pool. With no pool read nothing is called. Otherwise the pool is posted once, as
  -- it was read but for the flag "paused", which is flipped; the button is released whatever
  -- happens, and the pool is asked for anew exactly when the call returned.
  pub run-toggle_pool : (s : Interventions) → run env (toggle_pool s) s ≡ switch_result s.pool s
  unfolding toggle_pool
  run-toggle_pool s = run-toggle_from s.pool s
