-- ===== src/Settings/Pool/Laws.antt =====
-- Saving the pool: what is shown, what is sent, and what a poll makes of it.
use apifor_dev.Common.{◌≡◌, refl, ap, ◌∙◌, Option, some, List, [], ◌∷◌, ◌++◌, map}
use apifor_dev.Async.{returned, until_call, Outcome, run}
use apifor_dev.Settings.Pool.{
  after_load, save_from, post_pool, patched, of_pool, Settings, Patch, PoolCfg, Call, save_pool,
}
use apifor_dev.Poll.{null, undefined, value, Maybe}

saved :
    (env : Call → Outcome (Option (Maybe PoolCfg))) (patch : Patch) (s : Settings)
    (m : Maybe PoolCfg)
    → run env (save_from patch m) s
      ≡ of_pool
          (s, [])
          (λ p. (record s { pool = value (patched patch p) }, post_pool (patched patch p) ∷ []))
          m
unfolding run
saved env patch s undefined = refl
saved env patch s null = refl
saved env patch s (value p) = refl

-- A save sends the whole pool with the one field changed, shows it at once, and keeps it whatever
-- comes of the call, also where it fails; without a pool it does nothing.
pub run-save_pool :
    (env : Call → Outcome (Option (Maybe PoolCfg))) (patch : Patch) (s : Settings)
    → run env (save_pool patch s) s
      ≡ of_pool
          (s, [])
          (λ p. (record s { pool = value (patched patch p) }, post_pool (patched patch p) ∷ []))
          s.pool
unfolding run save_pool
run-save_pool env patch s = saved env patch s s.pool

-- A control is used, or an answer to a poll of the pool comes in.
pub data Move : Type 0 where
  save : Patch → Move
  loaded : Outcome (Option (Maybe PoolCfg)) → Move

-- What runs of the handlers until their calls.
abbrev pub move : Move → Settings → Settings
move (save p) s = (until_call (save_pool p s) s).0
move (loaded o) s = (until_call (after_load o) s).0

abbrev pub moves : List Move → Settings → Settings
moves [] s = s
moves (m ∷ ms) s = moves ms (move m s)

abbrev pub patched_all : List Patch → PoolCfg → PoolCfg
patched_all [] p = p
patched_all (x ∷ xs) p = patched_all xs (patched x p)

moves-append : (ms ns : List Move) (s : Settings) → moves (ms ++ ns) s ≡ moves ns (moves ms s)
moves-append [] ns s = refl
moves-append (m ∷ ms) ns s = moves-append ms ns (move m s)

moves-save :
    (ps : List Patch) (p : PoolCfg) (s : Settings)
    → (moves (map (λ x. save x) ps) (record s { pool = value p })).pool ≡ value (patched_all ps p)
unfolding until_call save_pool
moves-save [] p s = refl
moves-save (x ∷ xs) p s = moves-save xs (patched x p) (record s { pool = value p })

-- The page shows the last answer of the poll with the patches saved since, in their order, and nothing
-- of what was saved before it came.
pub moves-loaded :
    (ms : List Move) (p : PoolCfg) (ps : List Patch) (s : Settings)
    → (moves (ms ++ loaded (returned (some (value p))) ∷ map (λ x. save x) ps) s).pool
      ≡ value (patched_all ps p)
unfolding until_call
moves-loaded ms p ps s =
    ap (λ t. t.pool) (moves-append ms (loaded (returned (some (value p))) ∷ map (λ x. save x) ps) s)
    ∙ moves-save ps p (moves ms s)
