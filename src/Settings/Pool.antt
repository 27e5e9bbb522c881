-- ===== src/Settings/Pool.antt =====
-- The pool on the settings page (app/dashboard/app/config/page.tsx): its poll, its saving, which
-- shows the change before the server has it, and the choices that the page keeps to itself.
pub mod Laws
use apifor_dev.Common.{
  ℕ, String, ◌==◌, Bool, true, false, ◌&&◌, not, Option, none, some, List, [], ◌∷◌, if◌then◌else◌,
}
use apifor_dev.Poll.{value, Maybe, null}
use apifor_dev.Queue.{lit}
use apifor_dev.Async.{done, set, returned, Script, call, Outcome}

pub record PoolCfg : Type 0 where
  pub mode : String
  pub parallel_workers : ℕ
  pub timeout_min : ℕ
  pub retries : ℕ
  pub paused : Bool
  pub auto_merge : Bool
  pub isolamento : Bool

pub record MergeRules : Type 0 where
  pub ci_verde : Bool
  pub aprovacao_ia : Bool
  pub revisao_humana : Bool
  pub delete_branch : Bool
  pub strategy : String

pub record Settings : Type 0 where
  pub pool : Maybe PoolCfg
  pub tab : String
  pub conn_tab : String
  pub agent_models : List (String × String)
  pub merge_rules : MergeRules
  pub autoscale : Bool
  pub foco : String
  pub pool_repo_search : String

-- The agents, each with the model that it starts with.
abbrev pub agents : List (String × String)
agents =
    ("Planejador", "claude_opus")
    ∷ ("Codificador", "claude_sonnet")
    ∷ ("Revisor IA", "claude_opus")
    ∷ ("Testador", "claude_haiku")
    ∷ []

abbrev pub fresh_settings : Settings
fresh_settings = record {
  pool = null;
  tab = "workers";
  conn_tab = "codigo";
  agent_models = agents;
  merge_rules = record {
    ci_verde = true;
    aprovacao_ia = true;
    revisao_humana = false;
    delete_branch = true;
    strategy = "Squash and merge";
  };
  autoscale = false;
  foco = "Features e correções";
  pool_repo_search = "";
}

-- The patches that the page's controls save.
pub data Patch : Type 0 where
  set_mode : String → Patch
  set_workers set_timeout set_retries : ℕ → Patch
  set_paused set_merge set_isolation : Bool → Patch

-- `{ ...pool, ...patch }`
unfoldable pub patched : Patch → PoolCfg → PoolCfg
patched (set_mode m) p = record p { mode = m }
patched (set_workers n) p = record p { parallel_workers = n }
patched (set_timeout n) p = record p { timeout_min = n }
patched (set_retries n) p = record p { retries = n }
patched (set_paused b) p = record p { paused = b }
patched (set_merge b) p = record p { auto_merge = b }
patched (set_isolation b) p = record p { isolamento = b }

pub data Call : Type 0 where
  get_pool : Call
  post_pool : PoolCfg → Call

-- The answers: `none` carries an error; a save reads nothing of its answer.
abbrev pub Handler : Type 0
Handler = Script Settings Call (Option (Maybe PoolCfg))

abbrev pub after_load : Outcome (Option (Maybe PoolCfg)) → Handler
after_load (returned (some d)) = set (λ s. record s { pool = d }) done
after_load _ = done

unfoldable pub load_pool : Handler
load_pool = call (λ s. get_pool) after_load

-- The save of a patch, from the pool that the page shows when the control is used.
abbrev pub save_from : Patch → Maybe PoolCfg → Handler
save_from patch (value p) =
    set (λ t. record t { pool = value (patched patch p) })
      (call (λ t. post_pool (patched patch p)) (λ o. done))
save_from patch _ = done

unfoldable pub save_pool : Patch → Settings → Handler
unfolding patched
save_pool patch s = save_from patch s.pool

-- What the controls change without a call.
pub data Edit : Type 0 where
  to_tab to_conn_tab to_foco search to_strategy : String → Edit
  to_model : String → String → Edit
  to_autoscale to_ci to_ai to_human to_branch : Bool → Edit

abbrev pub put : String → String → List (String × String) → List (String × String)
put k v [] = (k, v) ∷ []
put k v ((j, u) ∷ m) = if j == k then (j, v) ∷ m else (j, u) ∷ put k v m

unfoldable pub edit : Edit → Settings → Settings
edit (to_tab t) s = record s { tab = t }
edit (to_conn_tab t) s = record s { conn_tab = t }
edit (to_foco f) s = record s { foco = f }
edit (search q) s = record s { pool_repo_search = q }
edit (to_model role m) s = record s { agent_models = put role m s.agent_models }
edit (to_autoscale b) s = record s { autoscale = b }
edit (to_strategy x) s = record s { merge_rules = record s.merge_rules { strategy = x } }
edit (to_ci b) s = record s { merge_rules = record s.merge_rules { ci_verde = b } }
edit (to_ai b) s = record s { merge_rules = record s.merge_rules { aprovacao_ia = b } }
edit (to_human b) s = record s { merge_rules = record s.merge_rules { revisao_humana = b } }
edit (to_branch b) s = record s { merge_rules = record s.merge_rules { delete_branch = b } }

abbrev pub of_pool {ℓ} : {A : Type ℓ} → A → (PoolCfg → A) → Maybe PoolCfg → A
of_pool d f (value p) = f p
of_pool d f _ = d

unfoldable pub running : Settings → Bool
running s = of_pool false (λ p. not p.paused) s.pool

-- `pool?.mode || "pool"`
unfoldable pub mode : Settings → String
mode s = let m = of_pool "" (λ p. p.mode) s.pool in if m == "" then "pool" else m

-- The controls of the pool with their values, each with what stands for a pool that is missing.
pub record PoolCard : Type 0 where
  pub running : Bool
  pub word : String
  pub color : String
  pub parallel_workers : ℕ
  pub timeout_min : ℕ
  pub retries : ℕ
  pub isolamento : Bool
  pub auto_merge : Bool

unfoldable pub pool_card : Settings → PoolCard
unfolding running
pool_card s = record {
  running = running s;
  word = if running s then "rodando" else "pausado";
  color = if running s then "var(--green)" else "var(--mute)";
  parallel_workers = of_pool 1 (λ p. p.parallel_workers) s.pool;
  timeout_min = of_pool 30 (λ p. p.timeout_min) s.pool;
  retries = of_pool 2 (λ p. p.retries) s.pool;
  isolamento = of_pool true (λ p. p.isolamento) s.pool;
  auto_merge = of_pool false (λ p. p.auto_merge) s.pool;
}

-- What the tab of the workers shows: the mode that is lit, the card of the pool in its mode, and
-- whether the note about the running pool stands over the dedicated workers.
pub record Tab : Type 0 where
  pub modes : List (String × Bool)
  pub card : Option PoolCard
  pub pinned : Bool
  pub note : Bool

unfoldable pub workers_tab : Settings → Tab
unfolding mode pool_card running
workers_tab s = record {
  modes = lit (mode s) (("pool", "Pool") ∷ ("pinned", "Pinned") ∷ []);
  card = if mode s == "pool" then some (pool_card s) else none;
  pinned = mode s == "pinned";
  note = mode s == "pinned" && running s;
}
