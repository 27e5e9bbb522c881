-- ===== src/Home/Screen.antt =====
-- The head and the hero of the home page, and what its buttons do (app/dashboard/app/page.tsx).
-- `upper` is `toUpperCase`.
use apifor_dev.Common.{
  ℕ, zero, suc, ◌+◌, max, String, Bool, false, not, Option, none, some, List, [], ◌∷◌, ltb,
  if◌then◌else◌, length,
}
use apifor_dev.Common.Text
use apifor_dev.Home.{n_prs_open, Task, n_fila, Pr, Worker, pool, running}
use apifor_dev.Queue.{lit}

pub record Home : Type 0 where
  pub range : String
  pub pool_paused : Bool
  pub pr_tab : String
  pub log_filter : String

abbrev pub fresh_home : Home
fresh_home = record { range = "hoje"; pool_paused = false; pr_tab = "todos"; log_filter = "all" }

pub data Click : Type 0 where
  to_range to_pr_tab to_log_filter : String → Click
  pause_button resume_button : Click

-- No click of the page calls the API: the pause is the page's own.
unfoldable pub click : Click → Home → Home
click (to_range r) s = record s { range = r }
click (to_pr_tab v) s = record s { pr_tab = v }
click (to_log_filter f) s = record s { log_filter = f }
click pause_button s = record s { pool_paused = not s.pool_paused }
click resume_button s = record s { pool_paused = false }

-- The numbers of the usage that the page reads, with what stands for an answer that is missing.
pub record Plan : Type 0 where
  pub plan : String
  pub max_workers : ℕ

abbrev pub plan_of : Option Plan → String
plan_of u = elim u [ none ↦ "free" | some p ↦ p.plan ]

abbrev pub slots_of : Option Plan → ℕ
slots_of u = elim u [ none ↦ 1 | some p ↦ p.max_workers ]

-- The small bars of the hero: as many as there are slots, eight at least, lit for each worker.
abbrev pub bars_from : ℕ → ℕ → ℕ → List Bool
bars_from workers zero i = []
bars_from workers (suc n) i = ltb i workers ∷ bars_from workers n (i + 1)

pub record Hero : Type 0 where
  pub mode : String
  pub word : String
  pub color : String
  pub pulses : Bool
  pub workers : ℕ
  pub bars : List Bool
  pub slots : ℕ × ℕ
  pub facts : List (ℕ × String)

module _ (upper : String → String) where
  unfoldable pub hero : List Worker → List Task → List Pr → ℕ → Option Plan → Home → Hero
  unfolding pool running n_fila n_prs_open
  hero ws tasks prs repos u s = record {
    mode = Text.append "Modo " (upper (plan_of u));
    word = (pool ws s.pool_paused).0;
    color = (pool ws s.pool_paused).1;
    pulses = running ws s.pool_paused;
    workers = length ws;
    bars = bars_from (length ws) (max (slots_of u) 8) 0;
    slots = (length ws, slots_of u);
    facts =
        (repos, "repositórios") ∷ (n_fila tasks, "na fila") ∷ (n_prs_open prs, "PRs abertos") ∷ [];
  }

-- The head of the page: its two counts, the pills of the range, the button and the banner.
pub record Head : Type 0 where
  pub repos : ℕ
  pub workers : ℕ
  pub ranges : List (String × Bool)
  pub button : String
  pub banner : Bool

unfoldable pub head : List Worker → ℕ → Home → Head
head ws repos s = record {
  repos = repos;
  workers = length ws;
  ranges = lit s.range (("hoje", "Hoje") ∷ ("24h", "24h") ∷ ("7d", "7d") ∷ []);
  button = if s.pool_paused then "Retomar" else "Pausar pool";
  banner = s.pool_paused;
}
