-- ===== src/Tests/Screens.antt =====
-- The pages that show counts, meters and graphs, and the shell around them, on concrete inputs.
use apifor_dev.Common.{
  ◌-◌, ◌≤◌, String, ◌≡◌, refl, true, false, none, some, List, [], ◌∷◌, ◌++◌, map, arith,
  if◌then◌else◌, length, count, contains, All,
}
use apifor_dev.Shell.Theme.{toggle, Themed, reload, toggles, reload-toggles}
use apifor_dev.Live
use apifor_dev.Live.{Live, Snapshot, fresh_live}
use apifor_dev.Live.Laws.{steps_seen}
use apifor_dev.Shell.Counts.{Answers, counts_of, badge, count_at}
use apifor_dev.Shell.Counts.Laws.{counts_of-agree, statuses}
use apifor_dev.Home
use apifor_dev.Home.{n_fila, n_prs_open}
use apifor_dev.Shell.Sidebar.{sidebar}
use apifor_dev.Shell.Sidebar.Laws.{sidebar-active, entries, hrefs, all_items}
use apifor_dev.Qa.{Qa, Report}
use apifor_dev.Qa.Screen
use apifor_dev.Usage.{Usage, Page, meters, fresh_page}
use apifor_dev.Usage.Laws.{meters-fits, fits}
use apifor_dev.Shell.Charts.{sparkline, padded}
use apifor_dev.Shell.Charts.Laws.{sparkline-IsInside, IsInside}
use apifor_dev.Poll.{value}
use apifor_dev.Async.{returned, thrown}
use apifor_dev.Lang.{nav}
use apifor_dev.Poll.Guarded.{answered, rejected}

-- A dark page whose storage can be read and written.
abbrev dark : Themed
dark = record {
  storage = record { theme = none; readable = true; writable = true };
  attr = some "dark";
  shown = "dark";
}

reload-toggles_example : (reload (toggles 3 dark)).shown ≡ "light"
unfolding toggles toggle
reload-toggles_example = reload-toggles 2 dark

abbrev nobody : Snapshot
nobody = record { workers = []; tasks = [] }

abbrev events : List Live.Event
events =
    Live.opened
    ∷ Live.message (some nobody)
    ∷ Live.message none
    ∷ Live.polled rejected
    ∷ Live.failed
    ∷ []

steps_seen_example :
    let s = Live.steps events fresh_live in
    (s.shown ≡ nobody)
    × (s.live ≡ false)
    × (s.loading ≡ true)
    × ((Live.steps
          (events ++ Live.polled (answered (value Live.empty_pool)) ∷ [])
          fresh_live).loading
        ≡ false)
steps_seen_example = steps_seen events fresh_live

abbrev task : String → Home.Task
task status = record { id = "t"; status = status; title = "" }

abbrev pr : String → Home.Pr
pr status = record { id = "p"; status = status; ai_review_status = none; title = none }

abbrev tasks : List Home.Task
tasks = task "queued" ∷ task "running" ∷ task "planning" ∷ []

abbrev prs : List Home.Pr
prs = pr "open" ∷ pr "merged" ∷ []

abbrev answers_of : Answers
answers_of = record {
  workers = thrown none;
  tasks = returned (value (statuses tasks));
  prs = returned (value (map (λ p. p.status) prs));
  interventions = thrown none;
}

counts_of-agree_example :
    let shown =
      λ (key : String). badge (count_at (some (counts_of answers_of)) (some key)) "accent" in
    (shown "queue" ≡ some (2, "accent")) × (shown "prs" ≡ some (1, "accent"))
unfolding n_fila n_prs_open
counts_of-agree_example = counts_of-agree tasks prs answers_of refl refl

sidebar-active_example :
    count (λ e. e.active) (entries (sidebar (λ n. "") "/queue" "pt" none).sections)
    ≡ (if contains (hrefs (all_items nav)) "/queue" then 1 else 0)
sidebar-active_example = sidebar-active (λ n. "") "/queue" "pt" none

abbrev report : String → Report
report status = record {
  id = "r";
  task_id = "tsk_1";
  status = status;
  tests_total = 4;
  tests_passed = 3;
  duration_ms = 1500;
  repo_id = "";
  branch = "main";
}

abbrev qa : Qa
qa = record { q = ""; state = "todos"; repo = "todos"; page = 0 }

-- The free plan, over its limit of tasks.
abbrev used : Usage
used = record {
  plan = "free";
  max_workers = some 2;
  active_workers = 1;
  week_seconds_used = 1800;
  week_cap_seconds = 3600;
}

abbrev usage : Page
usage = record fresh_page {
  u = value used;
  tel = value (record { tasks_total = 80; tokens_used = 1000 });
}

meters-fits_example :
    map (λ m. fits m.pct) (meters (λ n. "") (λ d n k. "") (λ pt en. pt) usage)
    ≡ true ∷ true ∷ true ∷ true ∷ []
meters-fits_example = meters-fits (λ n. "") (λ d n k. "") (λ pt en. pt) usage

sparkline-IsInside_example :
    (1 ≤ length (padded (3 ∷ [])) - 1) × All (IsInside 120 32) (sparkline 120 32 (3 ∷ []))
sparkline-IsInside_example = sparkline-IsInside 120 32 (3 ∷ []) (omega arith)
