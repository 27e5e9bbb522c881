-- ===== src/Home.antt =====
-- The home page of the dashboard (app/dashboard/app/page.tsx): what it computes of the workers, the
-- tasks, the pull requests, the interventions, the logs and the usage, and its own state. The curves
-- of the small charts are left out.
pub mod Spark
pub mod Showing
pub mod Screen
pub mod Cards
pub mod Attention
pub mod Feed
pub mod Laws
use apifor_dev.Common.{
  ℕ, ◌+◌, ◌*◌, ◌/◌, String, ◌==◌, Bool, true, ◌&&◌, not, Option, none, some, List, [], ◌∷◌, map,
  ltb, nat_eq, if◌then◌else◌, default, length, take, filter, count, contains,
}
use apifor_dev.Session.{truthy}

pub record Task : Type 0 where
  pub id : String
  pub status : String
  pub title : String

pub record Pr : Type 0 where
  pub id : String
  pub status : String
  pub ai_review_status : Option String
  pub title : Option String

pub record Worker : Type 0 where
  pub id : String
  pub status : String
  pub current_step : Option String
  pub current_task_id : Option String

pub record Usage : Type 0 where
  pub max_workers : ℕ
  pub week_cap_seconds : ℕ
  pub week_seconds_used : ℕ

-- The five boxes of the tasks: label, tone, statuses.
abbrev pub buckets : List (String × (String × List String))
buckets =
    ("Na fila", ("orange", "queued" ∷ "planning" ∷ "assigned" ∷ []))
    ∷ ("Em execução", ("blue", "running" ∷ []))
    ∷ ("Em revisão", ("accent", "in_review" ∷ "blocked" ∷ []))
    ∷ ("Concluídas", ("green", "merged" ∷ []))
    ∷ ("Falhas", ("red", "failed" ∷ []))
    ∷ []

abbrev pub with_status : List String → List Task → ℕ
with_status ss tasks = count (λ x. contains ss x.status) tasks

unfoldable pub counts : List Task → List (String × (String × ℕ))
counts tasks = map (λ b. (b.0, (b.1.0, with_status b.1.1 tasks))) buckets

unfoldable pub n_fila : List Task → ℕ
n_fila tasks = with_status ("queued" ∷ "planning" ∷ "assigned" ∷ []) tasks

unfoldable pub n_prs_open : List Pr → ℕ
n_prs_open prs = count (λ x. not (x.status == "merged")) prs

unfoldable pub n_merged : List Task → ℕ
n_merged tasks = count (λ x. x.status == "merged") tasks

unfoldable pub n_failed : List Task → ℕ
n_failed tasks = count (λ x. x.status == "failed") tasks

unfoldable pub ai_tot : List Pr → ℕ
ai_tot prs = count (λ x. truthy x.ai_review_status) prs

unfoldable pub ai_ok : List Pr → ℕ
ai_ok prs = count (λ x. default "" x.ai_review_status == "approved") prs

-- `aiTot ? Math.round((100 * aiOk) / aiTot) : 0`
unfoldable pub ai_pct : List Pr → ℕ
unfolding ai_tot ai_ok
ai_pct prs = let n = ai_tot prs in if nat_eq n 0 then 0 else (2 * (100 * ai_ok prs) + n) / (2 * n)

-- The pool as the hero shows it: `poolPaused` is the page's own.
unfoldable pub running : List Worker → Bool → Bool
running ws paused = ltb 0 (length ws) && not paused

unfoldable pub pool : List Worker → Bool → String × String
unfolding running
pool ws paused =
    if paused
    then ("PAUSADO", "var(--red)")
    else if running ws paused
    then ("RODANDO", "var(--green)")
    else ("PARADO", "var(--mute)")

-- The tasks that come next, three at most.
unfoldable pub proximas : List Task → List Task
proximas tasks = take 3 (filter (λ x. contains ("queued" ∷ "planning" ∷ []) x.status) tasks)

abbrev week_used : Option Usage → ℕ
week_used none = 0
week_used (some u) = u.week_seconds_used

abbrev week_cap : Option Usage → ℕ
week_cap none = 129600
week_cap (some u) = u.week_cap_seconds

-- Whether the share of the week's seconds in their cap exceeds `n` percent, as
-- `Math.min(100, used / cap * 100) > n` for `n < 100`; a cap of 0 counts as no use.
abbrev pub exceeds : ℕ → Option Usage → Bool
exceeds n u = ltb 0 (week_cap u) && ltb (n * week_cap u) (100 * week_used u)

unfoldable pub spend_color : Option Usage → String
spend_color u =
    if exceeds 80 u then "var(--red)" else if exceeds 60 u then "var(--orange)" else "var(--green)"

unfoldable pub filtered_prs : String → List Pr → List Pr
filtered_prs tab prs =
    filter
      (λ p.
        if tab == "revisao"
        then p.status == "in_review"
        else if tab == "ci"
        then default "" p.ai_review_status == "failed"
        else true)
      prs

-- The six numbers at the top, with their units.
unfoldable pub kpis : List Worker → List Task → List Pr → List (String × (ℕ × String))
unfolding n_fila n_prs_open n_merged n_failed ai_pct
kpis ws tasks prs =
    ("Workers ativos", (length ws, ""))
    ∷ ("Fila", (n_fila tasks, ""))
    ∷ ("PRs abertos", (n_prs_open prs, ""))
    ∷ ("Concluídas", (n_merged tasks, ""))
    ∷ ("Aprovação IA", (ai_pct prs, "%"))
    ∷ ("Falhas", (n_failed tasks, ""))
    ∷ []
