-- ===== src/Telemetry.antt =====
-- The telemetry page (app/dashboard/app/telemetry/page.tsx): the numbers of a guarded poll, the meters
-- and the cards. `write` prints a number, `fixed` a quotient with one digit after the point.
pub mod Laws
use apifor_dev.Common.{
  percent, ℕ, zero, suc, ◌+◌, ◌-◌, ◌*◌, min, max, String, Option, none, some, List, [], ◌∷◌, map,
  ltb, leb, nat_eq, if◌then◌else◌, length,
}
use apifor_dev.Common.Text
use apifor_dev.Invoices.Dates.{two_digits}
use apifor_dev.Poll.{value, Maybe}
use apifor_dev.Series.{Series, use_series}

pub record Tel : Type 0 where
  pub tasks_total : ℕ
  pub tasks_merged : ℕ
  pub tasks_failed : ℕ
  pub tasks_active : ℕ
  pub tokens_used : ℕ
  pub pull_requests : ℕ
  pub week_worker_seconds : ℕ

abbrev pub no_tel : Tel
no_tel = record {
  tasks_total = 0;
  tasks_merged = 0;
  tasks_failed = 0;
  tasks_active = 0;
  tokens_used = 0;
  pull_requests = 0;
  week_worker_seconds = 0;
}

-- `t?.… ?? 0`, for every number of the answer.
unfoldable pub numbers : Maybe Tel → Tel
numbers (value t) = t
numbers _ = no_tel

-- `passRate`
unfoldable pub pass_rate : Tel → ℕ
pass_rate t = percent t.tasks_merged t.tasks_total

pub record Meter : Type 0 where
  pub label : String
  pub val : String
  pub pct_label : String
  pub pct : ℕ
  pub color : String

pub record Kpi : Type 0 where
  pub label : String
  pub value : String
  pub sub : String
  pub series : Option (List ℕ)

-- A worker of the list by consumption: its code, and the width of its bar.
abbrev pub worker_bar : ℕ → ℕ
worker_bar i = max 10 (100 - i * 14)

abbrev pub count_up : ℕ → ℕ → List ℕ
count_up zero i = []
count_up (suc n) i = i ∷ count_up n (i + 1)

-- A curve is drawn from two samples on.
abbrev pub curve : List ℕ → Option (List ℕ)
curve s = if ltb 1 (length s) then some s else none

-- The windows of `useSeries`.
pub record Curves : Type 0 where
  pub total : List ℕ
  pub merged : List ℕ
  pub failed : List ℕ
  pub active : List ℕ
  pub prs : List ℕ
  pub tokens : List ℕ

module _ (write : ℕ → String) (fixed : ℕ → ℕ → String) where
  unfoldable pub fmt_h : ℕ → String
  fmt_h s = if leb 3600 s then Text.append (fixed s 3600) "h" else Text.append (write s) "s"

  unfoldable pub fmt_tok : ℕ → String
  fmt_tok n =
      if leb 1000000 n
      then Text.append (fixed n 1000000) "M"
      else if leb 1000 n
      then Text.append (fixed n 1000) "K"
      else write n

  unfoldable pub sys_meters : Tel → List Meter
  unfolding pass_rate
  sys_meters t =
      record {
        label = "Workers ativos";
        val = write t.tasks_active;
        pct_label = Text.append (write t.tasks_active) " em uso";
        pct = min 100 (t.tasks_active * 20);
        color = "var(--blue)";
      }
      ∷ record {
        label = "Tarefas concluídas";
        val = write t.tasks_merged;
        pct_label = Text.append (write (pass_rate t)) "% taxa";
        pct = pass_rate t;
        color = "var(--green)";
      }
      ∷ record {
        label = "Tarefas com falha";
        val = write t.tasks_failed;
        pct_label =
            if nat_eq t.tasks_total 0
            then "—"
            else Text.append (write (percent t.tasks_failed t.tasks_total)) "%";
        pct = percent t.tasks_failed t.tasks_total;
        color = "var(--red)";
      }
      ∷ record {
        label = "Pull requests";
        val = write t.pull_requests;
        pct_label = Text.append (write t.pull_requests) " abertos";
        pct = min 100 (t.pull_requests * 5);
        color = "var(--orange)";
      }
      ∷ []

  unfoldable pub pipe_stats : Tel → List (String × (String × String))
  unfolding fmt_h
  pipe_stats t =
      ("Total tarefas", (write t.tasks_total, "var(--mute)"))
      ∷ ("Merged", (write t.tasks_merged, "var(--green)"))
      ∷ ("Falhas", (write t.tasks_failed, "var(--red)"))
      ∷ ("Ativas", (write t.tasks_active, "var(--blue)"))
      ∷ ("PRs", (write t.pull_requests, "var(--orange)"))
      ∷ ("Worker-hours", (fmt_h t.week_worker_seconds, "var(--accent)"))
      ∷ []

  -- The bars of the first workers, each with its code.
  unfoldable pub bars : ℕ → List (String × ℕ)
  unfolding two_digits
  bars n =
      map (λ i. (Text.append "w-" (two_digits (λ s. none) write (i + 1)), worker_bar i))
        (count_up n 0)

  -- The workers by consumption, six at most; `none` is the text for no active worker.
  unfoldable pub consumption : Tel → Option (List (String × ℕ))
  unfolding bars
  consumption t = if nat_eq t.tasks_active 0 then none else some (bars (min t.tasks_active 6))

  abbrev pub kpi : String → String → String → List ℕ → Kpi
  kpi label v sub s = record { label = label; value = v; sub = sub; series = curve s }

  unfoldable pub kpi_cards : Tel → Curves → List Kpi
  unfolding fmt_tok
  kpi_cards t c =
      kpi "Tarefas" (write t.tasks_total) "total" c.total
      ∷ kpi "Merged" (write t.tasks_merged) "concluídas" c.merged
      ∷ kpi "Falhas" (write t.tasks_failed) "gate vermelho" c.failed
      ∷ kpi "Ativas" (write t.tasks_active) "em andamento" c.active
      ∷ kpi "Pull Requests" (write t.pull_requests) "abertos + merged" c.prs
      ∷ kpi "Tokens" (fmt_tok t.tokens_used) "relay/coder/review" c.tokens
      ∷ []

  -- The three small cards: no cost, the merged tasks, the tokens.
  unfoldable pub small_cards : Tel → Curves → List Kpi
  unfolding fmt_tok
  small_cards t c =
      kpi "Custo" "$—" "" c.tokens
      ∷ kpi "Throughput" (Text.append (write t.tasks_merged) "/sem") "" c.merged
      ∷ kpi "Tokens hoje" (fmt_tok t.tokens_used) "" c.tokens
      ∷ []

-- One render: each number of the answer goes into its series, and the page reads the windows.
pub record AllSeries : Type 0 where
  pub s_total : Series
  pub s_merged : Series
  pub s_failed : Series
  pub s_active : Series
  pub s_prs : Series
  pub s_tokens : Series

unfoldable pub render : Tel → AllSeries → AllSeries
unfolding use_series
render t a = record {
  s_total = use_series 24 t.tasks_total a.s_total;
  s_merged = use_series 24 t.tasks_merged a.s_merged;
  s_failed = use_series 24 t.tasks_failed a.s_failed;
  s_active = use_series 24 t.tasks_active a.s_active;
  s_prs = use_series 24 t.pull_requests a.s_prs;
  s_tokens = use_series 24 t.tokens_used a.s_tokens;
}

abbrev pub curves : AllSeries → Curves
curves a = record {
  total = a.s_total.samples;
  merged = a.s_merged.samples;
  failed = a.s_failed.samples;
  active = a.s_active.samples;
  prs = a.s_prs.samples;
  tokens = a.s_tokens.samples;
}
