-- ===== src/Home/Cards.antt =====
-- The cards of the home page (app/dashboard/app/page.tsx): the live workers, the pull requests, the
-- states, the six numbers, the week and the small graphs. `write` prints a number, `fixed` a quotient
-- with so many digits after the point.
use apifor_dev.Common.{
  ℕ, ◌*◌, String, ◌==◌, Bool, not, Option, List, [], ◌∷◌, map, ltb, nat_eq, if◌then◌else◌, default,
  length, filter,
}
use apifor_dev.Common.Text
use apifor_dev.Home.{
  Task, proximas, Worker, Pr, ai_tot, ai_ok, running, filtered_prs, counts, Usage, kpis, week_cap,
  week_used,
}
use apifor_dev.Interventions.{short}
use apifor_dev.Home.Spark.{spark_path}
use apifor_dev.Home.Screen.{slots_of, plan_of, Home, Plan}
use apifor_dev.Queue.{lit}

-- A worker of the live card.
pub record WorkerLine : Type 0 where
  pub id : String
  pub color : String
  pub moves : Bool
  pub paused : Bool
  pub task : String
  pub words : String
  pub status : String
  pub step : String

unfoldable pub worker_line : Worker → WorkerLine
unfolding short
worker_line x =
    let busy = not (default "" x.current_task_id == "") in
    record {
      id = short 16 x.id;
      color =
          if x.status == "running"
          then "var(--green)"
          else if x.status == "paused"
          then "var(--red)"
          else "var(--mute)";
      moves = x.status == "running";
      paused = x.status == "paused";
      task = if busy then short 12 (default "" x.current_task_id) else "";
      words = if busy then "tarefa em andamento" else "aguardando";
      status = x.status;
      step =
          if default "" x.current_step == ""
          then "aguardando tarefa"
          else default "" x.current_step;
    }

-- The live card: the word of its head, and its lines, none for the text without a worker.
unfoldable pub live_card : List Worker → Home → String × List WorkerLine
unfolding running worker_line
live_card ws s = (
  if s.pool_paused then "pausado" else if running ws s.pool_paused then "ao vivo" else "parado",
  map worker_line ws,
)

-- A pull request of the card, and the card.
pub record PrLine : Type 0 where
  pub id : String
  pub title : String
  pub review : String
  pub status : String
  pub code : String

unfoldable pub pr_line : Pr → PrLine
unfolding short
pr_line p = record {
  id = short 8 p.id;
  title = default "Pull request" p.title;
  review = default "pendente" p.ai_review_status;
  status = p.status;
  code = short 6 p.id;
}

pub record PrCard : Type 0 where
  pub tabs : List (String × Bool)
  pub lines : List PrLine
  pub total : ℕ

unfoldable pub pr_card : List Pr → Home → PrCard
unfolding filtered_prs pr_line
pr_card prs s = record {
  tabs = lit s.pr_tab (("todos", "Todos") ∷ ("revisao", "Em revisão") ∷ ("ci", "CI falhou") ∷ []);
  lines = map pr_line (filtered_prs s.pr_tab prs);
  total = length (filtered_prs s.pr_tab prs);
}

-- The card of the states: the number of tasks, a segment for each box that is not empty, the legend,
-- and the tasks that come next.
pub record StateCard : Type 0 where
  pub total : ℕ
  pub segments : List (String × ℕ)
  pub legend : List (String × ℕ)
  pub next : List (String × String)

abbrev pub box_of : String × (String × ℕ) → String × ℕ
box_of b = (b.0, b.1.1)

unfoldable pub state_card : List Task → StateCard
unfolding counts proximas short
state_card tasks = record {
  total = length tasks;
  segments = filter (λ (b : String × ℕ). ltb 0 b.1) (map box_of (counts tasks));
  legend = map box_of (counts tasks);
  next = map (λ q. (short 8 q.id, q.title)) (proximas tasks);
}

-- A card of the six numbers: the text below it, and the curve.
pub record Kpi : Type 0 where
  pub label : String
  pub value : ℕ
  pub unit : String
  pub sub : String
  pub curve : String × String

abbrev pub curve_data : List ℕ → ℕ → List ℕ
curve_data series v = if ltb 1 (length series) then series else 0 ∷ v ∷ []

module _ (fixed : ℕ → ℕ → ℕ → String) (write : ℕ → String) where
  abbrev pub kpi_card : String × (ℕ × String) → String → List ℕ → Kpi
  kpi_card k sub series = record {
    label = k.0;
    value = k.1.0;
    unit = k.1.1;
    sub = sub;
    curve = spark_path (fixed 1) write 120 30 (curve_data series k.1.0);
  }

  -- The texts below the six numbers, in their order.
  unfoldable pub kpi_subs : Option Plan → List Pr → List String
  unfolding ai_ok ai_tot
  kpi_subs u prs =
      Text.append "de " (Text.append (write (slots_of u)) " slot(s)")
      ∷ "aguardando"
      ∷ "revisão/merge"
      ∷ "merge realizado"
      ∷ Text.append (write (ai_ok prs)) (Text.append "/" (Text.append (write (ai_tot prs)) " PRs"))
      ∷ "no ciclo"
      ∷ []

  abbrev pub zip_cards : List (String × (ℕ × String)) → List String → List (List ℕ) → List Kpi
  zip_cards (k ∷ ks) (t ∷ ts) (s ∷ ss) = kpi_card k t s ∷ zip_cards ks ts ss
  zip_cards _ _ _ = []

  unfoldable pub kpi_cards :
      List Worker → List Task → List Pr → Option Plan → List (List ℕ) → List Kpi
  unfolding kpis kpi_subs spark_path
  kpi_cards ws tasks prs u series = zip_cards (kpis ws tasks prs) (kpi_subs u prs) series

  -- The week's hours: the cap, the use, the share of it, and the plan.
  unfoldable pub spend : Option Usage → Option Plan → List String
  spend usage u =
      Text.append "teto " (Text.append (fixed 0 (week_cap usage) 3600) "h")
      ∷ Text.append (fixed 1 (week_used usage) 3600) "h"
      ∷ Text.append
          (if nat_eq (week_cap usage) 0
            then fixed 1 0 1
            else if ltb (week_cap usage) (week_used usage)
            then fixed 1 100 1
            else fixed 1 (100 * week_used usage) (week_cap usage))
          "% do teto"
      ∷ plan_of u
      ∷ []

  -- The two small graphs of the telemetry.
  unfoldable pub mini : ℕ → ℕ → List ℕ → List ℕ → List (String × (String × String))
  unfolding spark_path
  mini merged tokens s_thr s_tel =
      (
        Text.append (write merged) " tasks",
        spark_path (fixed 1) write 150 30 (curve_data s_thr merged),
      )
      ∷ (
        Text.append (fixed 1 tokens 1000) "k",
        spark_path (fixed 1) write 150 30 (curve_data s_tel tokens),
      )
      ∷ []
