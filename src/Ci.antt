-- ===== src/Ci.antt =====
-- The page of the CI runs (app/dashboard/app/ci/page.tsx): the cards, the filters, the rows and the
-- events. Styles and static labels are left out. A percentage with one decimal and the age of a run
-- are parameters: a quotient of the language's numbers, and the clock.
pub mod Laws
use apifor_dev.Common.{
  ℕ, ◌+◌, String, ◌==◌, Bool, true, ◌||◌, Option, List, [], ◌∷◌, map, nat_eq, if◌then◌else◌, length,
  filter, count,
}
use apifor_dev.Common.Text
use apifor_dev.Logs.{bare}
use apifor_dev.Paging.{rows, next_page, prev_page, total_pages}
use apifor_dev.Interventions.{or_dash, short}
use apifor_dev.Queue.{lit, pager, Pager}
use apifor_dev.Choices.{choices}
use apifor_dev.Prs.{ci_color}

pub record Run : Type 0 where
  pub id : String
  pub provider : String
  pub status : String
  pub task_id : String
  pub branch : String
  pub repo_id : String
  pub finished_at : String

abbrev pub state_opts : List (String × String)
state_opts =
    ("todos", "Todos") ∷ ("verde", "Verde") ∷ ("falhou", "Falhou") ∷ ("rodando", "Rodando") ∷ []

unfoldable pub match_state : String → String → Bool
match_state f s =
    if f == "todos"
    then true
    else if f == "verde"
    then s == "passed"
    else if f == "falhou"
    then s == "failed"
    else if f == "rodando"
    then s == "running"
    else true

unfoldable pub providers : List Run → List String
providers runs = choices (map (λ (r : Run). r.provider) runs)

-- How many runs have a status.
abbrev pub tally : String → List Run → ℕ
tally st runs = count (λ r. r.status == st) runs

-- The cards: a label and a value.
unfoldable pub cards : (ℕ → ℕ → String) → (ℕ → String) → List Run → List (String × String)
cards percent print runs =
    let passed = tally "passed" runs in
    let failed = tally "failed" runs in
    let pct = if nat_eq (passed + failed) 0 then "—" else percent passed (passed + failed) in
    ("CI verde (24h)", Text.append pct "%")
    ∷ ("Execuções", print (length runs))
    ∷ ("Falhas", print failed)
    ∷ ("Rodando", print (tally "running" runs))
    ∷ []

pub record Ci : Type 0 where
  pub q : String
  pub state : String
  pub conn : String
  pub page : ℕ

pub data Event : Type 0 where
  set_q set_state set_conn : String → Event
  prev next : Event

pub record Row : Type 0 where
  pub code : String
  pub title : String
  pub repo : String
  pub provider : String
  pub dot : String
  pub running : Bool
  pub badge : String
  pub status : String
  pub age : String

-- The look of a status as a task's.
abbrev badge_of : String → String
badge_of s = if s == "passed" then "merged" else if s == "failed" then "failed" else "queued"

unfoldable pub row : (String → String) → Run → Row
unfolding short ci_color
row age_of r = record {
  code = Text.append "#" (short 6 (bare r.task_id));
  title = if r.branch == "" then r.task_id else r.branch;
  repo = if r.repo_id == "" then "—" else short 28 r.repo_id;
  provider = or_dash r.provider;
  dot = ci_color r.status;
  running = r.status == "running";
  badge = badge_of r.status;
  status = r.status;
  age = age_of r.finished_at;
}

-- What the select of connections offers when no run names a provider.
abbrev usual : List String
usual = "GitHub Actions" ∷ "SonarCloud" ∷ "CircleCI" ∷ []

abbrev offered : List String → List String
offered [] = "todas" ∷ usual
offered (p ∷ ps) = "todas" ∷ p ∷ ps

pub record Screen : Type 0 where
  pub cards : List (String × String)
  pub search : String
  pub options : List String
  pub conn : String
  pub pills : List (String × Bool)
  pub table : List Row
  pub empty : Bool
  pub found : ℕ
  pub pages : Option Pager

module _ (lower : String → String) where
  unfoldable pub found_by : String → Run → Bool
  found_by q r =
      q == ""
      || Text.includes
          (lower (Text.append (Text.append (Text.append r.task_id r.branch) r.repo_id) r.provider))
          (lower q)

  unfoldable pub filtered : Ci → List Run → List Run
  filtered s runs = filter (found_by s.q) (
      filter (λ r. s.conn == "todas" || r.provider == s.conn)
        (filter (λ r. match_state s.state r.status) runs))

  unfoldable pub pages : List Run → Ci → ℕ
  unfolding total_pages filtered
  pages runs s = total_pages 20 (length (filtered s runs))

  unfoldable pub step : List Run → Event → Ci → Ci
  unfolding pages prev_page next_page
  step runs (set_q v) s = record s { q = v; page = 0 }
  step runs (set_state v) s = record s { state = v; page = 0 }
  step runs (set_conn v) s = record s { conn = v; page = 0 }
  step runs prev s = record s { page = prev_page s.page }
  step runs next s = record s { page = next_page (pages runs s) s.page }

  unfoldable pub screen :
      (ℕ → ℕ → String) → (ℕ → String) → (String → String) → List Run → Ci → Screen
  unfolding pages filtered rows row pager cards providers
  screen percent print age_of runs s =
      let shown = filtered s runs in
      let visible = rows 20 s.page shown in
      record {
        cards = cards percent print runs;
        search = s.q;
        options = offered (providers runs);
        conn = s.conn;
        pills = lit s.state state_opts;
        table = map (row age_of) visible;
        empty = nat_eq (length visible) 0;
        found = length shown;
        pages = pager (pages runs s) s.page;
      }
