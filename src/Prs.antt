-- ===== src/Prs.antt =====
-- The page of the pull requests (app/dashboard/app/prs/page.tsx): the tabs, the search, the rows and
-- the events. Styles, apart from the colours that tell a state, and static labels are left out.
pub mod Laws
use apifor_dev.Common.{
  ℕ, String, ◌==◌, Bool, true, ◌&&◌, ◌||◌, not, Option, none, some, List, [], ◌∷◌, ◌++◌, map,
  nat_eq, if◌then◌else◌, length, drop, filter,
}
use apifor_dev.Common.Text
use apifor_dev.Paging.{next_page, rows, prev_page, total_pages}
use apifor_dev.Interventions.{hash, or_dash, short}
use apifor_dev.Queue.{lit, pager, Pager}

pub record Pr : Type 0 where
  pub id : String
  pub task_id : String
  pub repo_id : String
  pub branch : String
  pub url : Option String
  pub status : String
  pub ci_status : String
  pub ai_review_status : String
  pub human_review_status : String
  pub created_at : String

abbrev pub tabs : List (String × String)
tabs = ("todos", "Todos") ∷ ("revisao", "Em revisão") ∷ ("ci", "CI falhou") ∷ []

unfoldable pub match_tab : String → Pr → Bool
match_tab tab p =
    if tab == "todos"
    then true
    else if tab == "revisao"
    then not (p.status == "merged") && not (p.status == "failed")
    else if tab == "ci"
    then p.ci_status == "failed"
    else true

unfoldable pub ci_color : String → String
ci_color s =
    if s == "passed"
    then "var(--green)"
    else if s == "failed"
    then "var(--red)"
    else if s == "running"
    then "var(--blue)"
    else "var(--mute)"

pub record Pill : Type 0 where
  pub bg : String
  pub color : String
  pub label : String

-- A person's verdict goes before that of the reviewing model.
unfoldable pub review_pill : String → String → Pill
review_pill ai human =
    let s = if human == "" then ai else human in
    if s == "approved"
    then record { bg = "var(--green-tint)"; color = "var(--green)"; label = "aprovado" }
    else if s == "changes"
    then record { bg = "var(--red-tint)"; color = "var(--red)"; label = "mudanças" }
    else if s == "pending"
    then record { bg = "var(--orange-tint)"; color = "var(--orange)"; label = "pendente" }
    else record { bg = "var(--border)"; color = "var(--mute)"; label = or_dash s }

pub record Prs : Type 0 where
  pub q : String
  pub tab : String
  pub source : String
  pub page : ℕ

pub data Event : Type 0 where
  set_q set_tab set_source : String → Event
  prev next : Event

-- One row: the number, its title, the line below it, the two colours of the review, and the link.
pub record Row : Type 0 where
  pub code : String
  pub title : String
  pub below : List String
  pub ci : String
  pub running : Bool
  pub review : Pill
  pub status : String
  pub age : String
  pub link : Option String

-- `s.replace(/^pr_/, "")`
abbrev bare_pr : String → String
bare_pr id = if Text.starts_with id "pr_" then Text.drop 3 id else id

abbrev below : String → String → List String
below repo_id task_id =
    (if repo_id == "" then [] else short 20 repo_id ∷ [])
    ++ (if not (repo_id == "") && not (task_id == "") then "·" ∷ [] else [])
    ++ (if task_id == "" then [] else short 10 (hash task_id) ∷ [])

abbrev link_of : Option String → Option String
link_of none = none
link_of (some url) = if Text.starts_with url "http" then some url else none

module _ (age_of : String → String) where
  -- `age_of` reads the clock.
  unfoldable pub row : Pr → Row
  unfolding short hash ci_color review_pill
  row p = record {
    code = short 6 (bare_pr p.id);
    title = if p.branch == "" then p.task_id else p.branch;
    below = below p.repo_id p.task_id;
    ci = ci_color p.ci_status;
    running = p.ci_status == "running";
    review = review_pill p.ai_review_status p.human_review_status;
    status = p.status;
    age = age_of p.created_at;
    link = link_of p.url;
  }

pub record Screen : Type 0 where
  pub search : String
  pub source : String
  pub pills : List (String × Bool)
  pub table : List Row
  pub empty : Bool
  pub found : ℕ
  pub pages : Option Pager

module _ (lower : String → String) where
  unfoldable pub found_by : String → Pr → Bool
  found_by q p =
      q == ""
      || Text.includes (lower (Text.append (Text.append p.branch p.task_id) p.repo_id)) (lower q)

  unfoldable pub filtered : Prs → List Pr → List Pr
  filtered s prs = filter (found_by s.q) (filter (match_tab s.tab) prs)

  unfoldable pub pages : List Pr → Prs → ℕ
  unfolding total_pages filtered
  pages prs s = total_pages 20 (length (filtered s prs))

  unfoldable pub step : List Pr → Event → Prs → Prs
  unfolding pages prev_page next_page
  step prs (set_q v) s = record s { q = v; page = 0 }
  step prs (set_tab v) s = record s { tab = v; page = 0 }
  step prs (set_source v) s = record s { source = v }
  step prs prev s = record s { page = prev_page s.page }
  step prs next s = record s { page = next_page (pages prs s) s.page }

  unfoldable pub screen : (String → String) → List Pr → Prs → Screen
  unfolding pages filtered rows row pager
  screen age_of prs s =
      let shown = filtered s prs in
      let visible = rows 20 s.page shown in
      record {
        search = s.q;
        source = s.source;
        pills = lit s.tab tabs;
        table = map (row age_of) visible;
        empty = nat_eq (length visible) 0;
        found = length shown;
        pages = pager (pages prs s) s.page;
      }
