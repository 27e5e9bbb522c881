-- ===== src/Queue.antt =====
-- The queue page (app/dashboard/app/queue/page.tsx): what it shows of the tasks, and its events.
-- Styles and the static labels of the table are left out.
pub mod Laws
use apifor_dev.Common.{
  ℕ, ◌+◌, String, ◌==◌, Bool, Option, none, some, List, [], ◌∷◌, map, ltb, nat_eq, if◌then◌else◌,
  length, take, take_last,
}
use apifor_dev.Common.Text
use Prim.Native.String
use apifor_dev.Paging.{
  safe_page, next_disabled, next_page, rows, total_pages, prev_disabled, prev_page,
}
use apifor_dev.Pipeline.{bucket_counts, Task, Segment, filtered}

-- The state of the page: the search, the filters and the page asked for.
pub record Queue : Type 0 where
  pub q : String
  pub state : String
  pub source : String
  pub provider : String
  pub page : ℕ

unfoldable pub initial : Queue
initial = record { q = ""; state = "todos"; source = "todas"; provider = "todos"; page = 0 }

abbrev pub page_size : ℕ
page_size = 20

abbrev pub state_filters : List (String × String)
state_filters =
    ("todos", "Todos")
    ∷ ("andamento", "Em andamento")
    ∷ ("fila", "Na fila")
    ∷ ("encerrado", "Encerrados")
    ∷ []

pub data Event : Type 0 where
  set_q set_state set_source set_provider : String → Event
  prev next : Event

-- One row of the table.
pub record Row : Type 0 where
  pub key : String
  pub code : String
  pub title : String
  pub repo : String
  pub status : String

-- `{t.repo_id ? t.repo_id.slice(0, n) : "—"}`
unfoldable pub repo_cell : ℕ → Option String → String
repo_cell n none = "—"
repo_cell n (some r) = if r == "" then "—" else Text.take n r

unfoldable pub row : Task → Row
unfolding repo_cell
row t = record {
  key = t.id;
  code = Text.take_last 8 t.id;
  title = t.title;
  repo = repo_cell 24 t.repo_id;
  status = t.status;
}

-- The two buttons and the label "3 / 7" as its numbers; shown only with more than one page.
pub record Pager : Type 0 where
  pub at : ℕ
  pub of : ℕ
  pub prev_off : Bool
  pub next_off : Bool

unfoldable pub pager : ℕ → ℕ → Option Pager
unfolding prev_disabled next_disabled safe_page
pager total page =
    if ltb 1 total
    then some (record {
      at = safe_page page total + 1;
      of = total;
      prev_off = prev_disabled total page;
      next_off = next_disabled total page;
    })
    else none

pub record Screen : Type 0 where
  pub bar : List Segment
  pub search : String
  pub pills : List (String × Bool)
  pub source : String
  pub provider : String
  pub table : List Row
  pub empty : Bool
  pub found : ℕ
  pub pages : Option Pager

-- The pills with the one that is lit.
abbrev pub lit : String → List (String × String) → List (String × Bool)
lit value options = map (λ o. (o.1, value == o.0)) options

module _ (lower : String → String) where
  -- The number of pages of what the filters leave.
  unfoldable pub pages : List Task → Queue → ℕ
  unfolding total_pages filtered
  pages tasks s = total_pages page_size (length (filtered lower s.state s.q tasks))

  unfoldable pub step : List Task → Event → Queue → Queue
  unfolding pages prev_page next_page
  step tasks (set_q v) s = record s { q = v; page = 0 }
  step tasks (set_state v) s = record s { state = v; page = 0 }
  step tasks (set_source v) s = record s { source = v }
  step tasks (set_provider v) s = record s { provider = v }
  step tasks prev s = record s { page = prev_page s.page }
  step tasks next s = record s { page = next_page (pages tasks s) s.page }

  unfoldable pub screen : List Task → Queue → Screen
  unfolding pages filtered rows row pager bucket_counts
  screen tasks s =
      let shown = filtered lower s.state s.q tasks in
      let visible = rows page_size s.page shown in
      record {
        bar = bucket_counts tasks;
        search = s.q;
        pills = lit s.state state_filters;
        source = s.source;
        provider = s.provider;
        table = map row visible;
        empty = nat_eq (length visible) 0;
        found = length shown;
        pages = pager (pages tasks s) s.page;
      }
