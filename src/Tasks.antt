-- ===== src/Tasks.antt =====
-- The tasks page (app/dashboard/app/tasks/page.tsx): the list with its filters and pages, and the
-- dialog that creates a task. Styles and static labels are left out.
pub mod Laws
use apifor_dev.Common.{
  ℕ, ◌+◌, String, ◌==◌, Bool, true, false, not, Option, none, some, List, ◌∷◌, map, nat_eq,
  if◌then◌else◌, length, filter, take_last,
}
use apifor_dev.Common.Text
use apifor_dev.Queue.{Row, Pager, pager, lit, repo_cell, state_filters, page_size}
use apifor_dev.Paging.{rows, next_page, prev_page, total_pages}
use apifor_dev.Async.{call, thrown, returned, set, done, Outcome, Script}
use apifor_dev.Pipeline.{Task, filtered}

-- The state of the page; the dialog's fields follow `new_open`. `reloads` counts the reloads of the
-- list that the page asked for.
pub record Tasks : Type 0 where
  pub q : String
  pub state : String
  pub source : String
  pub page : ℕ
  pub new_open : Bool
  pub title : String
  pub prompt : String
  pub refs : String
  pub repo : String
  pub creating : Bool
  pub reloads : ℕ

-- The body of the call that creates a task; `none` is a field left out.
pub record NewTask : Type 0 where
  pub title : String
  pub prompt : String
  pub refs : List String
  pub repo_id : Option String

-- `refs.split(",").map((s) => s.trim()).filter(Boolean)`
unfoldable pub split_refs : String → List String
split_refs refs = filter (λ s. not (s == "")) (map Text.trim (Text.split b',' refs))

unfoldable pub new_task : Tasks → NewTask
unfolding split_refs
new_task s = record {
  title = s.title;
  prompt = s.prompt;
  refs = split_refs s.refs;
  repo_id = if s.repo == "" then none else some s.repo;
}

abbrev pub creating_now : Tasks → Tasks
creating_now s = record s { creating = true }

-- What follows a created task.
abbrev pub created : Tasks → Tasks
created s = record s {
  new_open = false;
  title = "";
  prompt = "";
  refs = "";
  repo = "";
  reloads = s.reloads + 1;
}

abbrev pub finally : Script Tasks NewTask (Unit {0})
finally = set (λ s. record s { creating = false }) done

abbrev pub after_create : Outcome (Unit {0}) → Script Tasks NewTask (Unit {0})
after_create (returned r) = set created finally
after_create (thrown e) = finally

unfoldable pub create : Tasks → Script Tasks NewTask (Unit {0})
create s =
    if Text.trim s.title == "" then done else set creating_now (call (λ t. new_task s) after_create)

pub data Event : Type 0 where
  set_q set_state set_source set_title set_prompt set_refs set_repo : String → Event
  prev next open_new close_new : Event

pub record Dialog : Type 0 where
  pub title : String
  pub prompt : String
  pub refs : String
  pub repo : String
  pub repos : List (String × String)
  pub create_off : Bool
  pub create_label : String

pub record Screen : Type 0 where
  pub dialog : Option Dialog
  pub search : String
  pub pills : List (String × Bool)
  pub source : String
  pub list : List Row
  pub empty : Bool
  pub found : ℕ
  pub pages : Option Pager

unfoldable pub row : Task → Row
unfolding repo_cell
row t = record {
  key = t.id;
  code = Text.take_last 8 t.id;
  title = t.title;
  repo = repo_cell 28 t.repo_id;
  status = t.status;
}

abbrev dialog : List (String × String) → Tasks → Dialog
dialog repos s = record {
  title = s.title;
  prompt = s.prompt;
  refs = s.refs;
  repo = s.repo;
  repos = ("", "(sem repo — só planeja)") ∷ repos;
  create_off = s.creating;
  create_label = if s.creating then "Criando…" else "Criar → planejar";
}

module _ (lower : String → String) where
  unfoldable pub pages : List Task → Tasks → ℕ
  unfolding total_pages filtered
  pages tasks s = total_pages page_size (length (filtered lower s.state s.q tasks))

  unfoldable pub step : List Task → Event → Tasks → Tasks
  unfolding pages prev_page next_page
  step tasks (set_q v) s = record s { q = v; page = 0 }
  step tasks (set_state v) s = record s { state = v; page = 0 }
  step tasks (set_source v) s = record s { source = v }
  step tasks (set_title v) s = record s { title = v }
  step tasks (set_prompt v) s = record s { prompt = v }
  step tasks (set_refs v) s = record s { refs = v }
  step tasks (set_repo v) s = record s { repo = v }
  step tasks prev s = record s { page = prev_page s.page }
  step tasks next s = record s { page = next_page (pages tasks s) s.page }
  step tasks open_new s = record s { new_open = true }
  step tasks close_new s = record s { new_open = false }

  unfoldable pub screen : List Task → List (String × String) → Tasks → Screen
  unfolding pages filtered rows row pager
  screen tasks repos s =
      let shown = filtered lower s.state s.q tasks in
      let visible = rows page_size s.page shown in
      record {
        dialog = if s.new_open then some (dialog repos s) else none;
        search = s.q;
        pills = lit s.state state_filters;
        source = s.source;
        list = map row visible;
        empty = nat_eq (length visible) 0;
        found = length shown;
        pages = pager (pages tasks s) s.page;
      }
