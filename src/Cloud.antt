-- ===== src/Cloud.antt =====
-- The page of the cloud instances (app/dashboard/app/cloud/page.tsx), whose data live in the page
-- only. `toLowerCase`, the printing of numbers and the random part of an id are parameters.
pub mod Number
pub mod Laws
pub mod Totals
use apifor_dev.Common.{
  ℕ, String, ◌==◌, Bool, true, false, ◌&&◌, ◌||◌, not, Option, none, some, List, [], ◌∷◌, map,
  if◌then◌else◌, length, filter,
}
use apifor_dev.Common.Text
use apifor_dev.Paging.{next_page, total_pages, prev_page}

pub record Node : Type 0 where
  pub id : String
  pub region : String
  pub specs : String
  pub type : String
  pub workers : ℕ
  pub cpu_pct : ℕ
  pub mem_pct : ℕ
  pub status : String
  pub pinned : Bool
  pub paused : Bool

-- The form of a new instance.
pub record Form : Type 0 where
  pub region : String
  pub type : String
  pub min_w : String
  pub max_w : String

abbrev pub blank_form : Form
blank_form = record { region = "sa-east-1"; type = "standard"; min_w = "1"; max_w = "4" }

-- The state of the page; `waiting` is the form of the creation whose timer runs.
pub record Cloud : Type 0 where
  pub nodes : List Node
  pub q : String
  pub region : String
  pub status : String
  pub page : ℕ
  pub new_open : Bool
  pub nf : Form
  pub creating : Bool
  pub waiting : Option Form

unfoldable pub initial : List Node → Cloud
initial nodes = record {
  nodes = nodes;
  q = "";
  region = "todas";
  status = "todos";
  page = 0;
  new_open = false;
  nf = blank_form;
  creating = false;
  waiting = none;
}

-- The user's actions, and the timer of a creation with the id it draws.
pub data Event : Type 0 where
  set_q set_region set_status toggle_pause del_node : String → Event
  edit : (Form → Form) → Event
  prev next open_new close_new create : Event
  timer : String → Event

unfoldable pub toggle_in : String → List Node → List Node
toggle_in id nodes = map (λ n. if n.id == id then record n { paused = not n.paused } else n) nodes

unfoldable pub del_in : String → List Node → List Node
del_in id nodes = filter (λ n. not (n.id == id)) nodes

unfoldable pub specs_of : String → String
specs_of type =
    if type == "memory"
    then "8 vCPU · 32 GB"
    else if type == "compute"
    then "8 vCPU · 16 GB"
    else "4 vCPU · 8 GB"

unfoldable pub new_node : String → Form → Node
unfolding specs_of
new_node id f = record {
  id = Text.append "cld-" id;
  region = f.region;
  specs = specs_of f.type;
  type = f.type;
  workers = 0;
  cpu_pct = 0;
  mem_pct = 0;
  status = "ocioso";
  pinned = false;
  paused = false;
}

-- What follows the wait of `createNode`.
abbrev pub created : String → Option Form → Cloud → Cloud
created id none s = s
created id (some f) s = record s {
  nodes = new_node id f ∷ s.nodes;
  creating = false;
  new_open = false;
  nf = blank_form;
  waiting = none;
}

module _ (lower : String → String) where
  unfoldable pub found_by : String → Node → Bool
  found_by q n =
      (q == "")
      || Text.includes n.id q
      || Text.includes n.region q
      || Text.includes (lower n.specs) q

  unfoldable pub filtered : Cloud → List Node
  unfolding found_by
  filtered s = filter (found_by s.q) (
      filter (λ n. (s.status == "todos") || (n.status == s.status))
        (filter (λ n. (s.region == "todas") || (n.region == s.region)) s.nodes))

  unfoldable pub pages : Cloud → ℕ
  unfolding filtered total_pages
  pages s = total_pages 5 (length (filtered s))

  -- The button "Criar instância" is off while a creation waits.
  unfoldable pub step : Event → Cloud → Cloud
  unfolding pages prev_page next_page toggle_in del_in new_node
  step (set_q v) s = record s { q = v; page = 0 }
  step (set_region v) s = record s { region = v; page = 0 }
  step (set_status v) s = record s { status = v; page = 0 }
  step (toggle_pause id) s = record s { nodes = toggle_in id s.nodes }
  step (del_node id) s = record s { nodes = del_in id s.nodes }
  step (edit f) s = record s { nf = f s.nf }
  step prev s = record s { page = prev_page s.page }
  step next s = record s { page = next_page (pages s) s.page }
  step open_new s = record s { new_open = true }
  step close_new s = record s { new_open = false }
  step create s =
      if s.new_open && not s.creating then record s { creating = true; waiting = some s.nf } else s
  step (timer id) s = created id s.waiting s

  unfoldable pub steps : List Event → Cloud → Cloud
  unfolding step
  steps [] s = s
  steps (e ∷ es) s = steps es (step e s)
