-- ===== src/Config/Actions.antt =====
-- What the user can do in the connection dialogs of the settings page
-- (app/dashboard/app/config/page.tsx), and the page under way: actions begun and answers arriving
-- in any order. A handler reads the state of the render in which it was started.
use apifor_dev.Common.{
  ℕ, String, Bool, false, none, some, List, [], ◌∷◌, nat_eq, if◌then◌else◌, any,
}
use apifor_dev.Async.{done, step, set, Event, Outcome, Running, begin, reply}
use apifor_dev.Config.{IntFields, Body, Request, Handler, Config, TaskFields}
use apifor_dev.Config.Ia.{claude_start, claude_submit_code, connect_api_key, test_api_key, reset_ia}
use apifor_dev.Config.Github.{start_github_device, reset_int, reset_task, tick, reset_git}
use apifor_dev.Config.Git.{disconnect_git, connect_git, test_git}
use apifor_dev.Config.Tasks.{disconnect_task, connect_task, test_task}
use apifor_dev.Config.Integrations.{disconnect_int, connect_int, test_int}

pub data Action : Type 0 where
  close_ia close_git close_task close_int : Action
  open_ia open_git open_task open_int : String → Action
  type_ia type_code : String → Action
  type_git : String → String → Action
  type_task : TaskFields → Action
  type_int : IntFields → Action
  try_ia try_git try_task try_int : Action
  send_ia send_code send_git send_task send_int : Action
  authorize_claude : Action
  authorize_github : String → Action
  drop_git drop_task drop_int : String → Action
  interval : ℕ → Action

abbrev only : (Config → Config) → Handler
only f = set f done

-- The callback of an interval that the browser still runs.
unfoldable pub interval_of : ℕ → Config → Handler
interval_of id c = if any (λ t. nat_eq t.0 id) c.gh.timers then tick else done

unfoldable pub handler : Bool → Action → Config → Handler
unfolding interval_of
handler tauri close_ia c = only reset_ia
handler tauri close_git c = only reset_git
handler tauri close_task c = only reset_task
handler tauri close_int c = only reset_int
handler tauri (open_ia m) c = only (λ s. record s {
  ia = record s.ia { await_code = false; url = ""; code = ""; err = ""; modal = some m };
})
handler tauri (open_git m) c =
    set reset_git (only (λ s. record s { git = record s.git { modal = some m } }))
handler tauri (open_task m) c =
    set reset_task (only (λ s. record s { task = record s.task { modal = some m } }))
handler tauri (open_int m) c =
    set reset_int (only (λ s. record s { int = record s.int { modal = some m } }))
handler tauri (type_ia v) c = only (λ s. record s { ia = record s.ia { api_key = v; test = none } })
handler tauri (type_code v) c = only (λ s. record s { ia = record s.ia { code = v } })
handler tauri (type_git v w) c =
    only (λ s. record s { git = record s.git { token = v; user = w; test = none } })
handler tauri (type_task f) c = only (λ s. record s { task = record s.task { f = f; test = none } })
handler tauri (type_int f) c = only (λ s. record s { int = record s.int { f = f; test = none } })
handler tauri try_ia c = test_api_key c
handler tauri try_git c = test_git c
handler tauri try_task c = test_task c
handler tauri try_int c = test_int c
handler tauri send_ia c = connect_api_key
handler tauri send_code c = claude_submit_code c
handler tauri send_git c = connect_git c
handler tauri send_task c = connect_task c
handler tauri send_int c = connect_int c
handler tauri authorize_claude c = claude_start tauri
handler tauri (authorize_github purpose) c = start_github_device tauri purpose
handler tauri (drop_git p) c = disconnect_git p
handler tauri (drop_task p) c = disconnect_task p
handler tauri (drop_int p) c = disconnect_int p
handler tauri (interval id) c = interval_of id c

-- An action begun, or the n-th call under way answered.
pub data Happening : Type 0 where
  act : Action → Happening
  answered : ℕ → Outcome Body → Happening

abbrev pub event : Bool → Happening → Config → Event Config Request Body
event tauri (act a) c = begin (handler tauri a c)
event tauri (answered n o) c = reply n o

unfoldable pub happen :
    Bool → List Happening → Running Config Request Body → Running Config Request Body
happen tauri [] p = p
happen tauri (h ∷ hs) p = happen tauri hs (step p (event tauri h p.state))

-- The page as it is rendered first.
unfoldable pub fresh_page : Running Config Request Body
unfolding reset_ia reset_git reset_task reset_int
fresh_page = record {
  state = record {
    ia = record {
      modal = none;
      api_key = "";
      busy = false;
      await_code = false;
      url = "";
      code = "";
      err = "";
      test = none;
      testing = false;
    };
    git = record {
      modal = none;
      token = "";
      user = "";
      busy = false;
      testing = false;
      test = none;
    };
    gh = record {
      by_token = false;
      device = none;
      status = "";
      err = "";
      starting = false;
      poll = none;
      timers = [];
      fresh = 0;
    };
    task = record {
      modal = none;
      f = record { token = ""; username = ""; email = ""; site = ""; key = "" };
      busy = false;
      testing = false;
      test = none;
    };
    int = record {
      modal = none;
      f = record { token = ""; username = ""; project = ""; email = ""; site = "" };
      busy = false;
      testing = false;
      test = none;
    };
    opened = [];
    reloads = 0;
  };
  waiting = [];
}
