-- ===== src/Config/Buttons.antt =====
-- The controls of the connection dialogs (app/dashboard/app/config/page.tsx): what a click on a button
-- runs (`press_`), none while the button takes no pointer, and what the inputs and the openings set. The
-- buttons are not disabled: from the keyboard they run their handlers themselves.
use apifor_dev.Common.{String, ◌==◌, Bool, false, ◌&&◌, ◌||◌, not, none, some, if◌then◌else◌}
use apifor_dev.Config.Git.{test_git, connect_git}
use apifor_dev.Config.Ia.{test_api_key, claude_start, connect_api_key, claude_submit_code}
use apifor_dev.Config.{blank, Config, Handler, IntFields, TaskFields, GitForm}
use apifor_dev.Config.Integrations.{int_ready, test_int, connect_int}
use apifor_dev.Config.Github.{reset_int, reset_task, reset_git}
use apifor_dev.Config.Tasks.{test_task, connect_task}
use apifor_dev.Async.{text_or}
use apifor_dev.Async.Press.{unless}

-- Git: the test, and the connection, which wants Bitbucket's user too.
unfoldable pub press_test_git : Config → Handler
unfolding test_git
press_test_git c = unless (c.git.testing || blank c.git.token) (test_git c)

abbrev pub git_lacks : GitForm → Bool
git_lacks g = blank g.token || ((text_or g.modal "" == "bitbucket") && blank g.user)

unfoldable pub press_connect_git : Config → Handler
unfolding connect_git
press_connect_git c = unless (c.git.busy || git_lacks c.git) (connect_git c)

-- `ready` of the sources of tasks.
unfoldable pub task_ready : String → TaskFields → Bool
task_ready modal f =
    if modal == "bitbucket"
    then not (blank f.username) && not (blank f.token)
    else if (modal == "jira") || (modal == "atlassian_goals")
    then not (blank f.site) && (not (blank f.email) && not (blank f.token))
    else if modal == "trello"
    then not (blank f.key) && not (blank f.token)
    else not (blank f.token)

unfoldable pub press_test_task : Config → Handler
unfolding test_task task_ready
press_test_task c =
    unless (c.task.testing || not (task_ready (text_or c.task.modal "") c.task.f)) (test_task c)

unfoldable pub press_connect_task : Config → Handler
unfolding connect_task task_ready
press_connect_task c =
    unless (c.task.busy || not (task_ready (text_or c.task.modal "") c.task.f)) (connect_task c)

-- The integrations; those of `noTest` have no button for the test.
abbrev pub no_test : String → Bool
no_test key = (key == "cypress") || (key == "playwright")

unfoldable pub press_test_int : Config → Handler
unfolding test_int int_ready
press_test_int c =
    let key = text_or c.int.modal "" in
    unless (no_test key || (c.int.testing || not (int_ready key c.int.f))) (test_int c)

unfoldable pub press_connect_int : Config → Handler
unfolding connect_int int_ready
press_connect_int c =
    unless (c.int.busy || not (int_ready (text_or c.int.modal "") c.int.f)) (connect_int c)

-- The model provider: the start, the code (by its button and by the Enter key), the key.
-- `tauri` says whether the page runs in the desktop app.
unfoldable pub press_claude_start : Bool → Config → Handler
unfolding claude_start
press_claude_start tauri c = unless c.ia.busy (claude_start tauri)

unfoldable pub press_claude_code : Config → Handler
unfolding claude_submit_code
press_claude_code c = unless (c.ia.busy || blank c.ia.code) (claude_submit_code c)

unfoldable pub enter_claude_code : Config → Handler
unfolding claude_submit_code
enter_claude_code c = claude_submit_code c

unfoldable pub press_test_key : Config → Handler
unfolding test_api_key
press_test_key c = unless (c.ia.testing || blank c.ia.api_key) (test_api_key c)

unfoldable pub press_connect_key : Config → Handler
unfolding connect_api_key
press_connect_key c = unless (c.ia.busy || blank c.ia.api_key) connect_api_key

-- What the inputs, the pills of the method and the buttons of the cards set.
pub data Edit : Type 0 where
  ia_key ia_code git_token git_user : String → Edit
  task_token task_username task_email task_site task_key : String → Edit
  int_token int_username int_project int_email int_site : String → Edit
  git_method task_method int_method : Bool → Edit
  open_ia open_git open_task open_int : String → Edit

abbrev with_task : TaskFields → Config → Config
with_task f c = record c { task = record c.task { f = f; test = none } }

abbrev with_int : IntFields → Config → Config
with_int f c = record c { int = record c.int { f = f; test = none } }

abbrev by : Bool → Config → Config
by b c = record c { gh = record c.gh { by_token = b } }

unfoldable pub edit : Edit → Config → Config
unfolding reset_git reset_task reset_int
edit (ia_key v) c = record c { ia = record c.ia { api_key = v; test = none } }
edit (ia_code v) c = record c { ia = record c.ia { code = v } }
edit (git_token v) c = record c { git = record c.git { token = v; test = none } }
edit (git_user v) c = record c { git = record c.git { user = v; test = none } }
edit (task_token v) c = with_task (record c.task.f { token = v }) c
edit (task_username v) c = with_task (record c.task.f { username = v }) c
edit (task_email v) c = with_task (record c.task.f { email = v }) c
edit (task_site v) c = with_task (record c.task.f { site = v }) c
edit (task_key v) c = with_task (record c.task.f { key = v }) c
edit (int_token v) c = with_int (record c.int.f { token = v }) c
edit (int_username v) c = with_int (record c.int.f { username = v }) c
edit (int_project v) c = with_int (record c.int.f { project = v }) c
edit (int_email v) c = with_int (record c.int.f { email = v }) c
edit (int_site v) c = with_int (record c.int.f { site = v }) c
edit (git_method b) c = by b (record c { git = record c.git { test = none } })
edit (task_method b) c = by b (record c { task = record c.task { test = none } })
edit (int_method b) c = by b (record c { int = record c.int { test = none } })
edit (open_ia key) c = record c {
  ia = record c.ia { await_code = false; url = ""; code = ""; err = ""; modal = some key };
}
edit (open_git key) c = let s = reset_git c in record s { git = record s.git { modal = some key } }
edit (open_task key) c =
    let s = reset_task c in record s { task = record s.task { modal = some key } }
edit (open_int key) c = let s = reset_int c in record s { int = record s.int { modal = some key } }
