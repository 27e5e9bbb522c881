-- ===== src/Tests/Presses.antt =====
-- The handlers of the settings page (app/dashboard/app/config/page.tsx) on concrete inputs.
use apifor_dev.Common.{
  ℕ, String, ◌==◌, ◌≡◌, refl, true, false, ◌&&◌, none, some, List, [], ◌∷◌, default, any,
}
use apifor_dev.Common.Text
use apifor_dev.Async.{text_or}
use apifor_dev.Config.{Config, Body, verdict, post}
use apifor_dev.Config.Actions.{fresh_page}
use apifor_dev.Config.Buttons.{
  press_connect_git, press_connect_task, press_connect_int, press_connect_key, press_claude_code,
  press_test_git, enter_claude_code, edit, git_token,
}
use apifor_dev.Config.Pressing.{
  IsAskedAgain, press-twice, enter_claude_code-twice, press_test_git-edit, answered,
}
use apifor_dev.Config.Ia.{claude_submit_code, connect_api_key, after_code}
use apifor_dev.Async.Press.{at_call}
use apifor_dev.Settings.Pool.{set_retries, set_workers, patched, PoolCfg, fresh_settings}
use apifor_dev.Settings.Pool.Laws.{moves, moves-loaded, save, loaded}
use apifor_dev.Settings.Reuse.{family_identity, Conn, reuse_btn, provider_family, is_text}
use apifor_dev.Settings.Reuse.Laws.{reuse_btn-some}
use apifor_dev.Repos.Wizard.Laws.{with_repos}
use apifor_dev.Repos
use apifor_dev.Repos.{Reply, RemoteRepo, Repos}
use apifor_dev.Async.{returned, until_call, Outcome, done}
use apifor_dev.Poll.{value}
use apifor_dev.Config.Git.{connect_git}
use apifor_dev.Config.Tasks.{connect_task}
use apifor_dev.Config.Integrations.{connect_int}

-- The dialog of GitHub with a token, and that of Claude with the provider's code.
abbrev page : Config
unfolding fresh_page
page =
    let s = fresh_page.state in
    record s {
      git = record s.git { modal = some "github_pat"; token = "ghp_1" };
      ia = record s.ia { modal = some "claude"; code = " c0de "; await_code = true };
    }

press-twice_example :
    (press_connect_git (at_call (press_connect_git page) page) ≡ done)
    × (press_connect_task (at_call (press_connect_task page) page) ≡ done)
    × (press_connect_int (at_call (press_connect_int page) page) ≡ done)
    × (press_connect_key (at_call (press_connect_key page) page) ≡ done)
    × (press_claude_code (at_call (press_claude_code page) page) ≡ done)
    × IsAskedAgain connect_git page
    × IsAskedAgain connect_task page
    × IsAskedAgain connect_int page
    × IsAskedAgain (λ s. connect_api_key) page
    × IsAskedAgain claude_submit_code page
press-twice_example = press-twice page

enter_claude_code-twice_example :
    let q = post "/v1/connections/claude/code" (("code", "c0de") ∷ []) in
    let s = at_call (enter_claude_code page) page in
    (s.ia.busy ≡ true)
    × ((until_call (enter_claude_code page) page).1 ≡ some (q, after_code))
    × ((until_call (enter_claude_code s) s).1 ≡ some (q, after_code))
unfolding fresh_page Text.trim
enter_claude_code-twice_example = enter_claude_code-twice page refl

-- The server accepts the token that it was asked about.
abbrev valid : Outcome Body
valid = returned (record {
  ok = some true;
  message = none;
  url = none;
  status = none;
  user_code = none;
  verification_uri = none;
  interval = none;
  error = none;
  error_text = none;
})

press_test_git-edit_example :
    let waiting = until_call (press_test_git page) page in
    let edited = edit (git_token "ghp_2") waiting.0 in
    let shown = (until_call (answered waiting.1 valid) edited).0 in
    (edited.git.test ≡ none)
    × (shown.git.token ≡ "ghp_2")
    × (shown.git.test ≡ some (verdict "válido" "inválido" "falha no teste" valid))
    × ((edit (git_token "ghp_3") shown).git.token ≡ "ghp_3")
    × ((edit (git_token "ghp_3") shown).git.test ≡ none)
unfolding fresh_page Text.trim text_or
press_test_git-edit_example = press_test_git-edit page "ghp_2" "ghp_3" valid refl refl refl

abbrev pool : ℕ → PoolCfg
pool n = record {
  mode = "pool";
  parallel_workers = n;
  timeout_min = 30;
  retries = 1;
  paused = false;
  auto_merge = false;
  isolamento = true;
}

-- The number of workers is saved as 5, an answer of before says 2, and the retries are saved as 3.
moves-loaded_example :
    (moves
      (save (set_workers 5) ∷ loaded (returned (some (value (pool 2)))) ∷ save (set_retries 3) ∷ [])
      (record fresh_settings { pool = value (pool 4) })).pool
    ≡ value (record (pool 2) { retries = 3 })
unfolding patched
moves-loaded_example =
    moves-loaded (save (set_workers 5) ∷ []) (pool 2) (set_retries 3 ∷ [])
      (record fresh_settings { pool = value (pool 4) })

abbrev conn : String → String → Conn
conn provider label = record {
  id = "c1";
  kind = "git";
  provider = provider;
  label = some label;
  status = "active";
  created = "";
}

abbrev conns : List Conn
conns = conn "gitlab" "ana" ∷ conn "github_pat" "bia" ∷ []

reuse_btn-some_example :
    (provider_family "github_actions" ≡ some "github")
    × (any
          (λ c. is_text (provider_family c.provider) "github" && (default "" c.label == "bia"))
          conns
        ≡ true)
    × (("bia" == "") ≡ false)
unfolding reuse_btn family_identity provider_family
reuse_btn-some_example = reuse_btn-some conns "github_actions" "github" "bia" refl

-- The wizard at its first step.
abbrev fresh : Repos
fresh = record {
  open? = true;
  step = Repos.at_source;
  prov = "";
  list = none;
  list_err = "";
  loading = false;
  search = "";
  sel = none;
  dir = "";
  saving = false;
  edit = none;
  edit_name = "";
  edit_branch = "";
  edit_busy = false;
  del = none;
  del_busy = false;
  toasts = [];
  reloads = 0;
}

abbrev repo : String → RemoteRepo
repo name = record { full_name = name; clone_url = ""; default_branch = "main"; private? = false }

-- The first source has one repository; the call for the second one fails.
abbrev of_first : Outcome Reply
of_first = with_repos (repo "a/a" ∷ [])
