-- ===== src/Repos.antt =====
-- The repositories of the settings page (app/dashboard/app/config/page.tsx): the wizard that adds one
-- (its source, the remote repository, the directory, the clone on the desktop), the edition and the
-- removal. The desktop's calls (home directory, git) are calls like those of the API. The toasts are
-- kept in the state, the last one first.
pub mod Tile
pub mod Wizard
pub mod Save
pub mod Edit
pub mod Laws
use apifor_dev.Common.{
  ℕ, String, ◌==◌, Bool, true, false, Option, none, some, List, [], ◌∷◌, if◌then◌else◌, default,
}
use apifor_dev.Common.Text
use apifor_dev.Async.{thrown_text, thrown, returned, Outcome, text_or, Script, done, call, set}

pub record RemoteRepo : Type 0 where
  pub full_name : String
  pub clone_url : String
  pub default_branch : String
  pub private? : Bool

pub record Repo : Type 0 where
  pub id : String
  pub name : String
  pub default_branch : String

pub data Step : Type 0 where
  at_source at_repo at_dir : Step

pub record Repos : Type 0 where
  pub open? : Bool
  pub step : Step
  pub prov : String
  pub list : Option (List RemoteRepo)
  pub list_err : String
  pub loading : Bool
  pub search : String
  pub sel : Option RemoteRepo
  pub dir : String
  pub saving : Bool
  pub edit : Option Repo
  pub edit_name : String
  pub edit_branch : String
  pub edit_busy : Bool
  pub del : Option Repo
  pub del_busy : Bool
  pub toasts : List (String × String)
  pub reloads : ℕ

pub data Call : Type 0 where
  get_repos : String → Call
  post_repo : List (String × String) → Call
  post_clone_url : String → String → Call
  home_dir : Call
  git_clone : String → String → Call
  post_edit : String → String → String → Call
  delete_repo : String → Call

-- An answer; `error` is the object of that name, with its message.
pub record Reply : Type 0 where
  pub repos : Option (List RemoteRepo)
  pub error : Option (Option String)
  pub url : Option String
  pub home : String
  pub code : Option ℕ
  pub stderr : Option String

abbrev pub Handler : Type 0
Handler = Script Repos Call Reply

unfoldable pub open_repo_modal : Repos → Repos
open_repo_modal s = record s {
  step = at_source;
  prov = "";
  list = none;
  list_err = "";
  loading = false;
  search = "";
  sel = none;
  dir = "";
  saving = false;
  open? = true;
}

abbrev pub begin_source : String → Repos → Repos
begin_source provider s = record s {
  prov = provider;
  step = at_repo;
  list = none;
  list_err = "";
  search = "";
  loading = true;
}

-- What an answer to the list of remote repositories leaves.
abbrev pub listed : Outcome Reply → Repos → Repos
listed (thrown e) s = record s { list_err = thrown_text e "falha ao listar repositórios" }
listed (returned (r)) s = elim r.error [
  | some m ↦ record s { list_err = text_or m "falha ao listar repositórios" }
  | none ↦ record s { list = some (default [] r.repos) }
]

unfoldable pub pick_repo_source : String → Handler
pick_repo_source provider = set (begin_source provider) (
    call (λ s. get_repos provider)
      (λ o. set (listed o) (set (λ s. record s { loading = false }) done)))

abbrev pub last_of : List String → String
last_of [] = ""
last_of (x ∷ []) = x
last_of (x ∷ y ∷ ys) = last_of (y ∷ ys)

-- `full_name.split("/").pop() || full_name`
unfoldable pub leaf : String → String
leaf full_name =
    if last_of (Text.split b'/' full_name) == ""
    then full_name
    else last_of (Text.split b'/' full_name)

unfoldable pub pick_remote_repo : RemoteRepo → Repos → Repos
unfolding leaf
pick_remote_repo x s = record s {
  sel = some x;
  dir = Text.append "~/apifor/" (leaf x.full_name);
  step = at_dir;
}
