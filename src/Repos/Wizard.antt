-- ===== src/Repos/Wizard.antt =====
-- What the wizard of the repositories, its two small dialogs and their list show, and what their
-- controls do (app/dashboard/app/config/page.tsx). `lower` is `toLowerCase`, `upper` `toUpperCase`.
pub mod Laws
use apifor_dev.Common.{
  ℕ, ◌%◌, String, ◌==◌, Bool, false, ◌||◌, not, Option, none, some, List, [], ◌∷◌, map, nat_eq,
  if◌then◌else◌, default, length, take, filter,
}
use apifor_dev.Common.Text
use apifor_dev.Repos.Edit.{confirm_del_repo, save_repo_edit}
use apifor_dev.Settings.Reuse.Cards.{code_providers, code_conns}
use apifor_dev.Repos.{at_dir, at_repo, Handler, at_source, Repos, Repo, RemoteRepo}
use apifor_dev.Repos.Tile.{first_code}
use apifor_dev.Lang.{lookup}
use apifor_dev.Interventions.{short}
use apifor_dev.Async.{done, returned, thrown, Outcome}
use apifor_dev.Repos.Save.{save_repo}
use apifor_dev.Settings.Reuse.{Conn}

-- `accentTile`: the colour of a name's tile.
unfoldable pub accent_tile : String → String
accent_tile name =
    let h = first_code name % 5 in
    if nat_eq h 0
    then "var(--accent)"
    else if nat_eq h 1
    then "var(--green)"
    else if nat_eq h 2
    then "var(--orange)"
    else if nat_eq h 3
    then "var(--blue)"
    else "var(--red)"

-- A repository of the tab's list.
pub record Listed : Type 0 where
  pub repo : Repo
  pub clone_url : String

pub record Line : Type 0 where
  pub tile : String × String
  pub name : String
  pub branch : String
  pub url : String

unfoldable pub line : (String → String) → Listed → Line
unfolding accent_tile short
line upper x = record {
  tile = (accent_tile x.repo.name, upper (Text.take 1 x.repo.name));
  name = x.repo.name;
  branch = x.repo.default_branch;
  url = short 60 x.clone_url;
}

-- The choice of a directory in the desktop's dialog, which answers with a path or with nothing.
abbrev pub told : String → String → Repos → Repos
told text kind s = record s { toasts = (text, kind) ∷ s.toasts }

unfoldable pub pick_local_dir : Bool → Outcome (Option String) → Repos → Repos
pick_local_dir tauri (thrown e) s =
    if tauri
    then told "não foi possível abrir o seletor de pasta" "error" s
    else told "Seleção de pasta disponível no app desktop — digite o caminho." "info" s
pick_local_dir tauri (returned sel) s =
    if tauri
    then if default "" sel == "" then s else record s { dir = default "" sel }
    else told "Seleção de pasta disponível no app desktop — digite o caminho." "info" s

-- What the inputs and the buttons of the dialogs set.
pub data Edit : Type 0 where
  search dir name branch : String → Edit
  to_source to_repo close close_edit close_del : Edit
  ask_del : Repo → Edit

unfoldable pub edit : Edit → Repos → Repos
edit (search v) s = record s { search = v }
edit (dir v) s = record s { dir = v }
edit (name v) s = record s { edit_name = v }
edit (branch v) s = record s { edit_branch = v }
edit to_source s = record s { step = at_source }
edit to_repo s = record s { step = at_repo }
edit close s = record s { open? = false }
edit close_edit s = record s { edit = none }
edit close_del s = record s { del = none }
edit (ask_del r) s = record s { del = some r }

-- A click on the buttons, which runs nothing while they take no pointer; the keyboard runs the
-- handlers themselves.
unfoldable pub press_save : (Option ℕ → String) → Bool → Repos → Handler
unfolding save_repo
press_save print tauri s =
    if s.saving || (Text.trim s.dir == "") then done else save_repo print tauri s

unfoldable pub press_edit : Repos → Handler
unfolding save_repo_edit
press_edit s = if s.edit_busy || (Text.trim s.edit_name == "") then done else save_repo_edit s

unfoldable pub press_del : Repos → Handler
unfolding confirm_del_repo
press_del s = if s.del_busy then done else confirm_del_repo s

abbrev pub source_title : String → String
source_title p = default p (lookup p code_providers)

-- The body of the wizard: the sources to choose from, the list of the remote repositories with what
-- stands for it, or the directory.
pub data Body : Type 0 where
  sources : List (String × String) → Body
  loading : Body
  message : String → Body
  found : List (String × (String × Bool)) → Body
  directory : String → String → String → Body
  nothing : Body

abbrev pub branch_or_main : String → String
branch_or_main b = if b == "" then "main" else b

module _ (lower : String → String) where
  abbrev pub is_found : String → RemoteRepo → Bool
  is_found q x = Text.includes (lower x.full_name) (lower (Text.trim q))

  unfoldable pub remote_list : Repos → Body
  remote_list s =
      if s.loading
      then loading
      else if not (s.list_err == "")
      then message s.list_err
      else if nat_eq (length (default [] s.list)) 0
      then message "Nenhum repositório nessa conta."
      else found (
          map (λ x. (x.full_name, (branch_or_main x.default_branch, x.private?)))
            (filter (is_found s.search) (default [] s.list)))

  abbrev pub directory_of : Option RemoteRepo → String → Body
  directory_of none d = nothing
  directory_of (some x) d = directory x.full_name (branch_or_main x.default_branch) d

  unfoldable pub body : List Conn → Repos → Body
  unfolding remote_list code_conns
  body conns s = elim s.step [
    | at_source ↦
        if nat_eq (length (code_conns conns)) 0
        then message "Nenhuma fonte de código conectada."
        else sources (map (λ c. (source_title c.provider, default "" c.label)) (code_conns conns))
    | at_repo ↦ remote_list s
    | at_dir ↦ directory_of s.sel s.dir
  ]

-- The footer: its left button, and the one that saves.
pub record Footer : Type 0 where
  pub back : String
  pub save : Option (String × Bool)

unfoldable pub footer : Repos → Footer
footer s = elim s.step [
  | at_source ↦ record { back = "Cancelar"; save = none }
  | at_repo ↦ record { back = "Voltar"; save = none }
  | at_dir ↦ record {
    back = "Voltar";
    save =
        some
          (if s.saving then "Salvando…" else "Salvar", not (s.saving || (Text.trim s.dir == "")));
  }
]
