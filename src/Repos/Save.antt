-- ===== src/Repos/Save.antt =====
-- Saving the repository that the wizard chose, and its clone on the desktop (`saveRepo` and
-- `cloneToLocal` in app/dashboard/app/config/page.tsx).
-- `home.replace(/\/$/, "")`
use apifor_dev.Common.{
  ℕ, zero, suc, ◌+◌, ◌-◌, String, ◌==◌, Bool, true, false, ◌&&◌, not, Option, none, some, List, [],
  ◌∷◌, if◌then◌else◌, default,
}
use apifor_dev.Common.Text
use apifor_dev.Repos.{
  home_dir, git_clone, post_clone_url, post_repo, Handler, Repos, Reply, leaf, RemoteRepo,
}
use apifor_dev.Async.{thrown_text, returned, thrown, done, text_or, Outcome, call, set}

abbrev without_slash : String → String
without_slash h = if Text.take_last 1 h == "/" then Text.take (Text.length h - 1) h else h

module _ (print_code : Option ℕ → String) where
  -- What the end of git's process says: nothing if it succeeded.
  abbrev pub git_error : Reply → String
  git_error r = elim r.code [
    | some zero ↦ ""
    | some (suc n) ↦
        text_or (some (Text.trim (default "" r.stderr)))
          (Text.append "git saiu com código " (print_code r.code))
    | none ↦
        text_or (some (Text.trim (default "" r.stderr)))
          (Text.append "git saiu com código " (print_code r.code))
  ]

  abbrev pub after_git : (String → Handler) → Outcome Reply → Handler
  after_git k (returned r) = k (git_error r)
  after_git k (thrown e) = k (thrown_text e "falha ao clonar")

  abbrev pub after_home : String → String → (String → Handler) → Outcome Reply → Handler
  after_home url target k (returned r) =
      call (λ s. git_clone url (Text.append (without_slash r.home) (Text.drop 1 target)))
        (after_git k)
  after_home url target k (thrown e) = k (thrown_text e "falha ao clonar")

  abbrev pub after_url : String → String → (String → Handler) → Outcome Reply → Handler
  after_url clone_url target k (returned r) =
      if Text.starts_with target "~"
      then call (λ s. home_dir) (after_home (text_or r.url clone_url) target k)
      else call (λ s. git_clone (text_or r.url clone_url) target) (after_git k)
  after_url clone_url target k (thrown e) = k (thrown_text e "falha ao clonar")

  -- The clone on the desktop; what follows takes its error, "" for none.
  unfoldable pub clone_to_local : String → String → String → (String → Handler) → Handler
  clone_to_local provider clone_url dir k =
      call (λ s. post_clone_url provider clone_url) (after_url clone_url (Text.trim dir) k)

  abbrev pub say : String → String → Repos → Repos
  say text kind s = record s { toasts = (text, kind) ∷ s.toasts }

  abbrev pub close_wizard : Repos → Repos
  close_wizard s = record s { open? = false; reloads = s.reloads + 1 }

  abbrev pub saving_over : Repos → Repos
  saving_over s = record s { saving = false }

  abbrev pub close_saved : Handler
  close_saved = set close_wizard (set saving_over done)

  abbrev pub after_clone : String → String → Handler
  after_clone dir err =
      set
        (if err == ""
          then say (Text.append "repositório clonado em " (Text.trim dir)) "success"
          else say (Text.append "repo cadastrado, mas o clone falhou: " err) "error")
        close_saved

  unfoldable pub repo_body : RemoteRepo → String → String → List (String × String)
  unfolding leaf
  repo_body x prov dir =
      ("name", leaf x.full_name)
      ∷ ("clone_url", x.clone_url)
      ∷ ("default_branch", if x.default_branch == "" then "main" else x.default_branch)
      ∷ ("provider", prov)
      ∷ ("local_dir", Text.trim dir)
      ∷ []

  abbrev pub after_post : Bool → RemoteRepo → Repos → Outcome Reply → Handler
  after_post tauri x s (thrown e) = set saving_over done
  after_post tauri x s (returned r) =
      if tauri && not (Text.trim s.dir == "")
      then clone_to_local s.prov x.clone_url s.dir (after_clone s.dir)
      else close_saved

  abbrev pub save_from : Bool → Option RemoteRepo → Repos → Handler
  save_from tauri none s = done
  save_from tauri (some x) s =
      set (λ t. record t { saving = true })
        (call (λ t. post_repo (repo_body x s.prov s.dir)) (after_post tauri x s))

  unfoldable pub save_repo : Bool → Repos → Handler
  save_repo tauri s = save_from tauri s.sel s
