-- ===== src/Repos/Laws.antt =====
-- How the wizard of a repository ends.
use apifor_dev.Common.{
  ℕ, ◌+◌, String, ◌==◌, ◌≡◌, refl, sym, subst, inl, inr, Bool, true, false, ◌&&◌, not, Option, some,
  if◌then◌else◌, Bool-cases,
}
use apifor_dev.Common.Text
use apifor_dev.Async.{run, Outcome, returned, thrown}
use apifor_dev.Repos.{post_repo, Handler, Repos, RemoteRepo, Call, Reply}
use apifor_dev.Repos.Save.{
  save_from, repo_body, git_error, after_git, after_url, after_home, after_clone, after_post,
  save_repo, clone_to_local,
}

abbrev pub did_return : Outcome Reply → Bool
did_return (returned r) = true
did_return (thrown e) = false

module _ (print_code : Option ℕ → String) (env : Call → Outcome Reply) where
  -- How a handler that holds the button must end.
  abbrev Closes : Repos → Handler → Type 0
  Closes s h =
      ((run env h s).0.saving ≡ false)
      × ((run env h s).0.open? ≡ false)
      × ((run env h s).0.reloads ≡ s.reloads + 1)

  after_clone-Closes : (dir err : String) (s : Repos) → Closes s (after_clone print_code dir err)
  unfolding run
  after_clone-Closes dir err s = elim (Bool-cases (err == "")) [
    | inl e ↦ rw e (refl, refl, refl)
    | inr e ↦ rw e (refl, refl, refl)
  ]

  -- The clone passes an error on, or none, and changes nothing itself.
  module _ (k : String → Handler) (s : Repos) (ends : (err : String) → Closes s (k err)) where
    after_git-Closes : (o : Outcome Reply) → Closes s (after_git print_code k o)
    after_git-Closes (returned r) = ends (git_error print_code r)
    after_git-Closes (thrown e) = ends _

    after_home-Closes :
        (url target : String) (o : Outcome Reply) → Closes s (after_home print_code url target k o)
    unfolding run
    after_home-Closes url target (returned r) = after_git-Closes _
    after_home-Closes url target (thrown e) = ends _

    after_url-Closes :
        (url target : String) (o : Outcome Reply) → Closes s (after_url print_code url target k o)
    unfolding run
    after_url-Closes url target (thrown e) = ends _
    after_url-Closes url target (returned r) = elim (Bool-cases (Text.starts_with target "~")) [
      | inl e ↦ rw e (after_home-Closes _ target _)
      | inr e ↦ rw e (after_git-Closes _)
    ]

  after_post-Closes :
      (tauri : Bool) (x : RemoteRepo) (s t : Repos) (r : Reply)
      → Closes t (after_post print_code tauri x s (returned r))
  unfolding run clone_to_local
  after_post-Closes tauri x s t r = elim (Bool-cases (tauri && not (Text.trim s.dir == ""))) [
    | inl e ↦ rw e (
        after_url-Closes (after_clone print_code s.dir) t (λ err. after_clone-Closes s.dir err t)
          x.clone_url (Text.trim s.dir) _)
    | inr e ↦ rw e (refl, refl, refl)
  ]

  -- The end of a save: the button released, and the wizard closed exactly if it was registered.
  abbrev Saves : Bool → Repos → Repos → Type 0
  Saves kept s after =
      (after.saving ≡ false)
      × (after.open? ≡ (if kept then false else s.open?))
      × (after.reloads ≡ (if kept then s.reloads + 1 else s.reloads))

  after_post-Saves :
      (tauri : Bool) (x : RemoteRepo) (s : Repos) (o : Outcome Reply)
      → Saves
          (did_return o)
          s
          (run env (after_post print_code tauri x s o) (record s { saving = true })).0
  unfolding run
  after_post-Saves tauri x s (thrown e) = (refl, refl, refl)
  after_post-Saves tauri x s (returned r) =
      after_post-Closes tauri x s (record s { saving = true }) r

  -- Saving a chosen repository. The button is released whatever happens. If the registration
  -- returns, the wizard closes and the list is loaded once more, also when the clone on the desktop
  -- fails in any of its steps; if the registration throws, the wizard stays open if it was and
  -- nothing is loaded.
  pub run-save_repo :
      (tauri : Bool) (s : Repos) (x : RemoteRepo)
      → s.sel ≡ some x
      → let after = (run env (save_repo print_code tauri s) s).0 in
        let kept : Bool = did_return (env (post_repo (repo_body print_code x s.prov s.dir))) in
        (after.saving ≡ false)
        × (after.open? ≡ (if kept then false else s.open?))
        × (after.reloads ≡ (if kept then s.reloads + 1 else s.reloads))
  unfolding run save_repo
  run-save_repo tauri s x h =
      let asked : Call = post_repo (repo_body print_code x s.prov s.dir) in
      subst (λ o. Saves (did_return (env asked)) s (run env (save_from print_code tauri o s) s).0)
        (sym h) (after_post-Saves tauri x s (env asked))
