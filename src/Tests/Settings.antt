-- ===== src/Tests/Settings.antt =====
-- The wizard of the repositories on concrete inputs.
use apifor_dev.Repos
use apifor_dev.Repos.{Call}
use apifor_dev.Common.{◌≡◌, refl, true, false, none, some, []}
use apifor_dev.Repos.{Reply, RemoteRepo, Repos}
use apifor_dev.Async.{Outcome, returned, run}
use apifor_dev.Repos.Save.{save_repo}
use apifor_dev.Repos.Laws.{run-save_repo}

abbrev remote : RemoteRepo
remote = record {
  full_name = "acme/web";
  clone_url = "https://github.com/acme/web";
  default_branch = "";
  private? = false;
}

-- The wizard at its last step.
abbrev wizard : Repos
wizard = record {
  open? = true;
  step = Repos.at_dir;
  prov = "github";
  list = none;
  list_err = "";
  loading = false;
  search = "";
  sel = some remote;
  dir = "~/apifor/web";
  saving = false;
  edit = none;
  edit_name = "";
  edit_branch = "";
  edit_busy = false;
  del = none;
  del_busy = false;
  toasts = [];
  reloads = 4;
}

-- Registered; git stops with code 128.
abbrev failing : Call → Outcome Reply
failing c = returned (record {
  repos = none;
  error = none;
  url = none;
  home = "/home/u/";
  code = some 128;
  stderr = some "fatal";
})

run-save_repo_example :
    let after = (run failing (save_repo (λ c. "128") true wizard) wizard).0 in
    (after.saving ≡ false) × (after.open? ≡ false) × (after.reloads ≡ 5)
run-save_repo_example = run-save_repo (λ c. "128") failing true wizard remote refl
