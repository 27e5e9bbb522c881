-- ===== src/Config/Outcomes.antt =====
-- What a run of a connection handler leads to, on every branch
-- (app/dashboard/app/config/page.tsx).
use apifor_dev.Config.Git
use apifor_dev.Config.Git.{accepted}
use apifor_dev.Config.Tasks
use apifor_dev.Config.Tasks.{connect_task, task_payload}
use apifor_dev.Config.Integrations
use apifor_dev.Config.Integrations.{connect_int, int_payload}
use apifor_dev.Async.{text_or, Outcome, run}
use apifor_dev.Common.{
  ℕ, ◌==◌, ◌≡◌, refl, ap, inl, inr, true, false, not, Option, none, some, List, [], ◌∷◌, nat_eq,
  if◌then◌else◌, Bool-cases, filter,
}
use apifor_dev.Common.Text
use apifor_dev.Config.{reload_conns, refusal, post, Config, Body, Request}
use apifor_dev.Config.Github.{reset_int, reset_task}

-- The intervals that are not the poll's.
abbrev pub without : Option ℕ → List (ℕ × ℕ) → List (ℕ × ℕ)
without none ts = ts
without (some id) ts = filter (λ t. not (nat_eq t.0 id)) ts

-- The page after a dialog of code is closed: every field of the dialog and of GitHub's authorisation
-- as at first, and the poll, if there is one, neither held nor among the intervals that run.
abbrev pub git_closed : Config → Config
git_closed c = record c {
  git = record { modal = none; token = ""; user = ""; busy = false; testing = false; test = none };
  gh = record c.gh {
    by_token = false;
    device = none;
    status = "";
    err = "";
    starting = false;
    poll = none;
    timers = without c.gh.poll c.gh.timers;
  };
}

module _ (env : Request → Outcome Body) where
  abbrev after_git : (Config → Config) → Outcome Body → Config → Config × List Request
  after_git closed o c = (
    if accepted o
        then closed (reload_conns c)
        else record c { git = record c.git { busy = false; test = some (refusal o) } },
    [],
  )

module _ (env : Request → Outcome Body) where
  after_task_run :
      (o : Outcome Body) (c : Config)
      → run env (Tasks.after_connect o) (record c { task = record c.task { busy = true } }) ≡ (
        if accepted o
            then reset_task (reload_conns c)
            else record c { task = record c.task { busy = false; test = some (refusal o) } },
        [],
      )
  unfolding run reset_task
  after_task_run o c = elim (Bool-cases (accepted o)) [ inl e ↦ rw e refl | inr e ↦ rw e refl ]

  -- Connecting a source of tasks: with no provider nothing happens; otherwise one request with the
  -- trimmed fields, whose acceptance resets the dialog and asks for the connections anew, and whose
  -- refusal or failure only adds the reason and leaves the dialog open and idle.
  pub run-connect_task :
      (c : Config)
      → let asked : Request =
          post "/v1/connections/tasks" (task_payload c.task.f (text_or c.task.modal "")) in
        run env (connect_task c) c ≡ (
          if text_or c.task.modal "" == "" then (c, []) else (
            if accepted (env asked) then reset_task (reload_conns c) else record c {
              task = record c.task { busy = false; test = some (refusal (env asked)) };
            },
            asked ∷ [],
          ))
  unfolding connect_task run
  run-connect_task c =
      let asked : Request =
        post "/v1/connections/tasks" (task_payload c.task.f (text_or c.task.modal "")) in
      elim (Bool-cases (text_or c.task.modal "" == "")) [
        | inl h ↦ rw h refl
        | inr h ↦
            rw h (
              ap (λ (r : Config × List Request). (r.0, asked ∷ r.1)) (after_task_run (env asked) c))
      ]

module _ (env : Request → Outcome Body) where
  after_int_run :
      (o : Outcome Body) (c : Config)
      → run env (Integrations.after_connect o) (record c { int = record c.int { busy = true } }) ≡ (
        if accepted o
            then reset_int (reload_conns c)
            else record c { int = record c.int { busy = false; test = some (refusal o) } },
        [],
      )
  unfolding run reset_int
  after_int_run o c = elim (Bool-cases (accepted o)) [ inl e ↦ rw e refl | inr e ↦ rw e refl ]

  -- Connecting an integration: as for a source of tasks, with the fields of the integration.
  pub run-connect_int :
      (c : Config)
      → let asked : Request =
          post "/v1/connections/integration" (int_payload c.int.f (text_or c.int.modal "")) in
        run env (connect_int c) c ≡ (
          if text_or c.int.modal "" == "" then (c, []) else (
            if accepted (env asked) then reset_int (reload_conns c) else record c {
              int = record c.int { busy = false; test = some (refusal (env asked)) };
            },
            asked ∷ [],
          ))
  unfolding connect_int run
  run-connect_int c =
      let asked : Request =
        post "/v1/connections/integration" (int_payload c.int.f (text_or c.int.modal "")) in
      elim (Bool-cases (text_or c.int.modal "" == "")) [
        | inl h ↦ rw h refl
        | inr h ↦
            rw h
              (ap (λ (r : Config × List Request). (r.0, asked ∷ r.1)) (after_int_run (env asked) c))
      ]
