-- ===== src/Config/Tasks.antt =====
-- The dialog of the sources of tasks (app/dashboard/app/config/page.tsx).
use apifor_dev.Common.{String, ◌==◌, true, false, none, some, List, [], ◌∷◌, if◌then◌else◌}
use apifor_dev.Common.Text
use apifor_dev.Config.Git.{accepted}
use apifor_dev.Config.{
  refusal, verdict, reload_conns, post, Body, TaskFields, Handler, Config, Test, TaskForm,
}
use apifor_dev.Async.{thrown, done, returned, set, text_or, call, Outcome}
use apifor_dev.Config.Github.{reset_task}

unfoldable pub task_payload : TaskFields → String → List (String × String)
task_payload f provider =
    ("provider", provider)
    ∷ ("token", Text.trim f.token)
    ∷ ("username", Text.trim f.username)
    ∷ ("email", Text.trim f.email)
    ∷ ("site", Text.trim f.site)
    ∷ ("key", Text.trim f.key)
    ∷ []

abbrev show_test : Test → Config → Config
show_test t c = record c { task = record c.task { test = some t } }

abbrev testing_over : Config → Config
testing_over c = record c { task = record c.task { testing = false } }

abbrev pub guarded : TaskForm → (String → Handler) → Handler
guarded t k = if text_or t.modal "" == "" then done else k (text_or t.modal "")

unfoldable pub test_task : Config → Handler
test_task c = guarded c.task (λ provider.
    set (λ s. record s { task = record s.task { testing = true; test = none } })
      (call (λ s. post "/v1/connections/tasks/test" (task_payload c.task.f provider))
        (λ o.
          set (show_test (verdict "válido" "inválido" "falha no teste" o))
            (set testing_over done))))

abbrev finally : Handler
finally = set (λ s. record s { task = record s.task { busy = false } }) done

abbrev pub after_connect : Outcome Body → Handler
after_connect o =
    if accepted o
    then set reload_conns (set reset_task finally)
    else set (show_test (refusal o)) finally

unfoldable pub connect_task : Config → Handler
connect_task c = guarded c.task (λ provider.
    set (λ s. record s { task = record s.task { busy = true } })
      (call (λ s. post "/v1/connections/tasks" (task_payload c.task.f provider)) after_connect))

abbrev after_delete : Outcome Body → Handler
after_delete (returned r) = set reload_conns done
after_delete (thrown e) = done

unfoldable pub disconnect_task : String → Handler
disconnect_task provider =
    call
      (λ s. record {
        method = "DELETE";
        url = Text.append "/v1/connections/tasks?provider=" provider;
        fields = [];
      })
      after_delete
