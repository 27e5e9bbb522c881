-- ===== src/Config/Git.antt =====
-- The dialog of the sources of code (app/dashboard/app/config/page.tsx): the test and the connection
-- by token, and the disconnection.
use apifor_dev.Common.{
  String, ◌==◌, Bool, true, false, ◌||◌, none, some, List, [], ◌∷◌, if◌then◌else◌,
}
use apifor_dev.Common.Text
use apifor_dev.Config.{
  refusal, is_ok, verdict, reload_conns, post, blank, Body, Handler, Config, Test, GitForm,
}
use apifor_dev.Async.{thrown, text_or, done, returned, set, call, Outcome}
use apifor_dev.Config.Github.{reset_git}

abbrev pub payload : GitForm → String → List (String × String)
payload g provider =
    ("provider", provider) ∷ ("token", Text.trim g.token) ∷ ("username", Text.trim g.user) ∷ []

abbrev show_test : Test → Config → Config
show_test t c = record c { git = record c.git { test = some t } }

abbrev testing_over : Config → Config
testing_over c = record c { git = record c.git { testing = false } }

-- `if (!gitToken.trim() || !gitModal) return;`
abbrev pub guarded : GitForm → (String → Handler) → Handler
guarded g k = if blank g.token || text_or g.modal "" == "" then done else k (text_or g.modal "")

unfoldable pub test_git : Config → Handler
test_git c = guarded c.git (λ provider.
    set (λ s. record s { git = record s.git { testing = true; test = none } })
      (call (λ s. post "/v1/connections/git/test" (payload c.git provider))
        (λ o.
          set (show_test (verdict "válido" "inválido" "falha no teste" o))
            (set testing_over done))))

abbrev finally : Handler
finally = set (λ s. record s { git = record s.git { busy = false } }) done

-- Whether an answer says that the connection was made.
abbrev pub accepted : Outcome Body → Bool
accepted (returned r) = is_ok r
accepted (thrown e) = false

abbrev pub after_connect : Outcome Body → Handler
after_connect o =
    if accepted o
    then set reload_conns (set reset_git finally)
    else set (show_test (refusal o)) finally

unfoldable pub connect_git : Config → Handler
connect_git c = guarded c.git (λ provider.
    set (λ s. record s { git = record s.git { busy = true } })
      (call (λ s. post "/v1/connections/git" (payload c.git provider)) after_connect))

abbrev after_delete : Outcome Body → Handler
after_delete (returned r) = set reload_conns done
after_delete (thrown e) = done

unfoldable pub disconnect_git : String → Handler
disconnect_git provider =
    call
      (λ s. record {
        method = "DELETE";
        url = Text.append "/v1/connections/git?provider=" provider;
        fields = [];
      })
      after_delete
