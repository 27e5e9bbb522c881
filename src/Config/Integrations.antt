-- ===== src/Config/Integrations.antt =====
-- The dialog of CI, observability and documentation (app/dashboard/app/config/page.tsx): its table
-- of required fields, the test, the connection and the disconnection.
use apifor_dev.Common.{
  String, ◌==◌, Bool, true, false, not, Option, none, some, List, [], ◌∷◌, if◌then◌else◌, all,
  contains,
}
use apifor_dev.Common.Text
use apifor_dev.Config.Git.{accepted}
use apifor_dev.Config.{
  refusal, verdict, reload_conns, post, blank, Body, Handler, Config, Test, IntForm, IntFields,
}
use apifor_dev.Async.{thrown, done, returned, set, text_or, call, Outcome}
use apifor_dev.Config.Github.{reset_int}

pub data IntField : Type 0 where
  token username project email site : IntField

-- The required fields of each provider, from the table `INT_META`.
unfoldable pub fields_of : String → Option (List IntField)
fields_of p =
    if p == "cypress"
    then some (project ∷ token ∷ [])
    else if p == "bitbucket_pipelines"
    then some (username ∷ token ∷ [])
    else if p == "confluence"
    then some (site ∷ email ∷ token ∷ [])
    else if contains
        ("github_actions" ∷ "gitlab_ci" ∷ "sonarcloud" ∷ "sentry" ∷ "playwright" ∷ "github_wiki"
          ∷ "notion" ∷ [])
        p
    then some (token ∷ [])
    else none

abbrev pub field : IntFields → IntField → String
field f token = f.token
field f username = f.username
field f project = f.project
field f email = f.email
field f site = f.site

-- `m.fields.every((f) => intF[f]?.trim())`
abbrev pub all_filled : IntFields → Option (List IntField) → Bool
all_filled f none = false
all_filled f (some fs) = all (λ x. not (blank (field f x))) fs

unfoldable pub int_ready : String → IntFields → Bool
unfolding fields_of
int_ready provider f = all_filled f (fields_of provider)

-- `{ provider: intModal, ...intF }`: the texts as they were typed.
unfoldable pub int_payload : IntFields → String → List (String × String)
int_payload f provider =
    ("provider", provider)
    ∷ ("token", f.token)
    ∷ ("username", f.username)
    ∷ ("project", f.project)
    ∷ ("email", f.email)
    ∷ ("site", f.site)
    ∷ []

abbrev show_test : Test → Config → Config
show_test t c = record c { int = record c.int { test = some t } }

abbrev testing_over : Config → Config
testing_over c = record c { int = record c.int { testing = false } }

abbrev pub guarded : IntForm → (String → Handler) → Handler
guarded t k = if text_or t.modal "" == "" then done else k (text_or t.modal "")

unfoldable pub test_int : Config → Handler
test_int c = guarded c.int (λ provider.
    set (λ s. record s { int = record s.int { testing = true; test = none } })
      (call (λ s. post "/v1/connections/integration/test" (int_payload c.int.f provider))
        (λ o.
          set (show_test (verdict "válido" "inválido" "falha no teste" o))
            (set testing_over done))))

abbrev finally : Handler
finally = set (λ s. record s { int = record s.int { busy = false } }) done

abbrev pub after_connect : Outcome Body → Handler
after_connect o =
    if accepted o
    then set reload_conns (set reset_int finally)
    else set (show_test (refusal o)) finally

unfoldable pub connect_int : Config → Handler
connect_int c = guarded c.int (λ provider.
    set (λ s. record s { int = record s.int { busy = true } })
      (call (λ s. post "/v1/connections/integration" (int_payload c.int.f provider)) after_connect))

abbrev after_delete : Outcome Body → Handler
after_delete (returned r) = set reload_conns done
after_delete (thrown e) = done

unfoldable pub disconnect_int : String → Handler
disconnect_int provider =
    call
      (λ s. record {
        method = "DELETE";
        url = Text.append "/v1/connections/integration?provider=" provider;
        fields = [];
      })
      after_delete
