-- ===== src/Config/Ia.antt =====
-- The dialog of the model provider (app/dashboard/app/config/page.tsx): the test of an API key, the
-- authorisation of a subscription with a pasted code, and the connection by key.
use apifor_dev.Common.{String, ◌==◌, Bool, true, false, none, some, [], ◌∷◌, if◌then◌else◌}
use apifor_dev.Common.Text
use apifor_dev.Config.{
  fault_message, is_ok, reload_conns, post, verdict, blank, Body, Handler, Config,
}
use apifor_dev.Async.{text_or, thrown_text, returned, call, thrown, done, set, Outcome}
use apifor_dev.Config.Github.{open_external}

unfoldable pub reset_ia : Config → Config
reset_ia c = record c {
  ia = record {
    modal = none;
    api_key = "";
    busy = false;
    await_code = false;
    url = "";
    code = "";
    err = "";
    test = none;
    testing = false;
  };
}

abbrev set_test : Outcome Body → Config → Config
set_test o c = record c {
  ia = record c.ia { test = some (verdict "chave válida" "chave inválida" "falha no teste" o) };
}

abbrev testing_over : Config → Config
testing_over c = record c { ia = record c.ia { testing = false } }

unfoldable pub test_api_key : Config → Handler
test_api_key c =
    if blank c.ia.api_key
    then done
    else set (λ s. record s { ia = record s.ia { testing = true; test = none } })
        (call
          (λ s. post "/v1/connections/anthropic/test" (("api_key", Text.trim c.ia.api_key) ∷ []))
          (λ o. set (set_test o) (set testing_over done)))

abbrev busy_now : Config → Config
busy_now c = record c { ia = record c.ia { busy = true; err = "" } }

abbrev pub fail_ia : String → Config → Config
fail_ia text c = record c { ia = record c.ia { err = text } }

abbrev pub finally : Handler
finally = set (λ s. record s { ia = record s.ia { busy = false } }) done

module _ (tauri : Bool) where
  abbrev pub after_start : Outcome Body → Handler
  after_start (thrown e) = set (fail_ia (thrown_text e "falha ao iniciar autorização")) finally
  after_start (returned r) =
      if text_or r.url "" == ""
      then set (fail_ia (text_or (fault_message r) "falha ao iniciar autorização")) finally
      else set (λ s. record s { ia = record s.ia { url = text_or r.url ""; await_code = true } })
          (open_external tauri (text_or r.url "") finally)

  unfoldable pub claude_start : Handler
  claude_start = set busy_now (call (λ c. post "/v1/connections/claude/start" []) after_start)

abbrev pub after_code : Outcome Body → Handler
after_code (thrown e) = set (fail_ia (thrown_text e "código rejeitado")) finally
after_code (returned r) =
    if is_ok r
    then set reload_conns (set reset_ia finally)
    else set (fail_ia (text_or (fault_message r) "código rejeitado")) finally

unfoldable pub claude_submit_code : Config → Handler
claude_submit_code c =
    if blank c.ia.code
    then done
    else set busy_now (
        call (λ s. post "/v1/connections/claude/code" (("code", Text.trim c.ia.code) ∷ []))
          after_code)

-- A `try` with `finally` and no `catch`: a call that throws leaves the dialog open.
abbrev pub after_key : Outcome Body → Handler
after_key (thrown e) = finally
after_key (returned r) = set reload_conns (set reset_ia finally)

unfoldable pub connect_api_key : Handler
connect_api_key =
    set (λ s. record s { ia = record s.ia { busy = true } })
      (call (λ s. post "/v1/connections" (("kind", "api") ∷ [])) after_key)
