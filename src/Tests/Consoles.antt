-- ===== src/Tests/Consoles.antt =====
-- The platform's console, the account page and the workspace menu on concrete inputs.
use apifor_dev.Admin.Billing
use apifor_dev.Admin.Overview
use apifor_dev.Workspace
use apifor_dev.Common.{
  ◌+◌, String, ◌≡◌, refl, true, false, Option, none, some, List, [], ◌∷◌, ◌++◌, if◌then◌else◌, All,
}
use apifor_dev.Account.{save_password, Change, Account}
use apifor_dev.Async.{text_or, returned, Outcome, run}
use apifor_dev.Workspace.{title, lines, mounted, Wsp}
use apifor_dev.Workspace.Laws.{
  happen-header, title-gone, switch, load_wsps, happen, handler, page, Happening, act, answered,
}
use apifor_dev.Session.{header_if, auth_headers, Response, Browser}
use apifor_dev.Admin.{Plan}
use apifor_dev.Session.Api.{parsed}
use apifor_dev.Account.Laws.{run-save_password, change_of, told, is_short, is_mismatch}
use apifor_dev.Admin.Revenue.{mrr-agree}
use apifor_dev.Admin.Billing.{mrr_for}

abbrev pro_plan : Plan
pro_plan = record {
  plan = "pro";
  price_cents = some 4900;
  currency = "usd";
  max_workers = some 5;
  weekly_worker_hours = none;
  max_members = none;
  orgs = 3;
  seats = 9;
}

abbrev team_plan : Plan
team_plan = record pro_plan { plan = "team"; price_cents = some 2500 }

billing_mrr : Billing.mrr (pro_plan ∷ team_plan ∷ []) ≡ 37200
unfolding Billing.mrr mrr_for
billing_mrr = refl

mrr-agree_example :
    (Overview.mrr (pro_plan ∷ []) ≡ Billing.mrr (pro_plan ∷ []))
    × (Billing.mrr (pro_plan ∷ []) ≡ 14700)
    × (Billing.mrr ((pro_plan ∷ []) ++ team_plan ∷ [])
        ≡ Billing.mrr (pro_plan ∷ []) + Billing.mrr (team_plan ∷ []))
mrr-agree_example = mrr-agree (pro_plan ∷ []) (team_plan ∷ [])

abbrev typed : Account
typed = record {
  pwd_cur = "old";
  pwd_new = "12345678";
  pwd_conf = "12345678";
  saving = false;
  msg = "";
  ok = false;
}

-- The server refuses the current password with a 403.
abbrev refuses : Change → Outcome Response
refuses c = returned (record { status = 403; text = "{\"error\":{\"message\":\"wrong\"}}" })

abbrev no_json : String → Option String
no_json s = none

run-save_password_example : run (λ c. parsed no_json "" (refuses c)) (save_password typed) typed ≡ (
    if is_mismatch typed
    then (record typed { msg = "Senhas não coincidem."; ok = false }, [])
    else if is_short typed
    then (record typed { msg = "Mínimo 8 caracteres."; ok = false }, [])
    else (told {J = String} (returned "") typed, change_of typed ∷ []))
run-save_password_example = run-save_password no_json "" refuses typed

abbrev fresh_browser : Browser
fresh_browser = record { token = some "t0"; wsp = some "w9"; path = "/"; search = ""; went = [] }

abbrev main_wsp : Wsp
main_wsp = record { id = "w1"; name = "Principal"; initial = "P" }

abbrev one_wsp : Outcome Workspace.Answer
one_wsp = returned (record { body = some (main_wsp ∷ []); role = none; id = none; error = none })

-- The workspace "w9" of the storage is gone, and the list comes after that of a second load.
abbrev twice_loaded : List Happening
twice_loaded = act load_wsps ∷ act load_wsps ∷ answered 1 one_wsp ∷ []

happen-header_example :
    let s =
      (happen
        (act load_wsps ∷ act (switch "w1") ∷ answered 0 one_wsp ∷ [])
        (page false fresh_browser)).state in
    auth_headers s.browser
    ≡ header_if "Authorization" "Bearer " s.browser.token
      ++ header_if "X-Workspace-ID" "" (some "w9")
unfolding Workspace.saved text_or
happen-header_example =
    happen-header (act load_wsps ∷ act (switch "w1") ∷ answered 0 one_wsp ∷ []) false fresh_browser

title-gone_example :
    let s = (happen twice_loaded (page true fresh_browser)).state in
    (title s ≡ "Principal")
    × All (λ l. l.1 ≡ false) (lines s)
    × (auth_headers s.browser
        ≡ header_if "Authorization" "Bearer " s.browser.token
          ++ header_if "X-Workspace-ID" "" (some s.cur_id))
unfolding happen handler Workspace.load_list Workspace.mounted Workspace.saved text_or
    apifor_dev.Async.step
title-gone_example = title-gone twice_loaded fresh_browser main_wsp [] refl (refl, tt)
