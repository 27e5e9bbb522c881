-- ===== src/Tests/Shell.antt =====
-- The shell of the dashboard (app/dashboard/app/ui.tsx) on concrete inputs.
use apifor_dev.Common.{
  ◌≤◌, String, ◌≡◌, refl, true, Option, none, some, List, [], ◌∷◌, map, arith, All,
}
use apifor_dev.Session.{Browser, Response, Get, Guarded, Me, safe_json, auth_headers, mount}
use apifor_dev.Session.Laws.{safe_json_session, mount_shows}
use apifor_dev.Toast.{steps, none_yet, emit, fire}
use apifor_dev.Toast
use apifor_dev.Toast.Laws.{steps-IsLive, steps-clear, IsLive}
use apifor_dev.Palette.{up, closed, toggle, type_text, down, Palette, all_items}
use apifor_dev.Palette
use apifor_dev.Palette.Laws.{steps_selected}
use apifor_dev.Series.{renders, empty, renders-changes}
use apifor_dev.Lang.Sync.{set_lang-agree, set_lang, Shared}
use apifor_dev.Async.{run, Outcome, returned}

-- A logged-in browser on the queue page, and a rejected request.
abbrev logged_in : Browser
logged_in = record { token = some "t0"; wsp = some "w1"; path = "/queue"; search = ""; went = [] }

abbrev rejected : Response
rejected = record { status = 401; text = "{}" }

abbrev no_json : String → Option (List String)
no_json s = none

safe_json_session_example :
    let after = safe_json no_json [] rejected logged_in in
    (after.1 ≡ [])
    × (auth_headers after.0 ≡ ("X-Workspace-ID", "w1") ∷ [])
    × (after.0.went ≡ "/login" ∷ [])
unfolding auth_headers
safe_json_session_example = safe_json_session no_json [] rejected logged_in

-- A page mounts with a token, and "/v1/me" answers with another role.
abbrev undecided : Guarded
undecided = record { browser = logged_in; authed = none }

abbrev as_member : String → Option Me
as_member s = some (record { role = some "member" })

abbrev answers : Get → Outcome Response
answers g = returned (record { status = 200; text = "{\"role\":\"member\"}" })

mount_shows_example :
    let after = run answers (mount as_member (λ s. s) undecided) undecided in
    (after.1
      ≡ record {
        url = "/api/v1/me";
        headers = ("Authorization", "Bearer t0") ∷ ("X-Workspace-ID", "w1") ∷ [];
      }
        ∷ [])
    × (after.0.authed ≡ some true)
    × (after.0.browser.went ≡ after.0.browser.went)
unfolding auth_headers apifor_dev.Session.body_of
mount_shows_example = mount_shows as_member (λ s. s) answers undecided refl

-- Two toasts, of which the first has gone.
abbrev two_toasts : List Toast.Event
two_toasts = emit "a" Toast.success ∷ emit "b" Toast.error ∷ fire 1 ∷ []

steps-IsLive_example : IsLive (steps two_toasts none_yet)
steps-IsLive_example = steps-IsLive two_toasts

steps-clear_example : let s = steps two_toasts none_yet in (steps (map fire s.timers) s).items ≡ []
steps-clear_example = steps-clear two_toasts

-- The palette is opened, a text typed, and the second line selected.
abbrev keys : List Palette.Event
keys = toggle ∷ type_text "a" ∷ down ∷ down ∷ []

steps_selected_example :
    let p = Palette.steps (λ s. s) all_items keys closed in
    (1 ≤ p.cursor)
    × (p.cursor ≤ 13)
    × ((Palette.step (λ s. s) all_items down p).0.cursor ≡ 4)
    × ((Palette.step (λ s. s) all_items up p).0.cursor ≡ 2)
    × ((Palette.step (λ s. s) all_items (type_text "b") p).0.q ≡ "b")
    × ((Palette.step (λ s. s) all_items (type_text "b") p).0.cursor ≡ 1)
unfolding Palette.steps all_items closed
steps_selected_example = steps_selected (λ s. s) all_items keys "b" refl (omega arith)

renders-changes_example : (renders 3 (4 ∷ 4 ∷ 5 ∷ 4 ∷ 7 ∷ []) empty).samples ≡ 5 ∷ 4 ∷ 7 ∷ []
renders-changes_example = renders-changes 3 (4 ∷ 4 ∷ 5 ∷ 4 ∷ 7 ∷ [])

-- Two components and a storage that can be read and written.
abbrev two_mounted : Shared
two_mounted = record {
  storage = record { lang = none; readable = true; writable = true };
  mounted = "pt" ∷ "pt" ∷ [];
}

set_lang-agree_example : All (λ x. x ≡ "en") (set_lang 1 "en" two_mounted).mounted
set_lang-agree_example = set_lang-agree 1 "en" two_mounted refl (λ e. absurd (cc e))
