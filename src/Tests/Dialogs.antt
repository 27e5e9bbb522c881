-- ===== src/Tests/Dialogs.antt =====
-- The dialogs' handlers on concrete inputs.
use apifor_dev.Common.Text
use apifor_dev.Common.{ℕ, ◌≡◌, refl, true, false, none, some, [], ◌∷◌}
use apifor_dev.Config.{Config, Body}
use apifor_dev.Config.Actions.{
  happen, fresh_page, act, answered, authorize_github, close_git, interval,
}
use apifor_dev.Config.Interleavings.{happen-OnePoll}
use apifor_dev.Config.OnePoll.{OnePoll}
use apifor_dev.Config.Flow.{run-start_github_device, closed_dialog_polls, Ends}
use apifor_dev.Config.Github.{start_github_device}
use apifor_dev.Async.{run, returned}

-- An answer with an address to open, and one that accepts.
abbrev to_open : Body
to_open = record {
  ok = none;
  message = none;
  url = some "https://github.com/login";
  status = none;
  user_code = none;
  verification_uri = none;
  interval = none;
  error = none;
  error_text = none;
}

abbrev accepting : Body
accepting = record to_open { ok = some true; url = none }

-- Two authorisations under way, answered in the other order, and a round of the interval.
happen-OnePoll_example :
    OnePoll
      (happen false
        (act (authorize_github "code")
          ∷ act (authorize_github "ci")
          ∷ answered 1 (returned to_open)
          ∷ answered 0 (returned to_open)
          ∷ act (interval 1)
          ∷ [])
        fresh_page).state
happen-OnePoll_example = happen-OnePoll false (
    act (authorize_github "code")
    ∷ act (authorize_github "ci")
    ∷ answered 1 (returned to_open)
    ∷ answered 0 (returned to_open)
    ∷ act (interval 1)
    ∷ [])

abbrev page : Config
unfolding fresh_page
page = fresh_page.state

run-start_github_device_example :
    Ends [] (run (λ q. returned to_open) (start_github_device false "code") page).0
unfolding page
run-start_github_device_example =
    run-start_github_device false (λ q. returned to_open) "code" page refl

closed_dialog_polls_example :
    let after =
      happen false
        (act (authorize_github "code") ∷ act close_git ∷ answered 0 (returned to_open) ∷ [])
        (record { state = page; waiting = [] }) in
    (after.state.git.modal ≡ none)
    × (after.state.gh.status ≡ "pending")
    × ((id : ℕ) × (after.state.gh.poll ≡ some id) × (after.state.gh.timers ≡ (id, 2000) ∷ []))
unfolding page apifor_dev.Async.text_or
closed_dialog_polls_example = closed_dialog_polls "code" to_open page refl refl

-- The dialogs with a provider chosen and a token typed.
abbrev with_git : Config
with_git = record page { git = record page.git { modal = some "github"; token = " ghp " } }
