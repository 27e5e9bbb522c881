-- ===== src/Config/Flow.antt =====
-- What a run of GitHub's authorisation leads to, and what closing its dialog at the wrong moment
-- does (app/dashboard/app/config/page.tsx).
use apifor_dev.Common.{
  ℕ, ◌≤◌, String, ◌==◌, ◌≡◌, refl, ap, ◌∙◌, ◌⊎◌, inl, inr, Bool, true, false, ◌||◌, not, Option,
  none, some, List, [], ◌∷◌, arith, if◌then◌else◌,
}
use apifor_dev.Config.Actions.{answered, close_git, authorize_github, act, handler, happen}
use apifor_dev.Config.{fault_message, post, Handler, Config, Body, Request, GhFlow}
use apifor_dev.Async.{thrown_text, thrown, returned, text_or, set, answer, step, run, Outcome}
use apifor_dev.Config.OnePoll.{reset_git-OnePoll, stop-none, OnePoll}
use apifor_dev.Config.Github.{
  not_configured, pending, window_open, show_device, begin_flow, after_shell, reset_git,
  stop_gh_poll, after_device, start_github_device, fail_flow, open_external, after_web, period,
  poll_gh_status, finally, stop_flow,
}

-- The button is released, and the intervals are as they were, or there is one interval, held by the
-- page, of at least two seconds, with the status "pending".
abbrev pub Ends : List (ℕ × ℕ) → Config → Type 0
Ends before c =
    (c.gh.starting ≡ false)
    × ((c.gh.timers ≡ before)
        ⊎ ((id : ℕ) × (ms : ℕ) × (2000 ≤ ms)
            × (c.gh.status ≡ "pending")
            × (c.gh.poll ≡ some id)
            × (c.gh.timers ≡ (id, ms) ∷ [])))

stop_flow-status : (o : Option ℕ) (g : GhFlow) → (stop_flow o g).status ≡ g.status
stop_flow-status none g = refl
stop_flow-status (some id) g = refl

stop-status : (c : Config) → (stop_gh_poll c).gh.status ≡ c.gh.status
unfolding stop_gh_poll
stop-status c = stop_flow-status c.gh.poll c.gh

poll-status : (ms : ℕ) (c : Config) → (poll_gh_status ms c).gh.status ≡ c.gh.status
unfolding poll_gh_status
poll-status ms c = stop-status c

poll-timers :
    (ms : ℕ) (c : Config)
    → OnePoll c
    → (id : ℕ) × ((poll_gh_status ms c).gh.poll ≡ some id)
      × ((poll_gh_status ms c).gh.timers ≡ (id, ms) ∷ [])
unfolding poll_gh_status
poll-timers ms c h =
    let id : ℕ = (stop_gh_poll c).gh.fresh in (id, refl, ap (λ ts. (id, ms) ∷ ts) (stop-none c h).1)

poll-modal : (ms : ℕ) (c : Config) → (poll_gh_status ms c).git.modal ≡ c.git.modal
unfolding poll_gh_status
poll-modal ms c = refl

reset_git-modal : (c : Config) → (reset_git c).git.modal ≡ none
unfolding reset_git
reset_git-modal c = refl

period-le : (tauri : Bool) (n : Option ℕ) → 2000 ≤ period tauri n
unfolding period
period-le tauri none = omega arith
period-le tauri (some n) = ground arith

module _ (tauri : Bool) (env : Request → Outcome Body) (before : List (ℕ × ℕ)) where
  -- The script ends well from a state.
  abbrev Well : Handler → Config → Type 0
  Well k c = Ends before (run env k c).0

  Well-if :
      (b : Bool) (h k : Handler) (c : Config) → Well h c → Well k c → Well (if b then h else k) c
  Well-if true h k c p q = p
  Well-if false h k c p q = q

  failed-Well :
      (text : String) (c : Config)
      → c.gh.timers ≡ before
      → Well (set (fail_flow text) (finally tauri)) c
  unfolding run
  failed-Well text c e = (refl, inl e)

  polled-Well :
      (ms : ℕ) (c : Config)
      → 2000 ≤ ms
      → OnePoll c
      → c.gh.status ≡ "pending"
      → Well (set (poll_gh_status ms) (finally tauri)) c
  unfolding run
  polled-Well ms c le h e =
      let (id, held, one) = poll-timers ms c h in
      (refl, inr (id, ms, le, poll-status ms c ∙ e, held, one))

  opened-Well :
      (url : String) (ms : ℕ) (c : Config)
      → 2000 ≤ ms
      → OnePoll c
      → c.gh.status ≡ "pending"
      → Well (open_external tauri url (set (poll_gh_status ms) (finally tauri))) c
  unfolding open_external run
  opened-Well url ms c le h e =
      Well-if tauri _ _ c (shell (env (record { method = "SHELL"; url = url; fields = [] })))
        (polled-Well ms (window_open url c) le h e)
    where
      shell :
          (o : Outcome Body)
          → Well (after_shell tauri url (set (poll_gh_status ms) (finally tauri)) o) c
      shell (returned r) = polled-Well ms c le h e
      shell (thrown m) = polled-Well ms (window_open url c) le h e

  device-Well :
      (o : Outcome Body) (c : Config)
      → c.gh.timers ≡ before
      → OnePoll c
      → Well (after_device tauri o) c
  unfolding run
  device-Well (thrown m) c e h = failed-Well (thrown_text m "falha ao iniciar OAuth") c e
  device-Well (returned r) c e h =
      Well-if (text_or r.user_code "" == "" || text_or r.verification_uri "" == "") _ _ c
        (failed-Well (text_or (fault_message r) "falha ao iniciar OAuth") c e)
        (opened-Well _ (period tauri r.interval)
          (show_device tauri (text_or r.user_code "") (text_or r.verification_uri "") c)
          (period-le tauri r.interval) h refl)

  web-Well :
      (purpose : String) (o : Outcome Body) (c : Config)
      → c.gh.timers ≡ before
      → OnePoll c
      → Well (after_web tauri purpose o) c
  unfolding run
  web-Well purpose (thrown m) c e h = failed-Well (thrown_text m "falha ao iniciar OAuth") c e
  web-Well purpose (returned w) c e h =
      Well-if (not (text_or w.url "" == "")) _ _ c
        (opened-Well _ 2000 (pending c) (omega arith) h refl)
        (Well-if (not_configured tauri w) _ _ c
          (device-Well (env (post "/v1/connections/git/github/device" (("purpose", purpose) ∷ [])))
            c e h)
          (failed-Well (text_or (fault_message w) "falha ao iniciar OAuth") c e))

-- Starting GitHub's authorisation, from a state with at most the page's one interval, ends with the
-- button released whatever the calls and the desktop's shell answer; it leaves the intervals as
-- they were, or it leaves one interval, held by the page, of at least two seconds, with the status
-- "pending".
pub run-start_github_device :
    (tauri : Bool) (env : Request → Outcome Body) (purpose : String) (c : Config)
    → OnePoll c
    → Ends c.gh.timers (run env (start_github_device tauri purpose) c).0
unfolding start_github_device run
run-start_github_device tauri env purpose c h =
    web-Well tauri env c.gh.timers purpose _ (begin_flow tauri c) refl h

-- In the browser, from a page with nothing under way: if the dialog is closed while the first call of
-- the authorisation is under way, an answer with an address to open still starts an interval of two
-- seconds, held by the page, and sets the status "pending", with the dialog closed.
pub closed_dialog_polls :
    (purpose : String) (answer : Body) (c : Config)
    → OnePoll c
    → (text_or answer.url "" == "") ≡ false
    → let after =
        happen false
          (act (authorize_github purpose) ∷ act close_git ∷ answered 0 (returned answer) ∷ [])
          (record { state = c; waiting = [] }) in
      (after.state.git.modal ≡ none)
      × (after.state.gh.status ≡ "pending")
      × ((id : ℕ) × (after.state.gh.poll ≡ some id) × (after.state.gh.timers ≡ (id, 2000) ∷ []))
unfolding happen handler start_github_device step
closed_dialog_polls purpose answer c h given =
    let x : Config =
      window_open (text_or answer.url "") (pending (reset_git (begin_flow false c))) in
    rw given (
      poll-modal 2000 x ∙ reset_git-modal (begin_flow false c),
      poll-status 2000 x,
      poll-timers 2000 x (reset_git-OnePoll (begin_flow false c) h),
    )
