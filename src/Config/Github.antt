-- ===== src/Config/Github.antt =====
-- GitHub's authorisation (app/dashboard/app/config/page.tsx): the polling of its status, the start
-- of the web flow with the device flow behind it, and the opening of windows.
use apifor_dev.Common.{
  ℕ, ◌+◌, ◌*◌, max, String, ◌==◌, Bool, true, false, ◌||◌, not, Option, none, some, List, [], ◌∷◌,
  nat_eq, if◌then◌else◌, default, filter,
}
use apifor_dev.Config.{fault_message, post, reload_conns, GhFlow, Body, Config, Handler}
use apifor_dev.Async.{done, thrown_text, text_or, set, returned, call, thrown, Outcome}

-- `clearInterval`
abbrev pub clear : ℕ → List (ℕ × ℕ) → List (ℕ × ℕ)
clear id ts = filter (λ t. not (nat_eq t.0 id)) ts

abbrev pub stop_flow : Option ℕ → GhFlow → GhFlow
stop_flow none g = g
stop_flow (some id) g = record g { timers = clear id g.timers; poll = none }

unfoldable pub stop_gh_poll : Config → Config
stop_gh_poll c = record c { gh = stop_flow c.gh.poll c.gh }

-- The fields that every dialog's reset clears, after the poll is stopped.
abbrev pub reset_flow : GhFlow → GhFlow
reset_flow g = record g { by_token = false; device = none; status = ""; err = ""; starting = false }

unfoldable pub reset_git : Config → Config
unfolding stop_gh_poll
reset_git c =
    let s = stop_gh_poll c in
    record s {
      git = record {
        modal = none;
        token = "";
        user = "";
        busy = false;
        testing = false;
        test = none;
      };
      gh = reset_flow s.gh;
    }

unfoldable pub reset_task : Config → Config
unfolding stop_gh_poll
reset_task c =
    let s = stop_gh_poll c in
    record s {
      task = record {
        modal = none;
        f = record { token = ""; username = ""; email = ""; site = ""; key = "" };
        busy = false;
        testing = false;
        test = none;
      };
      gh = reset_flow s.gh;
    }

unfoldable pub reset_int : Config → Config
unfolding stop_gh_poll
reset_int c =
    let s = stop_gh_poll c in
    record s {
      int = record {
        modal = none;
        f = record { token = ""; username = ""; project = ""; email = ""; site = "" };
        busy = false;
        testing = false;
        test = none;
      };
      gh = reset_flow s.gh;
    }

-- `ghPoll.current = setInterval(…, intervalMs)` after the old one is stopped.
unfoldable pub poll_gh_status : ℕ → Config → Config
unfolding stop_gh_poll
poll_gh_status ms c =
    let s = stop_gh_poll c in
    record s {
      gh = record s.gh {
        poll = some s.gh.fresh;
        timers = (s.gh.fresh, ms) ∷ s.gh.timers;
        fresh = s.gh.fresh + 1;
      };
    }

abbrev pub is_final : String → Bool
is_final s = s == "expired" || s == "denied" || s == "error"

abbrev pub fail_flow : String → Config → Config
fail_flow text c = record c { gh = record c.gh { err = text } }

abbrev pub drop_device : Config → Config
drop_device c = record c { gh = record c.gh { device = none } }

-- What an answer to the status call does.
unfoldable pub on_status : Body → Config → Config
unfolding stop_gh_poll reset_git reset_task reset_int
on_status r c =
    let s : Config = record c { gh = record c.gh { status = default "" r.status } } in
    if default "" r.status == "authorized"
    then reset_int (reset_task (reset_git (reload_conns (stop_gh_poll s))))
    else if is_final (default "" r.status)
    then fail_flow (text_or r.error_text "autorização falhou") (drop_device (stop_gh_poll s))
    else s

abbrev pub after_status : Outcome Body → Handler
after_status (returned r) = set (on_status r) done
after_status (thrown e) = done

abbrev pub status_url : String
status_url = "/v1/connections/git/github/device/status"

-- One round of an interval's callback.
unfoldable pub tick : Handler
tick = call (λ c. record { method = "GET"; url = status_url; fields = [] }) after_status

abbrev pub window_open : String → Config → Config
window_open url c = record c { opened = url ∷ c.opened }

abbrev pub pending : Config → Config
pending c = record c { gh = record c.gh { status = "pending" } }

abbrev pub stop_starting : Config → Config
stop_starting c = record c { gh = record c.gh { starting = false } }

module _ (tauri : Bool) where
  -- On the desktop the shell opens the window, and the browser does if that fails.
  abbrev pub after_shell : String → Handler → Outcome Body → Handler
  after_shell url k (returned r) = k
  after_shell url k (thrown e) = set (window_open url) k

  unfoldable pub open_external : String → Handler → Handler
  open_external url k =
      if tauri
      then call (λ c. record { method = "SHELL"; url = url; fields = [] }) (after_shell url k)
      else set (window_open url) k

  abbrev pub finally : Handler
  finally = set stop_starting done

  -- `Math.max(2, r.interval || 5) * 1000`
  unfoldable pub period : Option ℕ → ℕ
  period none = 5000
  period (some n) = if nat_eq n 0 then 5000 else max 2 n * 1000

  abbrev pub show_device : String → String → Config → Config
  show_device code uri c = record c {
    gh = record c.gh {
      device = some (record { user_code = code; verification_uri = uri });
      status = "pending";
    };
  }

  -- The answer to the start of the device flow.
  abbrev pub after_device : Outcome Body → Handler
  after_device (thrown e) = set (fail_flow (thrown_text e "falha ao iniciar OAuth")) finally
  after_device (returned r) =
      if text_or r.user_code "" == "" || text_or r.verification_uri "" == ""
      then set (fail_flow (text_or (fault_message r) "falha ao iniciar OAuth")) finally
      else set (show_device (text_or r.user_code "") (text_or r.verification_uri "")) (
          open_external (text_or r.verification_uri "")
            (set (poll_gh_status (period r.interval)) finally))

  abbrev pub not_configured : Body → Bool
  not_configured r = elim r.error [ none ↦ true | some e ↦ default "" e.code == "not_configured" ]

  -- The answer to the start of the web flow.
  abbrev pub after_web : String → Outcome Body → Handler
  after_web purpose (thrown e) = set (fail_flow (thrown_text e "falha ao iniciar OAuth")) finally
  after_web purpose (returned w) =
      if not (text_or w.url "" == "")
      then set pending (open_external (text_or w.url "") (set (poll_gh_status 2000) finally))
      else if not_configured w
      then call (λ c. post "/v1/connections/git/github/device" (("purpose", purpose) ∷ []))
          after_device
      else set (fail_flow (text_or (fault_message w) "falha ao iniciar OAuth")) finally

  abbrev pub begin_flow : Config → Config
  begin_flow c = record c {
    gh = record c.gh { starting = true; err = ""; status = ""; device = none };
  }

  unfoldable pub start_github_device : String → Handler
  unfolding open_external
  start_github_device purpose = set begin_flow (
      call (λ c. post "/v1/connections/git/github/oauth/start" (("purpose", purpose) ∷ []))
        (after_web purpose))
