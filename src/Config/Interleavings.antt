-- ===== src/Config/Interleavings.antt =====
-- Every handler of the connection dialogs (app/dashboard/app/config/page.tsx) keeps the one poll, so
-- all their interleavings do.
use apifor_dev.Common.{ℕ, String, ◌==◌, refl, Bool, ◌||◌, List, [], ◌∷◌, nat_eq, any}
use apifor_dev.Async.Interleave.{IsKept, step-IsKept}
use apifor_dev.Config.Tasks.{disconnect_task, test_task, connect_task}
use apifor_dev.Config.Git.{accepted, test_git, disconnect_git, connect_git}
use apifor_dev.Config.Ia.{
  after_key, after_start, after_code, claude_start, test_api_key, claude_submit_code,
  connect_api_key, reset_ia,
}
use apifor_dev.Config.Actions.{
  authorize_claude, send_int, send_task, send_git, send_code, send_ia, try_int, try_task, try_git,
  try_ia, close_int, close_task, close_git, close_ia, interval, drop_int, drop_task, drop_git,
  authorize_github, open_int, open_task, answered, open_git, act, Happening, Action, fresh_page,
  handler, interval_of, happen,
}
use apifor_dev.Config.Integrations.{test_int, connect_int, disconnect_int}
use apifor_dev.Config.Github.{tick}
use apifor_dev.Async.{reply, text_or, thrown, returned, Running, Outcome}
use apifor_dev.Config.{is_ok, blank, Request, Body, Config}
use apifor_dev.Config.OnePoll.{
  start_github_device-Steady, open_external-Steady, reset_int-OnePoll, reset_task-OnePoll,
  Steady-if, reset_git-OnePoll, after_status-Steady, OnePoll, Steady,
}

test_api_key-Steady : (c : Config) → Steady (test_api_key c)
unfolding test_api_key
test_api_key-Steady c =
    Steady-if (blank c.ia.api_key) _ _ tt ((λ s p. p), λ o. ((λ s p. p), ((λ s p. p), tt)))

after_start-Steady : (tauri : Bool) (o : Outcome Body) → Steady (after_start tauri o)
after_start-Steady tauri (thrown e) = ((λ s p. p), ((λ s p. p), tt))
after_start-Steady tauri (returned r) =
    Steady-if (text_or r.url "" == "") _ _ ((λ s p. p), ((λ s p. p), tt))
      ((λ s p. p), open_external-Steady tauri (text_or r.url "") _ ((λ s p. p), tt))

claude_start-Steady : (tauri : Bool) → Steady (claude_start tauri)
unfolding claude_start
claude_start-Steady tauri = ((λ s p. p), after_start-Steady tauri)

reset_ia-OnePoll : (c : Config) → OnePoll c → OnePoll (reset_ia c)
unfolding reset_ia
reset_ia-OnePoll c h = h

after_code-Steady : (o : Outcome Body) → Steady (after_code o)
after_code-Steady (thrown e) = ((λ s p. p), ((λ s p. p), tt))
after_code-Steady (returned r) =
    Steady-if (is_ok r) _ _ ((λ s p. p), (reset_ia-OnePoll, ((λ s p. p), tt)))
      ((λ s p. p), ((λ s p. p), tt))

claude_submit_code-Steady : (c : Config) → Steady (claude_submit_code c)
unfolding claude_submit_code
claude_submit_code-Steady c = Steady-if (blank c.ia.code) _ _ tt ((λ s p. p), after_code-Steady)

after_key-Steady : (o : Outcome Body) → Steady (after_key o)
after_key-Steady (thrown e) = ((λ s p. p), tt)
after_key-Steady (returned r) = ((λ s p. p), (reset_ia-OnePoll, ((λ s p. p), tt)))

connect_api_key-Steady : Steady connect_api_key
unfolding connect_api_key
connect_api_key-Steady = ((λ s p. p), after_key-Steady)

test_git-Steady : (c : Config) → Steady (test_git c)
unfolding test_git
test_git-Steady c =
    Steady-if (blank c.git.token || text_or c.git.modal "" == "") _ _ tt
      ((λ s p. p), λ o. ((λ s p. p), ((λ s p. p), tt)))

connect_git-Steady : (c : Config) → Steady (connect_git c)
unfolding connect_git
connect_git-Steady c = Steady-if (blank c.git.token || text_or c.git.modal "" == "") _ _ tt (
  (λ s p. p),
  λ o.
      Steady-if (accepted o) _ _ ((λ s p. p), (reset_git-OnePoll, ((λ s p. p), tt)))
        ((λ s p. p), ((λ s p. p), tt)),
)

test_task-Steady : (c : Config) → Steady (test_task c)
unfolding test_task
test_task-Steady c =
    Steady-if (text_or c.task.modal "" == "") _ _ tt
      ((λ s p. p), λ o. ((λ s p. p), ((λ s p. p), tt)))

connect_task-Steady : (c : Config) → Steady (connect_task c)
unfolding connect_task
connect_task-Steady c = Steady-if (text_or c.task.modal "" == "") _ _ tt (
  (λ s p. p),
  λ o.
      Steady-if (accepted o) _ _ ((λ s p. p), (reset_task-OnePoll, ((λ s p. p), tt)))
        ((λ s p. p), ((λ s p. p), tt)),
)

test_int-Steady : (c : Config) → Steady (test_int c)
unfolding test_int
test_int-Steady c =
    Steady-if (text_or c.int.modal "" == "") _ _ tt
      ((λ s p. p), λ o. ((λ s p. p), ((λ s p. p), tt)))

connect_int-Steady : (c : Config) → Steady (connect_int c)
unfolding connect_int
connect_int-Steady c = Steady-if (text_or c.int.modal "" == "") _ _ tt (
  (λ s p. p),
  λ o.
      Steady-if (accepted o) _ _ ((λ s p. p), (reset_int-OnePoll, ((λ s p. p), tt)))
        ((λ s p. p), ((λ s p. p), tt)),
)

tick-Steady : Steady tick
unfolding tick
tick-Steady = after_status-Steady

interval_of-Steady : (id : ℕ) (c : Config) → Steady (interval_of id c)
unfolding interval_of
interval_of-Steady id c = Steady-if (any (λ t. nat_eq t.0 id) c.gh.timers) _ _ tick-Steady tt

disconnect_git-Steady : (p : String) → Steady (disconnect_git p)
unfolding disconnect_git
disconnect_git-Steady p (returned r) = ((λ s p. p), tt)
disconnect_git-Steady p (thrown e) = tt

disconnect_task-Steady : (p : String) → Steady (disconnect_task p)
unfolding disconnect_task
disconnect_task-Steady p (returned r) = ((λ s p. p), tt)
disconnect_task-Steady p (thrown e) = tt

disconnect_int-Steady : (p : String) → Steady (disconnect_int p)
unfolding disconnect_int
disconnect_int-Steady p (returned r) = ((λ s p. p), tt)
disconnect_int-Steady p (thrown e) = tt

handler-Steady : (tauri : Bool) (a : Action) (c : Config) → Steady (handler tauri a c)
unfolding handler
handler-Steady tauri close_ia c = (reset_ia-OnePoll, tt)
handler-Steady tauri close_git c = (reset_git-OnePoll, tt)
handler-Steady tauri close_task c = (reset_task-OnePoll, tt)
handler-Steady tauri close_int c = (reset_int-OnePoll, tt)
handler-Steady tauri (open_git m) c = (reset_git-OnePoll, ((λ s p. p), tt))
handler-Steady tauri (open_task m) c = (reset_task-OnePoll, ((λ s p. p), tt))
handler-Steady tauri (open_int m) c = (reset_int-OnePoll, ((λ s p. p), tt))
handler-Steady tauri try_ia c = test_api_key-Steady c
handler-Steady tauri try_git c = test_git-Steady c
handler-Steady tauri try_task c = test_task-Steady c
handler-Steady tauri try_int c = test_int-Steady c
handler-Steady tauri send_ia c = connect_api_key-Steady
handler-Steady tauri send_code c = claude_submit_code-Steady c
handler-Steady tauri send_git c = connect_git-Steady c
handler-Steady tauri send_task c = connect_task-Steady c
handler-Steady tauri send_int c = connect_int-Steady c
handler-Steady tauri authorize_claude c = claude_start-Steady tauri
handler-Steady tauri (authorize_github purpose) c = start_github_device-Steady tauri purpose
handler-Steady tauri (drop_git p) c = disconnect_git-Steady p
handler-Steady tauri (drop_task p) c = disconnect_task-Steady p
handler-Steady tauri (drop_int p) c = disconnect_int-Steady p
handler-Steady tauri (interval id) c = interval_of-Steady id c
handler-Steady tauri _ c = ((λ s p. p), tt)

happen-IsKept :
    (tauri : Bool) (hs : List Happening) (p : Running Config Request Body)
    → IsKept OnePoll p
    → IsKept OnePoll (happen tauri hs p)
unfolding happen
happen-IsKept tauri [] p k = k
happen-IsKept tauri (act a ∷ hs) p k =
    happen-IsKept tauri hs _ (step-IsKept OnePoll p _ (handler-Steady tauri a p.state) k)
happen-IsKept tauri (answered n o ∷ hs) p k =
    happen-IsKept tauri hs _ (step-IsKept OnePoll p (reply n o) tt k)

-- Whatever the user does in the dialogs and in whatever order the answers arrive, at most one
-- interval polls GitHub's status: the browser runs none if the page holds no handle, and else the
-- one of the handle.
pub happen-OnePoll :
    (tauri : Bool) (hs : List Happening) → OnePoll (happen tauri hs fresh_page).state
unfolding fresh_page
happen-OnePoll tauri hs =
    (happen-IsKept tauri hs fresh_page (record { now = refl; later = tt })).now
