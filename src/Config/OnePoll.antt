-- ===== src/Config/OnePoll.antt =====
-- At most one interval polls GitHub's status, in every interleaving of the dialogs' handlers
-- (app/dashboard/app/config/page.tsx).
use apifor_dev.Common.{
  ℕ, String, ◌==◌, ◌≡◌, refl, ap, ◌∙◌, Bool, true, false, ◌||◌, not, Option, none, some, List, [],
  ◌∷◌, arith, nat_eq, if◌then◌else◌, default,
}
use apifor_dev.Async.Interleave.{Keeps}
use apifor_dev.Config.Github.{
  fail_flow, period, not_configured, drop_device, after_device, after_web, after_shell, is_final,
  after_status, stop_flow, start_github_device, clear, open_external, reset_task, stop_gh_poll,
  reset_int, on_status, poll_gh_status, reset_git,
}
use apifor_dev.Config.{reload_conns, Body, Handler, GhFlow, Config}
use apifor_dev.Async.{text_or, thrown, returned, Outcome}

abbrev pub HandleOf : Option ℕ → List (ℕ × ℕ) → Type 0
HandleOf none ts = ts ≡ []
HandleOf (some id) ts = (ms : ℕ) × (ts ≡ (id, ms) ∷ [])

-- The intervals that the browser runs are exactly the one whose handle the page holds, if any.
abbrev pub OnePoll : Config → Type 0
OnePoll c = HandleOf c.gh.poll c.gh.timers

abbrev pub Steady : Handler → Type 0
Steady h = Keeps OnePoll h

pub Steady-if : (b : Bool) (h k : Handler) → Steady h → Steady k → Steady (if b then h else k)
Steady-if true h k p q = p
Steady-if false h k p q = q

cleared : (id ms : ℕ) → nat_eq id id ≡ true → clear id ((id, ms) ∷ []) ≡ []
cleared id ms self = rw self

stop_flow-none :
    (o : Option ℕ) (g : GhFlow)
    → g.poll ≡ o
    → HandleOf o g.timers
    → ((stop_flow o g).poll ≡ none) × ((stop_flow o g).timers ≡ [])
stop_flow-none none g e h = (e, h)
stop_flow-none (some id) g e (ms, t) =
    let self : nat_eq id id ≡ true = ground arith in (refl, ap (clear id) t ∙ cleared id ms self)

-- After a stop no interval is left.
pub stop-none :
    (c : Config) → OnePoll c → ((stop_gh_poll c).gh.poll ≡ none) × ((stop_gh_poll c).gh.timers ≡ [])
unfolding stop_gh_poll
stop-none c h = stop_flow-none c.gh.poll c.gh refl h

OnePoll-of_none : (c : Config) → c.gh.poll ≡ none → c.gh.timers ≡ [] → OnePoll c
OnePoll-of_none c p t = rw p t

stop-OnePoll : (c : Config) → OnePoll c → OnePoll (stop_gh_poll c)
stop-OnePoll c h = OnePoll-of_none (stop_gh_poll c) (stop-none c h).0 (stop-none c h).1

pub reset_git-OnePoll : (c : Config) → OnePoll c → OnePoll (reset_git c)
unfolding reset_git
reset_git-OnePoll c h = stop-OnePoll c h

pub reset_task-OnePoll : (c : Config) → OnePoll c → OnePoll (reset_task c)
unfolding reset_task
reset_task-OnePoll c h = stop-OnePoll c h

pub reset_int-OnePoll : (c : Config) → OnePoll c → OnePoll (reset_int c)
unfolding reset_int
reset_int-OnePoll c h = stop-OnePoll c h

poll-OnePoll : (ms : ℕ) (c : Config) → OnePoll c → OnePoll (poll_gh_status ms c)
unfolding poll_gh_status
poll-OnePoll ms c h = (ms, ap (λ ts. ((stop_gh_poll c).gh.fresh, ms) ∷ ts) (stop-none c h).1)

choose : (b : Bool) (c d : Config) → OnePoll c → OnePoll d → OnePoll (if b then c else d)
choose true c d p q = p
choose false c d p q = q

on_status-OnePoll : (r : Body) (c : Config) → OnePoll c → OnePoll (on_status r c)
unfolding on_status
on_status-OnePoll r c h =
    let s : Config = record c { gh = record c.gh { status = default "" r.status } } in
    let a : Config = reload_conns (stop_gh_poll s) in
    let b : Config = drop_device (stop_gh_poll s) in
    let stopped : OnePoll (stop_gh_poll s) = stop-OnePoll s h in
    choose (default "" r.status == "authorized") (reset_int (reset_task (reset_git a))) _
      (reset_int-OnePoll (reset_task (reset_git a))
        (reset_task-OnePoll (reset_git a) (reset_git-OnePoll a stopped)))
      (choose (is_final (default "" r.status))
        (fail_flow (text_or r.error_text "autorização falhou") b) s stopped h)

pub after_status-Steady : (o : Outcome Body) → Steady (after_status o)
after_status-Steady (returned r) = (on_status-OnePoll r, tt)
after_status-Steady (thrown e) = tt

module _ (tauri : Bool) where
  after_shell-Steady :
      (url : String) (k : Handler)
      → Steady k
      → (o : Outcome Body) → Steady (after_shell tauri url k o)
  after_shell-Steady url k h (returned r) = h
  after_shell-Steady url k h (thrown e) = ((λ c p. p), h)

  pub open_external-Steady :
      (url : String) (k : Handler) → Steady k → Steady (open_external tauri url k)
  unfolding open_external
  open_external-Steady url k h = Steady-if tauri _ _ (after_shell-Steady url k h) ((λ c p. p), h)

  after_device-Steady : (o : Outcome Body) → Steady (after_device tauri o)
  after_device-Steady (thrown e) = ((λ c p. p), ((λ c p. p), tt))
  after_device-Steady (returned r) =
      Steady-if (text_or r.user_code "" == "" || text_or r.verification_uri "" == "") _ _
        ((λ c p. p), ((λ c p. p), tt))
        (
          (λ c p. p),
          open_external-Steady (text_or r.verification_uri "") _
              (poll-OnePoll (period tauri r.interval), ((λ c p. p), tt)),
        )

  after_web-Steady : (purpose : String) (o : Outcome Body) → Steady (after_web tauri purpose o)
  after_web-Steady purpose (thrown e) = ((λ c p. p), ((λ c p. p), tt))
  after_web-Steady purpose (returned w) =
      Steady-if (not (text_or w.url "" == "")) _ _
        (
          (λ c p. p),
          open_external-Steady (text_or w.url "") _ (poll-OnePoll 2000, ((λ c p. p), tt)),
        )
        (Steady-if (not_configured tauri w) _ _ after_device-Steady ((λ c p. p), ((λ c p. p), tt)))

  pub start_github_device-Steady : (purpose : String) → Steady (start_github_device tauri purpose)
  unfolding start_github_device
  start_github_device-Steady purpose = ((λ c p. p), after_web-Steady purpose)
