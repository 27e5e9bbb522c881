-- ===== src/Usage/Laws.antt =====
-- The calls, the cycle and the meters of the usage page.
use apifor_dev.Common.{
  ℕ, ◌+◌, ◌-◌, ◌*◌, ◌≤◌, String, ◌==◌, ◌≡◌, refl, ◌∙◌, Bool, true, false, ◌&&◌, ◌||◌, not, Option,
  none, some, List, [], ◌∷◌, map, arith, ltb, leb, nat_eq, if◌then◌else◌, default, any,
}
use apifor_dev.Usage.{
  tok_limit, task_limit, of_tel, h_pct, w_pct, exceeds, meters, usage, telemetry, Tel, Page, Usage,
  last_day, settled, step, on_mount, steps, at_most_100, Percent, limited, share, Event, bar_color,
}
use apifor_dev.Invoices.Dates.{Date, days_in}
use apifor_dev.Poll.Guarded.{refused, rejected, answered, last_answer, PollReply}
use apifor_dev.Poll.{undefined, null, Maybe, value}

-- The replies of each call, in the order in which they came.
abbrev pub usages : List Event → List (PollReply Usage)
usages [] = []
usages (usage r ∷ es) = r ∷ usages es
usages (_ ∷ es) = usages es

abbrev pub telemetries : List Event → List (PollReply Tel)
telemetries [] = []
telemetries (telemetry r ∷ es) = r ∷ telemetries es
telemetries (_ ∷ es) = telemetries es

abbrev pub ends : Event → Bool
ends settled = true
ends _ = false

-- In whatever order the two calls of the loads return, the page holds the last answer without an
-- error of each, and it loads until the first load has settled, be its calls good or bad.
pub steps_lem :
    (es : List Event) (s : Page)
    → ((steps es s).u ≡ last_answer (usages es) s.u)
      × ((steps es s).tel ≡ last_answer (telemetries es) s.tel)
      × ((steps es s).loading ≡ s.loading && not (any ends es))
unfolding steps step
steps_lem [] s = ground arith
steps_lem (usage rejected ∷ es) s = steps_lem es s
steps_lem (usage refused ∷ es) s = steps_lem es s
steps_lem (usage (answered d) ∷ es) s = steps_lem es (record s { u = d })
steps_lem (telemetry rejected ∷ es) s = steps_lem es s
steps_lem (telemetry refused ∷ es) s = steps_lem es s
steps_lem (telemetry (answered d) ∷ es) s = steps_lem es (record s { tel = d })
steps_lem (settled ∷ es) s = ground (arith, steps_lem es (record s { loading = false }))

days_in-le : (y m : ℕ) → days_in y m ≤ 31
days_in-le y m = ground arith

-- On any day of a month, the days that are left and the day itself make the whole month, which ends
-- with the 31st at the latest.
pub on_mount-days_left :
    (month_of : Date → String) (write : ℕ → String) (d : Date) (s : Page)
    → d.day ≤ days_in d.year d.month
    → (n : ℕ) × ((on_mount month_of write d s).days_left ≡ some n)
      × (n + d.day ≡ days_in d.year d.month)
      × (n + d.day ≤ 31)
unfolding on_mount last_day
on_mount-days_left month_of write d s h =
    (days_in d.year d.month - d.day, refl, omega arith, omega (arith, days_in-le d.year d.month))

at_most_100-le : (p : Percent) → (at_most_100 p).num ≤ 100 * (at_most_100 p).den
unfolding at_most_100
at_most_100-le p = ground arith

-- Whether a meter is full at most.
abbrev pub fits : Percent → Bool
fits p = leb p.num (100 * p.den)

limited-fits : (n : ℕ) (l : Option ℕ) → fits (limited n l) ≡ true
limited-fits n none = ground arith
limited-fits n (some k) = ground (arith, at_most_100-le (share n k))

share-fits : (n k : ℕ) → fits (share n k) ≡ nat_eq k 0 || leb n k
unfolding share
share-fits n k = ground arith

-- Whether no more is used than the plan allows; a limit that is absent or 0 counts as none.
abbrev pub workers_fit : Maybe Usage → Bool
workers_fit (value u) =
    nat_eq (default 0 u.max_workers) 0 || leb u.active_workers (default 0 u.max_workers)
workers_fit _ = true

abbrev pub hours_fit : Maybe Usage → Bool
hours_fit (value u) = nat_eq u.week_cap_seconds 0 || leb u.week_seconds_used u.week_cap_seconds
hours_fit _ = true

w_pct-fits : (u : Maybe Usage) → fits (w_pct u) ≡ workers_fit u
unfolding w_pct
w_pct-fits (value u) = share-fits u.active_workers (default 0 u.max_workers)
w_pct-fits null = refl
w_pct-fits undefined = refl

h_pct-fits : (u : Maybe Usage) → fits (h_pct u) ≡ hours_fit u
unfolding h_pct
h_pct-fits (value u) = share-fits u.week_seconds_used u.week_cap_seconds
h_pct-fits null = refl
h_pct-fits undefined = refl

-- Of the four meters, in their order, that of the workers is at most full exactly if no more are
-- active than the plan allows, that of the hours exactly if no more are used than it allows, a limit
-- that is absent or 0 counting as none; those of the tasks and of the tokens always are, whatever the
-- plan and the counts.
pub meters-fits :
    (write : ℕ → String) (fixed : ℕ → ℕ → ℕ → String) (t : String → String → String) (s : Page)
    → map (λ m. fits m.pct) (meters write fixed t s)
      ≡ workers_fit s.u ∷ hours_fit s.u ∷ true ∷ true ∷ []
unfolding meters
meters-fits write fixed t s =
    rw
      (
        w_pct-fits s.u,
        h_pct-fits s.u,
        limited-fits (of_tel (λ x. x.tasks_total) s.tel) (task_limit s.u),
        limited-fits (of_tel (λ x. x.tokens_used) s.tel) (tok_limit s.u),
      )
      refl

colors :
    (a b : Bool)
    → let c : String = if a then "var(--red)" else if b then "var(--orange)" else "var(--accent)" in
      ((c == "var(--red)") ≡ a) × ((c == "var(--orange)") ≡ not a && b)
colors true b = (refl, refl)
colors false true = (refl, refl)
colors false false = (refl, refl)

exceeds-share :
    (n k : ℕ)
    → (exceeds (share n k) 80 ≡ ltb 0 k && ltb (4 * k) (5 * n))
      × (exceeds (share n k) 60 ≡ ltb 0 k && ltb (3 * k) (5 * n))
unfolding share
exceeds-share n k = ground arith

orange :
    (n k : ℕ)
    → exceeds (share n k) 80 ≡ ltb 0 k && ltb (4 * k) (5 * n)
    → exceeds (share n k) 60 ≡ ltb 0 k && ltb (3 * k) (5 * n)
    → (not (exceeds (share n k) 80) && exceeds (share n k) 60)
      ≡ ltb 0 k && (ltb (3 * k) (5 * n) && leb (5 * n) (4 * k))
orange n k e f = rw (e, f) (ground arith)

-- A bar is red exactly if more than four fifths of the limit are used, and orange exactly if more
-- than three fifths are, but no more than four; without a limit it has the accent.
pub bar_color-share :
    (n k : ℕ)
    → ((bar_color (share n k) == "var(--red)") ≡ ltb 0 k && ltb (4 * k) (5 * n))
      × ((bar_color (share n k) == "var(--orange)")
          ≡ ltb 0 k && (ltb (3 * k) (5 * n) && leb (5 * n) (4 * k)))
unfolding bar_color
bar_color-share n k =
    let (r, o) = colors (exceeds (share n k) 80) (exceeds (share n k) 60) in
    let (e, f) = exceeds-share n k in (r ∙ e, o ∙ orange n k e f)
