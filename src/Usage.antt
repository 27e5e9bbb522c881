-- ===== src/Usage.antt =====
-- The usage page (app/dashboard/app/usage/page.tsx): its two guarded calls, the cycle of the month,
-- and the meters against the limits of the plan. `upper` is `toUpperCase`, `write` prints a number,
-- `fixed` a quotient with so many digits after the point.
-- A percentage is a quotient, as the floating-point number that the code computes.
pub mod Laws
use apifor_dev.Common.{
  round_div, ℕ, ◌+◌, ◌-◌, ◌*◌, ◌/◌, String, ◌==◌, Bool, true, false, Option, none, some, List, [],
  ◌∷◌, ltb, leb, nat_eq, if◌then◌else◌, default, take, drop,
}
use apifor_dev.Common.Text
use apifor_dev.Poll.{value, Maybe, null}
use apifor_dev.Poll.Guarded.{answered, PollReply}
use apifor_dev.Invoices.Dates.{days_in, Date}

pub record Usage : Type 0 where
  pub plan : String
  pub max_workers : Option ℕ
  pub active_workers : ℕ
  pub week_seconds_used : ℕ
  pub week_cap_seconds : ℕ

pub record Tel : Type 0 where
  pub tasks_total : ℕ
  pub tokens_used : ℕ

pub record Page : Type 0 where
  pub u : Maybe Usage
  pub tel : Maybe Tel
  pub loading : Bool
  pub cycle_label : String
  pub days_left : Option ℕ

abbrev pub fresh_page : Page
fresh_page = record { u = null; tel = null; loading = true; cycle_label = ""; days_left = none }

-- `new Date(year, month + 1, 0).getDate() - now.getDate()`, and the label of the cycle; `month_of` is
-- the short name of the month in the language of the page, without its point.
unfoldable pub last_day : Date → ℕ
last_day d = days_in d.year d.month

module _ (month_of : Date → String) (write : ℕ → String) where
  unfoldable pub on_mount : Date → Page → Page
  unfolding last_day
  on_mount d s = record s {
    days_left = some (last_day d - d.day);
    cycle_label = Text.append "Ciclo 01–" (
        Text.append (write (last_day d))
          (Text.append " " (Text.append (month_of d) (Text.append " " (write d.year)))));
  }

-- The two calls of a load, in the order in which they return, and its end.
pub data Event : Type 0 where
  usage : PollReply Usage → Event
  telemetry : PollReply Tel → Event
  settled : Event

abbrev pub with_usage : PollReply Usage → Page → Page
with_usage (answered d) s = record s { u = d }
with_usage _ s = s

abbrev pub with_tel : PollReply Tel → Page → Page
with_tel (answered d) s = record s { tel = d }
with_tel _ s = s

-- Only the first load ends the loading: `load().then(() => setLoading(false))`.
unfoldable pub step : Event → Page → Page
step (usage r) s = with_usage r s
step (telemetry r) s = with_tel r s
step settled s = record s { loading = false }

unfoldable pub steps : List Event → Page → Page
unfolding step
steps [] s = s
steps (e ∷ es) s = steps es (step e s)

-- A percentage as a quotient.
pub record Percent : Type 0 where
  pub num : ℕ
  pub den : ℕ

abbrev pub zero_pct : Percent
zero_pct = record { num = 0; den = 1 }

-- `whole ? (100 * part) / whole : 0`
unfoldable pub share : ℕ → ℕ → Percent
share part whole = if nat_eq whole 0 then zero_pct else record { num = 100 * part; den = whole }

-- `Math.min(100, p)`
unfoldable pub at_most_100 : Percent → Percent
at_most_100 p = if ltb (100 * p.den) p.num then record { num = 100; den = 1 } else p

-- `p > n`
abbrev pub exceeds : Percent → ℕ → Bool
exceeds p n = ltb (n * p.den) p.num

unfoldable pub bar_color : Percent → String
bar_color p =
    if exceeds p 80 then "var(--red)" else if exceeds p 60 then "var(--orange)" else "var(--accent)"

abbrev pub plan_is_free : Maybe Usage → Bool
plan_is_free (value u) = u.plan == "free"
plan_is_free _ = false

-- `taskLimit` and `tokLimit`: only the free plan has them.
unfoldable pub task_limit : Maybe Usage → Option ℕ
task_limit u = if plan_is_free u then some 50 else none

unfoldable pub tok_limit : Maybe Usage → Option ℕ
tok_limit u = if plan_is_free u then some 500000 else none

abbrev pub of_usage : (Usage → ℕ) → Maybe Usage → ℕ
of_usage f (value u) = f u
of_usage f _ = 0

abbrev pub of_tel : (Tel → ℕ) → Maybe Tel → ℕ
of_tel f (value t) = f t
of_tel f _ = 0

unfoldable pub w_pct : Maybe Usage → Percent
unfolding share
w_pct (value u) = share u.active_workers (default 0 u.max_workers)
w_pct _ = zero_pct

unfoldable pub h_pct : Maybe Usage → Percent
unfolding share
h_pct (value u) = share u.week_seconds_used u.week_cap_seconds
h_pct _ = zero_pct

-- The share of a limit, full at most.
abbrev pub limited : ℕ → Option ℕ → Percent
limited n none = zero_pct
limited n (some l) = at_most_100 (share n l)

pub record Meter : Type 0 where
  pub label : String
  pub used : String
  pub total : String
  pub pct : Percent

abbrev pub max_of : Maybe Usage → Option ℕ
max_of (value u) = u.max_workers
max_of _ = none

-- The text under a meter: `Math.round(m.pct)` of the limit, or none.
abbrev pub rounded : Percent → ℕ
rounded p = round_div p.num p.den

module _ (write : ℕ → String) (fixed : ℕ → ℕ → ℕ → String) where
  unfoldable pub fmt_h : ℕ → String
  fmt_h s = if leb 3600 s then Text.append (fixed 1 s 3600) "h" else Text.append (write s) "s"

  unfoldable pub fmt_tok : ℕ → String
  fmt_tok n =
      if leb 1000000 n
      then Text.append (fixed 1 n 1000000) "M"
      else if leb 1000 n
      then Text.append (fixed 0 n 1000) "K"
      else write n

  abbrev pub or_infinite : (ℕ → String) → Option ℕ → String
  or_infinite f none = "∞"
  or_infinite f (some n) = f n

  -- `x ? some x : none`
  abbrev pub non_zero : ℕ → Option ℕ
  non_zero n = if nat_eq n 0 then none else some n

  unfoldable pub meters : (String → String → String) → Page → List Meter
  unfolding w_pct h_pct fmt_h fmt_tok task_limit tok_limit at_most_100 share
  meters t s =
      record {
        label = t "Workers simultâneos" "Concurrent workers";
        used = write (of_usage (λ u. u.active_workers) s.u);
        total = or_infinite write (max_of s.u);
        pct = w_pct s.u;
      }
      ∷ record {
        label = t "Worker-hours / semana" "Worker-hours / week";
        used = fmt_h (of_usage (λ u. u.week_seconds_used) s.u);
        total = or_infinite fmt_h (non_zero (of_usage (λ u. u.week_cap_seconds) s.u));
        pct = h_pct s.u;
      }
      ∷ record {
        label = t "Tarefas / mês" "Tasks / month";
        used = write (of_tel (λ x. x.tasks_total) s.tel);
        total = or_infinite write (task_limit s.u);
        pct = limited (of_tel (λ x. x.tasks_total) s.tel) (task_limit s.u);
      }
      ∷ record {
        label = t "Tokens / mês" "Tokens / month";
        used = fmt_tok (of_tel (λ x. x.tokens_used) s.tel);
        total = or_infinite fmt_tok (tok_limit s.u);
        pct = limited (of_tel (λ x. x.tokens_used) s.tel) (tok_limit s.u);
      }
      ∷ []

  -- The line under a meter.
  unfoldable pub caption : (String → String → String) → Meter → String
  caption t m =
      if m.total == "∞"
      then t "sem limite" "no limit"
      else Text.append (write (rounded m.pct)) (Text.append "% " (t "do limite" "of limit"))

  -- The days that are left, and the word after them.
  unfoldable pub days_text : (String → String → String) → Option ℕ → Option String
  days_text t none = none
  days_text t (some n) = some (
      Text.append (write n) (
        Text.append " " (
          if nat_eq n 1
          then t "dia restante" "day remaining"
          else t "dias restantes" "days remaining")))

module _ (upper : String → String) where
  -- `u?.plan ? u.plan.charAt(0).toUpperCase() + u.plan.slice(1) : "Free"`
  unfoldable pub plan_name : Maybe Usage → String
  plan_name (value u) =
      if u.plan == "" then "Free" else Text.append (upper (Text.take 1 u.plan)) (Text.drop 1 u.plan)
  plan_name _ = "Free"
