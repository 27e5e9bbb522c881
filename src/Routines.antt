-- ===== src/Routines.antt =====
-- The page of the routines (app/dashboard/app/routines/page.tsx): their times, their schedule, and the
-- actions. `Number`, the printing of numbers and the clock are parameters.
pub mod Laws
use apifor_dev.Common.{
  round_div, ℕ, suc, ◌+◌, ◌-◌, ◌/◌, String, ◌==◌, Bool, true, false, ◌||◌, Option, none, some, List,
  [], ◌∷◌, map, ltb, nat_eq, if◌then◌else◌, length,
}
use apifor_dev.Common.Text
use apifor_dev.Async.{thrown, returned, call, Script, done, set, Outcome}
use apifor_dev.Paging.{next_page, prev_page, rows}
use apifor_dev.Queue.{Pager, pager}
use apifor_dev.Paging.{total_pages}

pub record Routine : Type 0 where
  pub id : String
  pub name : String
  pub trigger : String
  pub interval_sec : ℕ
  pub enabled : Bool
  pub last_run : String
  pub next_run : String

-- `Date.now() - new Date(iso).getTime()`: so many milliseconds from now, or ago; or not a number.
pub data Distance : Type 0 where
  ahead ago : ℕ → Distance
  unreadable : Distance

abbrev pub ceil_div : ℕ → ℕ → ℕ
ceil_div a b = (a + (b - 1)) / b

module _ (show : ℕ → String) where
  abbrev within : ℕ → String → String
  within n unit = Text.append "em " (Text.append (show n) unit)

  abbrev since : ℕ → String → String
  since n unit = Text.append (show n) (Text.append unit " atrás")

  abbrev soon : ℕ → String
  soon s =
      if ltb s 60
      then within s "s"
      else if ltb (ceil_div s 60) 60
      then within (ceil_div s 60) "m"
      else within (ceil_div (ceil_div s 60) 60) "h"

  abbrev past : ℕ → String
  past s =
      let m = s / 60 in
      let h = m / 60 in
      if ltb s 60
      then since s "s"
      else if ltb m 60
      then since m "m"
      else if ltb h 24
      then since h "h"
      else since (h / 24) "d"

  unfoldable pub fmt_time : (String → Distance) → String → String
  fmt_time distance iso = if iso == "" then "—" else elim (distance iso) [
    | ahead ms ↦ soon (ceil_div ms 1000)
    | ago ms ↦ past (ms / 1000)
    | unreadable ↦ "NaNd atrás"
  ]

  abbrev pub every : ℕ → String → String
  every n unit = Text.append "A cada " (Text.append (show n) unit)

  unfoldable pub sched_label : Routine → String
  sched_label r =
      let s = r.interval_sec in
      if r.trigger == "schedule"
      then if nat_eq s 0
        then "schedule"
        else if ltb s 60
        then every s "s"
        else if ltb s 3600
        then every (round_div s 60) "min"
        else every (round_div s 3600) "h"
      else "Manual"

-- The form of a new routine.
pub record Form : Type 0 where
  pub name : String
  pub trigger : String
  pub interval : String
  pub prompt : String
  pub repo : String

abbrev pub blank_form : Form
blank_form = record { name = ""; trigger = "manual"; interval = "30"; prompt = ""; repo = "" }

-- `reloads` counts the calls of the poll's `reload`.
pub record Routines : Type 0 where
  pub page : ℕ
  pub new_open : Bool
  pub creating : Bool
  pub f : Form
  pub reloads : ℕ

pub record Call : Type 0 where
  pub method : String
  pub url : String
  pub interval_sec : Option ℕ
  pub fields : List (String × String)

abbrev pub Handler : Type 0
Handler = Script Routines Call Unit

abbrev reload : Routines → Routines
reload s = record s { reloads = suc s.reloads }

abbrev finally : Handler
finally = set (λ s. record s { creating = false }) done

abbrev pub after_create : Outcome Unit → Handler
after_create (returned r) =
    set (λ s. record s { f = blank_form; new_open = false }) (set reload finally)
after_create (thrown e) = finally

-- `Number(f.interval) || 0` is `number`.
abbrev pub new_call : (String → ℕ) → Form → Call
new_call number f = record {
  method = "POST";
  url = "/v1/routines";
  interval_sec = some (number f.interval);
  fields =
      ("name", f.name)
      ∷ ("trigger", f.trigger)
      ∷ ("prompt", f.prompt)
      ∷ (if f.repo == "" then [] else ("repo_id", f.repo) ∷ []);
}

unfoldable pub create : (String → ℕ) → Routines → Handler
create number s =
    if (s.f.name == "") || (s.f.prompt == "")
    then done
    else set (λ t. record t { creating = true }) (call (λ t. new_call number s.f) after_create)

abbrev then_reload : Outcome Unit → Handler
then_reload (returned r) = set reload done
then_reload (thrown e) = done

abbrev pub routine_url : String → String
routine_url id = Text.append "/v1/routines/" id

unfoldable pub del : String → Handler
del id =
    call (λ s. record { method = "DELETE"; url = routine_url id; interval_sec = none; fields = [] })
      then_reload

unfoldable pub act : String → String → Handler
act id a =
    call
      (λ s. record {
        method = "POST";
        url = Text.append (routine_url id) (Text.append "/" a);
        interval_sec = none;
        fields = [];
      })
      then_reload

-- One routine of the list: the button asks for the opposite of its state.
pub record Row : Type 0 where
  pub key : String
  pub name : String
  pub sched : String
  pub status : String × (String × String)
  pub action : String × String
  pub last : String
  pub next : String

module _ (show : ℕ → String) (distance : String → Distance) where
  unfoldable pub row : Routine → Row
  unfolding fmt_time sched_label
  row r = record {
    key = r.id;
    name = r.name;
    sched = sched_label show r;
    status =
        if r.enabled
        then ("ativa", ("var(--green)", "var(--green-tint)"))
        else ("pausada", ("var(--mute)", "var(--border)"));
    action = if r.enabled then ("disable", "Pausar") else ("enable", "Ativar");
    last = fmt_time show distance r.last_run;
    next = fmt_time show distance r.next_run;
  }

  unfoldable pub screen : List Routine → Routines → List Row × Option Pager
  unfolding row rows pager total_pages
  screen list s = (map row (rows 20 s.page list), pager (total_pages 20 (length list)) s.page)

-- The dialog and the pager.
pub data Edit : Type 0 where
  open_new close_new prev next : Edit
  fill : (Form → Form) → Edit

unfoldable pub edit : List Routine → Edit → Routines → Routines
unfolding prev_page next_page total_pages
edit list open_new s = record s { new_open = true }
edit list close_new s = record s { new_open = false }
edit list prev s = record s { page = prev_page s.page }
edit list next s = record s { page = next_page (total_pages 20 (length list)) s.page }
edit list (fill g) s = record s { f = g s.f }
