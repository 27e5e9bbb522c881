-- ===== src/Logs.antt =====
-- The page of the logs (app/dashboard/app/logs/page.tsx): levels, filters and the terminal's lines.
-- Styles and static labels are left out.
pub mod Laws
use apifor_dev.Common.{
  ℕ, ◌-◌, String, ◌==◌, Bool, true, ◌||◌, not, Option, none, some, List, [], ◌∷◌, map, nat_eq,
  if◌then◌else◌, length, take, drop, filter, any, contains,
}
use apifor_dev.Common.Text
use apifor_dev.Choices.{choices}
use apifor_dev.Interventions.{short}
use apifor_dev.Queue.{lit}

pub record Log : Type 0 where
  pub when : String
  pub task_id : String
  pub kind : String
  pub status : String
  pub log : String

abbrev pub levels : List (String × String)
levels = ("todos", "Todos") ∷ ("info", "Info") ∷ ("warn", "Aviso") ∷ ("err", "Erro") ∷ []

-- The word and the colour of a status.
unfoldable pub lvl : String → String × String
lvl s =
    if s == "failed" || s == "changes"
    then ("ERRO", "var(--red)")
    else if s == "done" || s == "passed" || s == "approved" || s == "merged"
    then ("OK", "var(--green)")
    else if s == "running" || s == "active"
    then ("INFO", "var(--blue)")
    else if s == "pending" || s == "planning"
    then ("AVISO", "var(--orange)")
    else ("INFO", "var(--dim)")

unfoldable pub match_level : String → String → Bool
match_level f s =
    if f == "todos"
    then true
    else if f == "err"
    then s == "failed" || s == "changes"
    else if f == "warn"
    then s == "pending" || s == "planning"
    else if f == "info"
    then not (contains ("failed" ∷ "changes" ∷ "pending" ∷ "planning" ∷ []) s)
    else true

abbrev or_else : String → String → String
or_else s d = if s == "" then d else s

-- The time of day of a date in ISO form.
unfoldable pub fmt_time : String → String
fmt_time iso = if iso == "" then "—" else or_else (Text.take 8 (Text.drop 11 iso)) iso

pub record Logs : Type 0 where
  pub level : String
  pub who : String
  pub agent : String

pub data Event : Type 0 where
  set_level set_who set_agent : String → Event

unfoldable pub step : Event → Logs → Logs
step (set_level v) s = record s { level = v }
step (set_who v) s = record s { who = v }
step (set_agent v) s = record s { agent = v }

unfoldable pub workers : List Log → List String
workers ls = choices (map (λ (l : Log). l.task_id) ls)

unfoldable pub agents : List Log → List String
agents ls = choices (map (λ (l : Log). l.kind) ls)

unfoldable pub rows : Logs → List Log → List Log
rows s ls =
    filter (λ l. s.agent == "todos" || l.kind == s.agent)
      (filter (λ l. s.who == "todos" || l.task_id == s.who)
        (filter (λ l. match_level s.level l.status) ls))

-- `id.replace(/^tsk_/, "")`
abbrev pub bare : String → String
bare id = if Text.starts_with id "tsk_" then Text.drop 4 id else id

-- One line of the terminal: the time, the word and its colour, the source, and the text.
pub record Line : Type 0 where
  pub time : String
  pub level : String × String
  pub source : String
  pub text : String

unfoldable pub line : Log → Line
unfolding short
line l = record {
  time = fmt_time l.when;
  level = lvl l.status;
  source = Text.append l.kind (Text.append "#" (short 4 (bare l.task_id)));
  text = or_else l.log l.status;
}

pub record Screen : Type 0 where
  pub who_options : List (String × String)
  pub agent_options : List String
  pub pills : List (String × Bool)
  pub terminal : List Line
  pub empty : Bool
  pub lines : ℕ
  -- The total and how many are filtered out, when any are.
  pub hidden : Option (ℕ × ℕ)

unfoldable pub screen : List Log → Logs → Screen
unfolding workers agents rows line short
screen ls s =
    let shown = rows s ls in
    record {
      who_options = map (λ w. (w, Text.append "#" (short 8 (bare w)))) (workers ls);
      agent_options = agents ls;
      pills = lit s.level levels;
      terminal = map line shown;
      empty = nat_eq (length shown) 0;
      lines = length shown;
      hidden =
          if nat_eq (length ls) (length shown)
          then none
          else some (length ls, length ls - length shown);
    }
