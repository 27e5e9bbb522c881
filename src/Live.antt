-- ===== src/Live.antt =====
-- The live page (app/dashboard/app/live/page.tsx): the event stream of the workers, the poll of the
-- pool, and the cards that it draws. `write` prints a number.
pub mod Laws
use apifor_dev.Common.{
  ℕ, ◌+◌, ◌-◌, String, ◌==◌, Bool, true, false, ◌&&◌, ◌||◌, not, Option, none, some, List, [], ◌∷◌,
  nat_eq, if◌then◌else◌, default, length, drop, count, contains,
}
use apifor_dev.Common.Text
use apifor_dev.Invoices.Dates.{two_digits}
use apifor_dev.Poll.{value, Maybe, null}
use apifor_dev.Interventions.{short}
use apifor_dev.Poll.Guarded.{null_effect, answered, PollReply}

pub record Worker : Type 0 where
  pub id : String
  pub source : String
  pub host : String
  pub status : String
  pub current_step : String
  pub current_task_id : String

pub record Task : Type 0 where
  pub id : String
  pub title : String

pub record Snapshot : Type 0 where
  pub workers : List Worker
  pub tasks : List Task

-- `paused` is missing from the empty object, which `safeJson` makes of a 401 and of a body that is no
-- JSON.
pub record PoolCfg : Type 0 where
  pub paused : Option Bool

abbrev pub empty_pool : PoolCfg
empty_pool = record { paused = none }

pub record Live : Type 0 where
  pub shown : Snapshot
  pub live : Bool
  pub pool : Maybe PoolCfg
  pub loading : Bool

abbrev pub fresh_live : Live
fresh_live = record {
  shown = record { workers = []; tasks = [] };
  live = false;
  pool = null;
  loading = true;
}

-- An event of the stream, whose message is `none` where it is no JSON, or a poll that returns.
pub data Event : Type 0 where
  opened failed : Event
  message : Option Snapshot → Event
  polled : PollReply PoolCfg → Event

-- The reply of the pool, and the effect `if (pool !== null) setLoading(false)`.
abbrev pub on_pool : PollReply PoolCfg → Live → Live
on_pool (answered d) s = record s { pool = d; loading = null_effect d s.loading }
on_pool _ s = s

unfoldable pub step : Event → Live → Live
step opened s = record s { live = true }
step failed s = record s { live = false }
step (message none) s = s
step (message (some d)) s = record s { shown = d }
step (polled r) s = on_pool r s

unfoldable pub steps : List Event → Live → Live
unfolding step
steps [] s = s
steps (e ∷ es) s = steps es (step e s)

abbrev pub running_states : List String
running_states = "running" ∷ "busy" ∷ "active" ∷ "exec" ∷ []

unfoldable pub worker_color : String → String
worker_color s =
    if contains running_states s
    then "var(--accent)"
    else if s == "merged" || s == "done"
    then "var(--green)"
    else if s == "failed" || s == "blocked"
    then "var(--red)"
    else if s == "paused"
    then "var(--orange)"
    else "var(--mute)"

-- `pool?.paused ?? false`
abbrev pub is_paused : Maybe PoolCfg → Bool
is_paused (value p) = default false p.paused
is_paused _ = false

unfoldable pub pool_color : Live → String
pool_color s =
    if s.live && not (is_paused s.pool)
    then "var(--green)"
    else if is_paused s.pool
    then "var(--orange)"
    else "var(--mute)"

unfoldable pub pool_word : Live → String
pool_word s = if is_paused s.pool then "PAUSADO" else if s.live then "RODANDO" else "OFFLINE"

unfoldable pub n_running : List Worker → ℕ
n_running ws = count (λ w. contains running_states w.status) ws

-- `tasks.find((x) => x.id === id)?.title ?? ""`
unfoldable pub task_title : List Task → String → String
task_title [] id = ""
task_title (t ∷ ts) id = if t.id == id then t.title else task_title ts id

pub record Card : Type 0 where
  pub code : String
  pub color : String
  pub animated : Bool
  pub paused : Bool
  pub task : Option String
  pub title : String
  pub status : String
  pub place : String × String
  pub bar : Option String
  pub mark : String
  pub step : String

-- `taskId.replace(/^tsk_/, "")`
abbrev pub bare : String → String
bare id = if Text.starts_with id "tsk_" then Text.drop 4 id else id

abbrev pub title_of : List Task → Worker → String
title_of tasks w =
    let t = task_title tasks w.current_task_id in
    if t == "" then if contains running_states w.status then "processando…" else "ocioso" else t

-- The bar below a card: a moving one, a full one, or none.
abbrev pub bar_of : String → Option String
bar_of status =
    if contains running_states status
    then some "moving"
    else if status == "merged"
    then some "full"
    else none

pub record Screen : Type 0 where
  pub loading : Bool
  pub active : ℕ
  pub free : ℕ
  pub pool : String × String
  pub list : List Card
  pub empty : Bool
  pub footer : String

module _ (write : ℕ → String) where
  unfoldable pub card : List Task → ℕ → Worker → Card
  unfolding two_digits worker_color task_title short
  card tasks i w = record {
    code = Text.append "W-" (two_digits (λ s. none) write (i + 1));
    color = worker_color w.status;
    animated = contains running_states w.status;
    paused = w.status == "paused";
    task =
        if w.current_task_id == ""
        then none
        else some (Text.append "#" (short 6 (bare w.current_task_id)));
    title = title_of tasks w;
    status = w.status;
    place = (w.source, Text.append ":" w.host);
    bar = bar_of w.status;
    mark =
        if contains running_states w.status then "●" else if w.status == "merged" then "✓" else "—";
    step = if w.current_step == "" then "aguardando…" else w.current_step;
  }

  unfoldable pub cards : List Task → ℕ → List Worker → List Card
  unfolding card
  cards tasks i [] = []
  cards tasks i (w ∷ ws) = card tasks i w ∷ cards tasks (i + 1) ws

  -- The page: the numbers of its subtitle, the pool, the cards and the state of the stream.
  unfoldable pub screen : Live → Screen
  unfolding n_running pool_word pool_color cards
  screen s = record {
    loading = s.loading;
    active = length s.shown.workers;
    free = length s.shown.workers - n_running s.shown.workers;
    pool = (pool_word s, pool_color s);
    list = cards s.shown.tasks 0 s.shown.workers;
    empty = nat_eq (length s.shown.workers) 0;
    footer = if s.live then "SSE conectado" else "SSE offline";
  }
