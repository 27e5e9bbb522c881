-- ===== src/Interventions.antt =====
-- The intervention page (app/dashboard/app/interventions/page.tsx): the pool's switch, the items that
-- wait for a person, their filters and pages, and the answer to a decision. The age of an item is
-- computed from the clock's reading, a parameter.
pub mod Laws
pub mod Screen
pub mod Answering
use apifor_dev.Common.{
  ℕ, ◌+◌, ◌/◌, String, ◌==◌, Bool, true, false, ◌&&◌, ◌||◌, not, Option, none, some, List, [], ◌∷◌,
  ◌++◌, map, ltb, if◌then◌else◌, default, is_some, length, take, drop, filter, any,
}
use apifor_dev.Common.Text
use apifor_dev.Pipeline.{Task}
use apifor_dev.Async.{thrown, call, set, done, returned, Script, Outcome}

pub record Intervention : Type 0 where
  pub task_id : String
  pub title : String
  pub branch : String
  pub ci_status : String
  pub ai_review_status : String
  pub created_at : String

pub record PoolCfg : Type 0 where
  pub paused : Bool
  pub parallel_workers : ℕ

pub data Kind : Type 0 where
  decisao bloqueada : Kind

pub record Item : Type 0 where
  pub id : String
  pub kind : Kind
  pub title : String
  pub repo : String
  pub agent : String
  pub age : String
  pub reason : String
  pub ci : Option String
  pub ai : Option String

abbrev pub filters : List (String × String)
filters = ("todos", "Todos") ∷ ("decisao", "Decisões") ∷ ("bloqueada", "Bloqueadas") ∷ []

-- The decimal digits of a number, as a template literal prints it: a parameter of the language.
-- `age`, from the whole minutes that have passed.
unfoldable pub age : (ℕ → String) → ℕ → String
age print m =
    if ltb m 60
    then Text.append (print m) "m"
    else if ltb (m / 60) 24
    then Text.append (print (m / 60)) "h"
    else Text.append (print (m / 60 / 24)) "d"

-- `id.length > n ? id.slice(0, n) + "…" : id`
unfoldable pub short : ℕ → String → String
short n id = if ltb n (Text.length id) then Text.append (Text.take n id) "…" else id

-- `id.replace(/^tsk_/, "#")`
unfoldable pub hash : String → String
hash id = if Text.starts_with id "tsk_" then Text.append "#" (Text.drop 4 id) else id

-- `s || "—"`
abbrev pub or_dash : String → String
or_dash s = if s == "" then "—" else s

unfoldable pub blocked : Task → Item
unfolding short hash
blocked t = record {
  id = t.id;
  kind = bloqueada;
  title = t.title;
  repo = short 20 (default "" t.repo_id);
  agent = short 8 (hash t.id);
  age = "";
  reason =
      Text.append "Tarefa com status \""
        (Text.append t.status "\" — acione o agente de correção ou reprocesse.");
  ci = none;
  ai = none;
}

-- `intIds.has(t.id)`
abbrev pub has_id : List Intervention → String → Bool
has_id ints id = any (λ i. i.task_id == id) ints

abbrev pub is_stuck : List Intervention → Task → Bool
is_stuck ints t = (t.status == "blocked" || t.status == "failed") && not (has_id ints t.id)

module _ (minutes : String → ℕ) (print : ℕ → String) where
  -- `""` for a missing date, and the age otherwise; `minutes` reads the date and the clock.
  abbrev age_of : String → String
  age_of iso = if iso == "" then "" else age print (minutes iso)

  unfoldable pub decision : Intervention → Item
  unfolding short hash age
  decision i = record {
    id = i.task_id;
    kind = decisao;
    title = i.title;
    repo = short 20 i.branch;
    agent = short 8 (hash i.task_id);
    age = age_of i.created_at;
    reason = Text.append "CI: " (
        Text.append (or_dash i.ci_status) (
          Text.append " · IA: " (
            Text.append (or_dash i.ai_review_status)
              " — aguardando aprovação humana antes do merge.")));
    ci = some i.ci_status;
    ai = some i.ai_review_status;
  }

  -- The decisions, and behind them the blocked tasks that no decision names.
  unfoldable pub all_items : List Intervention → List Task → List Item
  unfolding decision blocked
  all_items ints tasks = map decision ints ++ map blocked (filter (is_stuck ints) tasks)

abbrev pub kind_name : Kind → String
kind_name decisao = "decisao"
kind_name bloqueada = "bloqueada"

unfoldable pub filtered : (String → String) → String → String → List Item → List Item
filtered lower kind q items =
    filter
      (λ i.
        q == "" || Text.includes (lower (Text.append (Text.append i.title i.id) i.repo)) (lower q))
      (filter (λ i. kind == "todos" || kind_name i.kind == kind) items)

-- What the pool's card says: the word, its colour, and whether the button is off.
pub record PoolCard : Type 0 where
  pub word : String
  pub colour : String
  pub sub : String
  pub button : String
  pub button_off : Bool

abbrev pub is_paused : Option PoolCfg → Bool
is_paused none = false
is_paused (some p) = p.paused

unfoldable pub pool_card : (ℕ → String) → Option PoolCfg → ℕ → Bool → PoolCard
pool_card print pool workers toggling =
    let paused : Bool = is_paused pool in
    let running : Bool = not paused && ltb 0 workers in
    record {
      word = if running then "RODANDO" else if paused then "PAUSADO" else "PARADO";
      colour =
          if running then "var(--green)" else if paused then "var(--orange)" else "var(--mute)";
      sub =
          if running
          then Text.append (print workers) " worker(s) ativo(s) · gates server-side"
          else if paused
          then "Pool pausado · novas tarefas aguardam na fila"
          else "Nenhum worker ativo";
      button = if paused then "Retomar pool" else "Pausar pool";
      button_off = toggling || not (is_some pool);
    }

-- The state that the calls change: the pool as last read, the switch under way, and how often the
-- page asked for the pool and for the interventions anew.
pub record Interventions : Type 0 where
  pub pool : Option PoolCfg
  pub toggling : Bool
  pub pool_loads : ℕ
  pub reloads : ℕ

pub data Call : Type 0 where
  post_pool : PoolCfg → Call
  post_answer : String → String → Call

abbrev pub released : Script Interventions Call (Unit {0})
released = set (λ s. record s { toggling = false }) done

abbrev pub after_toggle : Outcome (Unit {0}) → Script Interventions Call (Unit {0})
after_toggle (returned r) = set (λ s. record s { pool_loads = s.pool_loads + 1 }) released
after_toggle (thrown e) = released

abbrev pub toggle_from : Option PoolCfg → Script Interventions Call (Unit {0})
toggle_from none = done
toggle_from (some p) =
    set (λ s. record s { toggling = true })
      (call (λ s. post_pool (record p { paused = not p.paused })) after_toggle)

unfoldable pub toggle_pool : Interventions → Script Interventions Call (Unit {0})
toggle_pool s = toggle_from s.pool

abbrev pub after_answer : Outcome (Unit {0}) → Script Interventions Call (Unit {0})
after_answer (returned r) = set (λ s. record s { reloads = s.reloads + 1 }) done
after_answer (thrown e) = done

unfoldable pub answer : String → String → Script Interventions Call (Unit {0})
answer task_id decision' = call (λ s. post_answer task_id decision') after_answer
