-- ===== src/Pinned/Screen.antt =====
-- What the settings page shows of the pinned workers, with the dialog of one worker and its controls
-- (app/dashboard/app/config/page.tsx), and the tab of the limits. `write` prints a number.
use apifor_dev.Common.{
  ℕ, String, ◌==◌, Bool, false, ◌&&◌, not, Option, none, some, List, [], ◌∷◌, ◌++◌, map, ltb,
  if◌then◌else◌, default, length, all,
}
use apifor_dev.Common.Text
use apifor_dev.Poll.{value, Maybe}
use apifor_dev.Pinned.{
  Call, is_true, not_false, toggle_all_pinned, Pinned, Form, save_pw, PinnedW, open_pw_create,
}
use apifor_dev.Poll.Guarded.{answered, PollReply}
use apifor_dev.Async.{done, Script}
use apifor_dev.Async.Press.{unless}

abbrev pub max_pinned : ℕ
max_pinned = 8

abbrev pub model_label : String → Option String
model_label m =
    if m == "claude_opus"
    then some "Claude Opus 4.8"
    else if m == "claude_sonnet"
    then some "Claude Sonnet 4.6"
    else if m == "claude_haiku"
    then some "Claude Haiku 4.5"
    else none

-- A worker as the tab lists it, with the name of its repository.
pub record Shown : Type 0 where
  pub worker : PinnedW
  pub repo_name : String

pub record Card : Type 0 where
  pub focus : String
  pub bound : String
  pub on : Bool
  pub word : String
  pub facts : List (String × String)
  pub caps : List (String × Bool)
  pub rules : Option String

abbrev pub or_text : String → String → String
or_text s d = if s == "" then d else s

-- `pinnedList.every((p) => p.enabled !== false)`
abbrev pub all_on : List PinnedW → Bool
all_on ws = all (λ p. not_false p.enabled) ws

-- The button over the list: its text, and what a press turns all workers to; absent for no worker.
unfoldable pub all_button : List PinnedW → Option (String × Bool)
all_button ws =
    if ltb 0 (length ws)
    then some (if all_on ws then "Desligar todos" else "Ligar todos", not (all_on ws))
    else none

-- A press of that button.
unfoldable pub press_all : List PinnedW → Script Pinned Call (Unit {0})
unfolding toggle_all_pinned
press_all ws = if ltb 0 (length ws) then toggle_all_pinned (not (all_on ws)) else done

unfoldable pub can_add : List PinnedW → Bool
can_add ws = ltb (length ws) max_pinned

-- The button that adds a worker, off at the limit.
unfoldable pub press_add : List PinnedW → Pinned → Pinned
unfolding can_add open_pw_create
press_add ws s = if can_add ws then open_pw_create s else s

unfoldable pub press_save : Pinned → Script Pinned Call (Unit {0})
unfolding save_pw
press_save s = unless s.busy (save_pw s)

pub data Edit : Type 0 where
  focus repo_id model rules : String → Edit
  concurrency : ℕ → Edit
  open_pr run_tests auto_merge : Bool → Edit
  close : Edit

abbrev with_form : Form → Pinned → Pinned
with_form f s = record s { form = f }

unfoldable pub edit : Edit → Pinned → Pinned
edit (focus v) s = with_form (record s.form { focus = v }) s
edit (repo_id v) s = with_form (record s.form { repo_id = v }) s
edit (model v) s = with_form (record s.form { model = v }) s
edit (rules v) s = with_form (record s.form { rules = v }) s
edit (concurrency n) s = with_form (record s.form { concurrency = n }) s
edit (open_pr b) s = with_form (record s.form { open_pr = b }) s
edit (run_tests b) s = with_form (record s.form { run_tests = b }) s
edit (auto_merge b) s = with_form (record s.form { auto_merge = b }) s
edit close s = record s { open? = false }

-- The dialog: its title, its button with what it says, the form.
pub record Dialog : Type 0 where
  pub title : String
  pub save : String × Bool
  pub form : Form

abbrev pub save_label : Bool → Bool → String
save_label busy editing = if busy then "Salvando…" else if editing then "Salvar" else "Criar worker"

abbrev pub form_dialog : Bool → Pinned → Dialog
form_dialog editing s = record {
  title = if editing then "Editar worker dedicado" else "Adicionar worker dedicado";
  save = (save_label s.busy editing, not s.busy);
  form = s.form;
}

unfoldable pub dialog : Pinned → Option Dialog
dialog s = if s.open? then some (form_dialog (not (default "" s.edit_id == "")) s) else none

module _ (write : ℕ → String) where
  unfoldable pub card : Shown → Card
  card x =
      let p = x.worker in
      record {
        focus = or_text p.focus "worker dedicado";
        bound = Text.append "preso a " (or_text x.repo_name "qualquer repo");
        on = not_false p.enabled;
        word = if not_false p.enabled then "ligado" else "desligado";
        facts =
            ("Repositório", or_text x.repo_name "qualquer")
            ∷ ("Foco", or_text p.focus "—")
            ∷ ("Modelo", default p.model (model_label p.model))
            ∷ ("Concorrência", write p.concurrency)
            ∷ [];
        caps =
            ("Abrir PR", not_false p.open_pr)
            ∷ ("Rodar testes", not_false p.run_tests)
            ∷ ("Auto-merge", is_true p.auto_merge)
            ∷ [];
        rules = if default "" p.rules == "" then none else p.rules;
      }

-- The tab in this mode: how many of how many, the two buttons, the cards.
pub record Screen : Type 0 where
  pub total : ℕ × ℕ
  pub all : Option (String × Bool)
  pub add : Bool
  pub cards : List Card

unfoldable pub screen : (ℕ → String) → List Shown → Screen
unfolding all_button can_add card
screen write xs =
    let ws = map (λ (x : Shown). x.worker) xs in
    record {
      total = (length xs, max_pinned);
      all = all_button ws;
      add = can_add ws;
      cards = map (card write) xs;
    }

-- The tab of the limits: its first card is shown on a paid plan only.
unfoldable pub is_paid : Maybe String → Bool
is_paid (value plan) = not (plan == "") && not (plan == "free")
is_paid _ = false

-- Its one call keeps an answer without an error; the plan is all that the tab reads of it.
unfoldable pub limits_loaded : PollReply String → Maybe String → Maybe String
limits_loaded (answered d) u = d
limits_loaded _ u = u

abbrev pub limit_cards : Maybe String → List String
limit_cards u =
    (if is_paid u then "Limite por % de uso" ∷ [] else []) ++ ("Gastos" ∷ "Capacidade" ∷ [])
