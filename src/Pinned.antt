-- ===== src/Pinned.antt =====
-- The pinned workers of the settings page (app/dashboard/app/config/page.tsx): the form, its
-- opening on a new or a listed worker, its saving, and the switches. The toasts are the texts kept in
-- the state, the last one first.
pub mod Laws
pub mod Screen
pub mod Turning
use apifor_dev.Common.{
  ℕ, ◌+◌, String, ◌==◌, Bool, true, false, not, Option, none, some, List, ◌∷◌, nat_eq,
  if◌then◌else◌, default,
}
use apifor_dev.Async.{thrown_text, thrown, done, call, returned, set, Outcome, Script}

-- A worker as the server lists it; `none` is a field that is missing.
pub record PinnedW : Type 0 where
  pub id : String
  pub focus : String
  pub repo_id : String
  pub concurrency : ℕ
  pub model : String
  pub rules : Option String
  pub enabled : Option Bool
  pub open_pr : Option Bool
  pub run_tests : Option Bool
  pub auto_merge : Option Bool

pub record Form : Type 0 where
  pub focus : String
  pub repo_id : String
  pub model : String
  pub concurrency : ℕ
  pub rules : String
  pub enabled : Bool
  pub open_pr : Bool
  pub run_tests : Bool
  pub auto_merge : Bool

pub record Capabilities : Type 0 where
  pub open_pr : Bool
  pub run_tests : Bool
  pub auto_merge : Bool

-- The body of a call about one worker.
pub record Body : Type 0 where
  pub focus : String
  pub repo_id : String
  pub model : String
  pub concurrency : ℕ
  pub rules : String
  pub enabled : Bool
  pub capabilities : Capabilities

unfoldable pub pw_body : Form → Body
pw_body x = record {
  focus = x.focus;
  repo_id = x.repo_id;
  model = x.model;
  concurrency = x.concurrency;
  rules = x.rules;
  enabled = x.enabled;
  capabilities = record { open_pr = x.open_pr; run_tests = x.run_tests; auto_merge = x.auto_merge };
}

pub record Pinned : Type 0 where
  pub open? : Bool
  pub edit_id : Option String
  pub busy : Bool
  pub form : Form
  pub toasts : List String
  pub reloads : ℕ

pub data Call : Type 0 where
  post_new : Body → Call
  post_to : String → Body → Call
  delete_at : String → Call
  bulk : Bool → Call

abbrev pub new_form : Form
new_form = record {
  focus = "backend";
  repo_id = "";
  model = "claude_opus";
  concurrency = 1;
  rules = "";
  enabled = true;
  open_pr = true;
  run_tests = true;
  auto_merge = false;
}

unfoldable pub open_pw_create : Pinned → Pinned
open_pw_create s = record s { edit_id = none; form = new_form; open? = true }

-- `x !== false`
abbrev pub not_false : Option Bool → Bool
not_false none = true
not_false (some b) = b

-- `!!x`
abbrev pub is_true : Option Bool → Bool
is_true none = false
is_true (some b) = b

-- The form of a listed worker, each empty field replaced by its default.
unfoldable pub form_of : PinnedW → Form
form_of p = record {
  focus = p.focus;
  repo_id = p.repo_id;
  model = if p.model == "" then "claude_opus" else p.model;
  concurrency = if nat_eq p.concurrency 0 then 1 else p.concurrency;
  rules = default "" p.rules;
  enabled = not_false p.enabled;
  open_pr = not_false p.open_pr;
  run_tests = not_false p.run_tests;
  auto_merge = is_true p.auto_merge;
}

unfoldable pub open_pw_edit : PinnedW → Pinned → Pinned
unfolding form_of
open_pw_edit p s = record s { edit_id = some p.id; form = form_of p; open? = true }

abbrev pub say : String → Pinned → Pinned
say text s = record s { toasts = text ∷ s.toasts }

abbrev pub not_busy : Pinned → Pinned
not_busy s = record s { busy = false }

abbrev is_edit : Option String → Bool
is_edit none = false
is_edit (some id) = not (id == "")

abbrev pub saved : Option String → Pinned → Pinned
saved e s = record (say (if is_edit e then "worker atualizado" else "worker criado") s) {
  open? = false;
  reloads = s.reloads + 1;
}

abbrev pub after_save : Option String → Outcome (Unit {0}) → Script Pinned Call (Unit {0})
after_save e (returned r) = set (saved e) (set not_busy done)
after_save e (thrown m) = set (say (thrown_text m "falha ao salvar")) (set not_busy done)

-- The call of a save: the worker's own path when one is edited.
unfoldable pub save_call : Pinned → Call
unfolding pw_body
save_call s =
    if is_edit s.edit_id
    then post_to (default "" s.edit_id) (pw_body s.form)
    else post_new (pw_body s.form)

unfoldable pub save_pw : Pinned → Script Pinned Call (Unit {0})
unfolding save_call
save_pw s = set (λ t. record t { busy = true }) (call (λ t. save_call s) (after_save s.edit_id))

-- `p.enabled === false`: what the switch turns the worker to.
abbrev pub turned : PinnedW → Bool
turned p = not (not_false p.enabled)

-- The body that the switch sends: the listed fields, without the form's defaults.
unfoldable pub toggle_body : PinnedW → Body
toggle_body p = record {
  focus = p.focus;
  repo_id = p.repo_id;
  model = p.model;
  concurrency = p.concurrency;
  rules = default "" p.rules;
  enabled = turned p;
  capabilities = record {
    open_pr = not_false p.open_pr;
    run_tests = not_false p.run_tests;
    auto_merge = is_true p.auto_merge;
  };
}

abbrev pub reload : Pinned → Pinned
reload s = record s { reloads = s.reloads + 1 }

abbrev pub after_toggle : PinnedW → Outcome (Unit {0}) → Script Pinned Call (Unit {0})
after_toggle p (returned r) =
    set (say (if turned p then "worker ligado" else "worker desligado")) (set reload done)
after_toggle p (thrown m) = done

unfoldable pub toggle_pinned : PinnedW → Script Pinned Call (Unit {0})
unfolding toggle_body
toggle_pinned p = call (λ s. post_to p.id (toggle_body p)) (after_toggle p)

abbrev pub after_delete : Outcome (Unit {0}) → Script Pinned Call (Unit {0})
after_delete (returned r) = set reload done
after_delete (thrown m) = done

unfoldable pub del_pinned : String → Script Pinned Call (Unit {0})
del_pinned id = call (λ s. delete_at id) after_delete

abbrev pub after_bulk : Bool → Outcome (Unit {0}) → Script Pinned Call (Unit {0})
after_bulk on (returned r) =
    set (say (if on then "todos os workers ligados" else "todos os workers desligados"))
      (set reload done)
after_bulk on (thrown m) = set (say (thrown_text m "falha ao alterar workers")) done

unfoldable pub toggle_all_pinned : Bool → Script Pinned Call (Unit {0})
toggle_all_pinned on = call (λ s. bulk on) (after_bulk on)
