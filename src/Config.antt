-- ===== src/Config.antt =====
-- The settings page (app/dashboard/app/config/page.tsx): the state that the handlers of its
-- connection dialogs share, the requests that they make and the answers that they read.
pub mod Ia
pub mod Github
pub mod Git
pub mod Tasks
pub mod Integrations
pub mod Actions
pub mod OnePoll
pub mod Interleavings
pub mod Buttons
pub mod Uri
pub mod Dialogs
pub mod Pressing
pub mod Flow
pub mod Outcomes
use apifor_dev.Common.{
  ℕ, ◌+◌, String, ◌==◌, Bool, false, Option, none, some, List, if◌then◌else◌, default,
}
use apifor_dev.Common.Text
use apifor_dev.Async.{thrown, returned, Outcome, thrown_text, text_or, Script}

-- The result of a test of credentials, as a dialog shows it.
pub record Test : Type 0 where
  pub ok : Bool
  pub msg : String

-- The dialog that connects a model provider.
pub record IaForm : Type 0 where
  pub modal : Option String
  pub api_key : String
  pub busy : Bool
  pub await_code : Bool
  pub url : String
  pub code : String
  pub err : String
  pub test : Option Test
  pub testing : Bool

-- The dialog that connects a source of code.
pub record GitForm : Type 0 where
  pub modal : Option String
  pub token : String
  pub user : String
  pub busy : Bool
  pub testing : Bool
  pub test : Option Test

pub record Device : Type 0 where
  pub user_code : String
  pub verification_uri : String

-- GitHub's authorisation, which three dialogs share. `poll` is the handle of the page; `timers` are
-- the intervals that the browser runs, each with its period in milliseconds.
pub record GhFlow : Type 0 where
  pub by_token : Bool
  pub device : Option Device
  pub status : String
  pub err : String
  pub starting : Bool
  pub poll : Option ℕ
  pub timers : List (ℕ × ℕ)
  pub fresh : ℕ

pub record TaskFields : Type 0 where
  pub token : String
  pub username : String
  pub email : String
  pub site : String
  pub key : String

pub record TaskForm : Type 0 where
  pub modal : Option String
  pub f : TaskFields
  pub busy : Bool
  pub testing : Bool
  pub test : Option Test

pub record IntFields : Type 0 where
  pub token : String
  pub username : String
  pub project : String
  pub email : String
  pub site : String

pub record IntForm : Type 0 where
  pub modal : Option String
  pub f : IntFields
  pub busy : Bool
  pub testing : Bool
  pub test : Option Test

-- The page: its dialogs, the windows that it opened (the last one first), and how often it asked
-- for the connections anew.
pub record Config : Type 0 where
  pub ia : IaForm
  pub git : GitForm
  pub gh : GhFlow
  pub task : TaskForm
  pub int : IntForm
  pub opened : List String
  pub reloads : ℕ

-- A call of the page's API: the method, the path and the fields of the body; or the desktop's shell.
pub record Request : Type 0 where
  pub method : String
  pub url : String
  pub fields : List (String × String)

pub record Fault : Type 0 where
  pub code : Option String
  pub message : Option String

-- The fields that the handlers read of an answer.
pub record Body : Type 0 where
  pub ok : Option Bool
  pub message : Option String
  pub url : Option String
  pub status : Option String
  pub user_code : Option String
  pub verification_uri : Option String
  pub interval : Option ℕ
  pub error : Option Fault
  pub error_text : Option String

abbrev pub Handler : Type 0
Handler = Script Config Request Body

abbrev pub post : String → List (String × String) → Request
post url fields = record { method = "POST"; url = url; fields = fields }

-- `!!r?.ok`
abbrev pub is_ok : Body → Bool
is_ok r = default false r.ok

-- `r?.error?.message`
abbrev pub fault_message : Body → Option String
fault_message r = elim r.error [ none ↦ none | some e ↦ e.message ]

-- The verdict on a test: the server's message, or a text of the page's own.
unfoldable pub verdict : String → String → String → Outcome Body → Test
unfolding text_or thrown_text
verdict good bad failed (returned r) = record {
  ok = is_ok r;
  msg = text_or r.message (if is_ok r then good else bad);
}
verdict good bad failed (thrown e) = record { ok = false; msg = thrown_text e failed }

-- What a refused or failed connection shows.
unfoldable pub refusal : Outcome Body → Test
unfolding text_or thrown_text
refusal (returned r) = record { ok = false; msg = text_or r.message "falha ao conectar" }
refusal (thrown e) = record { ok = false; msg = thrown_text e "falha ao conectar" }

abbrev pub reload_conns : Config → Config
reload_conns c = record c { reloads = c.reloads + 1 }

abbrev pub blank : String → Bool
blank s = Text.trim s == ""
