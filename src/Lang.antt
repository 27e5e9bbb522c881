-- ===== src/Lang.antt =====
-- The two languages of app/dashboard/app/ui.tsx: the lookups in its tables, the groups of the
-- navigation, and the language that the mounted components share through the browser's storage.
mod Tables
mod Titles
mod Words
pub mod Laws
pub mod Sync
use apifor_dev.Common.{
  String, ◌==◌, ◌&&◌, not, Option, none, some, List, [], ◌∷◌, ◌++◌, if◌then◌else◌, default,
}
use apifor_dev.Lang.Tables.{shell_pt, shell_en, en_label}
use apifor_dev.Lang.Titles.{titles}
use apifor_dev.Lang.Words.{words}
use apifor_dev.Async.{text_or}

-- A property of an object literal; `none` is `undefined`.
unfoldable pub lookup : String → List (String × String) → Option String
lookup k [] = none
lookup k ((j, v) ∷ m) = if j == k then some v else lookup k m

unfoldable pub dictionary : List (String × String)
unfolding titles words
dictionary = titles ++ words

-- `STR[lang] || STR.pt`
abbrev shell : String → List (String × String)
shell lang = if lang == "en" then shell_en else shell_pt

-- The shell's string of a key.
unfoldable pub t : String → String → String
unfolding lookup shell_pt shell_en
t lang k = text_or (lookup k (shell lang)) (text_or (lookup k shell_pt) k)

-- A text of the shared components; an absent one stays absent.
unfoldable pub tr : String → String → String
unfolding lookup text_or
tr lang s = if lang == "en" && not (s == "") then text_or (lookup s dictionary) s else s

-- The pages' hook: `en ?? TR[pt] ?? pt`.
unfoldable pub use_t : String → String → Option String → String
unfolding lookup
use_t lang pt en = if lang == "en" then default (default pt (lookup pt dictionary)) en else pt

unfoldable pub nav_label : String → String → String → String
unfolding lookup en_label
nav_label lang href pt = if lang == "en" then text_or (lookup href en_label) pt else pt

pub record NavItem : Type 0 where
  pub href : String
  pub label : String
  pub count_key : Option String

pub record Group : Type 0 where
  pub key : String
  pub items : List NavItem

unfoldable pub nav : List Group
nav =
    record {
      key = "op";
      items =
          (record { href = "/"; label = "Dashboard"; count_key = none })
          ∷ (record { href = "/queue"; label = "Fila"; count_key = some "queue" })
          ∷ (record { href = "/tasks"; label = "Tarefas"; count_key = none })
          ∷ (record { href = "/prs"; label = "Pull Requests"; count_key = some "prs" })
          ∷ (record { href = "/interventions"; label = "Intervenção"; count_key = some "interv" })
          ∷ (record { href = "/live"; label = "Live"; count_key = some "workers" })
          ∷ (record { href = "/ci"; label = "CI"; count_key = none })
          ∷ (record { href = "/qa"; label = "QA"; count_key = none })
          ∷ (record { href = "/routines"; label = "Rotinas"; count_key = none })
          ∷ (record { href = "/telemetry"; label = "Telemetria"; count_key = none })
          ∷ (record { href = "/logs"; label = "Logs"; count_key = none })
          ∷ [];
    }
    ∷ record {
      key = "sys";
      items =
          (record { href = "/knowledge"; label = "Conhecimento"; count_key = none })
          ∷ (record { href = "/config"; label = "Configuração"; count_key = none })
          ∷ (record { href = "/web"; label = "Web"; count_key = none })
          ∷ (record { href = "/cloud"; label = "Cloud"; count_key = none })
          ∷ (record { href = "/audit"; label = "Auditoria"; count_key = none })
          ∷ [];
    }
    ∷ record {
      key = "acct";
      items =
          (record { href = "/org"; label = "Organização"; count_key = none })
          ∷ (record { href = "/usage"; label = "Uso"; count_key = none })
          ∷ (record { href = "/invoices"; label = "Faturas"; count_key = none })
          ∷ (record { href = "/pricing"; label = "Planos"; count_key = none })
          ∷ (record { href = "/conta"; label = "Conta"; count_key = none })
          ∷ (record { href = "/ajuda"; label = "Ajuda"; count_key = none })
          ∷ [];
    }
    ∷ []
