-- ===== src/Shell/Topbar.antt =====
-- The top bar (`Topbar`, `LangMenu` and `ProfileMenu` in app/dashboard/app/ui.tsx): the word about the
-- workers, the two menus and the buttons. `upper` is `toUpperCase`. The sign-out, the notifications
-- and the palette have files of their own; a choice of language goes to all components.
use apifor_dev.Common.{
  String, ◌==◌, Bool, true, false, not, Option, none, some, List, [], ◌∷◌, map, ltb, if◌then◌else◌,
}
use apifor_dev.Common.Text
use apifor_dev.Async.{text_or}
use apifor_dev.Poll.{value, Maybe, null}
use apifor_dev.Lang.{t}
use apifor_dev.Shell.Counts.{Counts, n_workers}

pub record Me : Type 0 where
  pub user_id : Option String
  pub name : Option String

pub record Topbar : Type 0 where
  pub lang_open : Bool
  pub profile_open : Bool
  pub me : Maybe Me

abbrev pub fresh_topbar : Topbar
fresh_topbar = record { lang_open = false; profile_open = false; me = null }

-- The buttons, the entries of the menus, a press outside the profile menu, and the answer of the call
-- of the user, `none` where it is rejected.
pub data Event : Type 0 where
  lang_button profile_button outside item sign_out : Event
  choose : String → Event
  me_came : Option (Maybe Me) → Event

-- The state, and the language that the event asks for, if any.
unfoldable pub step : Event → Topbar → Topbar × Option String
step lang_button s = (record s { lang_open = not s.lang_open }, none)
step (choose code) s = (record s { lang_open = false }, some code)
step profile_button s = (record s { profile_open = not s.profile_open }, none)
step outside s = (record s { profile_open = false }, none)
step item s = (record s { profile_open = false }, none)
step sign_out s = (record s { profile_open = false }, none)
step (me_came none) s = (s, none)
step (me_came (some m)) s = (record s { me = m }, none)

abbrev pub name_of : Maybe Me → Option String
name_of (value m) = m.name
name_of _ = none

abbrev pub user_of : Maybe Me → Option String
user_of (value m) = m.user_id
user_of _ = none

-- The entries of the two menus: the code and name of a language, whether it is the current one; the
-- label and the page of an entry of the profile.
unfoldable pub languages : String → List (String × (String × Bool))
languages lang =
    map (λ (l : String × String). (l.0, (l.1, l.0 == lang)))
      (("pt", "Português") ∷ ("en", "English") ∷ [])

unfoldable pub profile_items : String → List (String × String)
profile_items lang =
    (if lang == "en" then "Account" else "Conta", "/conta")
    ∷ (if lang == "en" then "Help" else "Ajuda", "/ajuda")
    ∷ []

pub record Profile : Type 0 where
  pub name : String
  pub user : String
  pub items : List (String × String)
  pub leave : String

-- The button of the theme shows a sun while the theme is dark, and a moon otherwise.
pub record Screen : Type 0 where
  pub search : String
  pub running : Bool
  pub word : String
  pub lang_button : String
  pub languages : Option (List (String × (String × Bool)))
  pub sun : Bool
  pub initials : String
  pub profile : Option Profile

abbrev pub running_word : String → Bool → String
running_word lang true = if lang == "en" then "RUNNING" else "RODANDO"
running_word lang false = if lang == "en" then "STOPPED" else "PARADO"

module _ (upper : String → String) where
  -- `(me?.name || me?.user_id || "AP").slice(0, 2).toUpperCase()`
  unfoldable pub initials_of : Maybe Me → String
  unfolding text_or
  initials_of m = upper (Text.take 2 (text_or (name_of m) (text_or (user_of m) "AP")))

  unfoldable pub screen : String → String → Option Counts → Topbar → Screen
  unfolding t n_workers languages profile_items initials_of text_or
  screen lang theme c s =
      let up = ltb 0 (n_workers c) in
      record {
        search = t lang "search";
        running = up;
        word = running_word lang up;
        lang_button = upper lang;
        languages = if s.lang_open then some (languages lang) else none;
        sun = theme == "dark";
        initials = initials_of s.me;
        profile =
            if s.profile_open
            then some (record {
              name = text_or (name_of s.me) "—";
              user = text_or (user_of s.me) "—";
              items = profile_items lang;
              leave = if lang == "en" then "Sign out" else "Sair";
            })
            else none;
      }
