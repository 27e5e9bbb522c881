-- ===== src/Account.antt =====
-- The account page (app/dashboard/app/conta/page.tsx): the change of the password, and what the page
-- derives of the subscription and of the user. `toUpperCase` is a parameter.
pub mod Units
pub mod Laws
use apifor_dev.Common.{String, ◌==◌, Bool, true, false, ◌||◌, not, Option, ltb, if◌then◌else◌, take}
use apifor_dev.Common.Text
use apifor_dev.Async.{call, thrown, done, returned, set, text_or, Script, Outcome}
use apifor_dev.Account.Units.{units}

pub record Account : Type 0 where
  pub pwd_cur : String
  pub pwd_new : String
  pub pwd_conf : String
  pub saving : Bool
  pub msg : String
  pub ok : Bool

-- The body of the one call.
pub record Change : Type 0 where
  pub current : String
  pub password : String

abbrev say : String → Bool → Account → Account
say text ok s = record s { msg = text; ok = ok }

abbrev finally : Account → Account
finally s = record s { saving = false }

abbrev emptied : Account → Account
emptied s = record s { pwd_cur = ""; pwd_new = ""; pwd_conf = "" }

module _ {J : Type 0} where
  abbrev after_change : Outcome J → Script Account Change J
  after_change (returned r) = set emptied (set (say "Senha atualizada." true) (set finally done))
  after_change (thrown e) = set (say "Erro ao atualizar." false) (set finally done)

  unfoldable pub save_password : Account → Script Account Change J
  save_password s =
      if (s.pwd_new == "") || not (s.pwd_new == s.pwd_conf)
      then set (say "Senhas não coincidem." false) done
      else if ltb (units s.pwd_new) 8
      then set (say "Mínimo 8 caracteres." false) done
      else set (λ t. record t { saving = true; msg = "" })
          (call (λ t. record { current = s.pwd_cur; password = s.pwd_new }) after_change)

-- `(s || d).slice(0, 2).toUpperCase()`
abbrev pub initials : (String → String) → Option String → String → String
initials upper s d = upper (Text.take 2 (text_or s d))

unfoldable pub plan_colors : String → String × (String × String)
plan_colors plan =
    if plan == "Pro"
    then ("var(--accent)", ("var(--accent-tint)", "rgba(245,166,35,.3)"))
    else if plan == "Team"
    then ("var(--blue)", ("rgba(88,166,255,.1)", "rgba(88,166,255,.3)"))
    else if plan == "Enterprise"
    then ("var(--green)", ("var(--green-tint)", "rgba(63,185,80,.3)"))
    else ("var(--mute)", ("var(--elev)", "var(--border)"))
