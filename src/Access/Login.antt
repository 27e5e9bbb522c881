-- ===== src/Access/Login.antt =====
-- The login form of app/dashboard/app/login/page.tsx: signing in, and creating an organisation.
use apifor_dev.Common.{String, ◌==◌, ◌&&◌, Option, none, some, if◌then◌else◌, default}
use apifor_dev.Async.{thrown, done, returned, call, set, Outcome, text_or, Script}
use apifor_dev.Session.{Response, truthy, body_of, go, Browser, set_token, safe_json}

-- `login` or `register`
pub data Mode : Type 0 where
  login register : Mode

-- The state of the form, with the browser it acts on.
pub record Login : Type 0 where
  pub mode : Mode
  pub mail : String
  pub password : String
  pub org : String
  pub err : String
  pub browser : Browser
  pub stored : Option String

pub record Post : Type 0 where
  pub url : String
  pub mail : String
  pub password : String
  pub org : String

-- The body of the answer: `error` holds the message of the error, where there is one.
pub record Session : Type 0 where
  pub access_token : Option String
  pub role : Option String
  pub error : Option (Option String)

abbrev pub no_session : Session
no_session = record { access_token = none; role = none; error = none }

-- `params.get("next") || "/"`
unfoldable pub next_of : Option String → String
unfolding text_or
next_of p = text_or p "/"

abbrev pub message_of : Session → Option String
message_of r = default none r.error

abbrev pub refused : String
refused = "falha na autenticação"

abbrev pub url_of : Mode → String
url_of login = "/api/v1/auth/login"
url_of register = "/api/v1/auth/register"

-- Where the browser goes after the sign-in.
unfoldable pub destination : String → Option String → String
destination next role =
    if (default "" role == "superadmin") && (next == "/") then "/superadmin" else next

-- The link below the form.
unfoldable pub other_mode : Login → Login
other_mode f = record f { mode = elim f.mode [ login ↦ register | register ↦ login ]; err = "" }

abbrev pub enter : String → Session → Login → Login
enter next r f = record f {
  browser = go (destination next r.role) (set_token r.access_token f.browser);
  stored = some f.mail;
}

module _ (parse : String → Option Session) (next : String) where
  abbrev pub answered : Session → Login → Login
  answered r f =
      if truthy r.access_token
      then enter next r f
      else record f { err = text_or (message_of r) refused }

  -- What follows the call; an exception of `fetch` is not caught.
  unfoldable pub after_submit : Outcome Response → Script Login Post Response
  unfolding safe_json body_of
  after_submit (returned r) =
      set (λ f. record f { browser = (safe_json parse no_session r f.browser).0 })
        (set (answered (body_of parse no_session r)) done)
  after_submit (thrown e) = done

  unfoldable pub submit : Script Login Post Response
  submit =
      set (λ f. record f { err = "" })
        (call
          (λ f. record { url = url_of f.mode; mail = f.mail; password = f.password; org = f.org })
          after_submit)

-- The three inputs of the form.
pub data Field : Type 0 where
  mail password org : Field

unfoldable pub set_field : Field → String → Login → Login
set_field mail v f = record f { mail = v }
set_field password v f = record f { password = v }
set_field org v f = record f { org = v }
