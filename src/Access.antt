-- ===== src/Access.antt =====
-- Who may see which page: the guard of the platform's console (app/dashboard/app/superadmin/shell.tsx),
-- the login form (app/dashboard/app/login/page.tsx) and the ways out of the session. The guard of the
-- dashboard's pages is in Session. `JSON.parse` and `encodeURIComponent` are parameters.
pub mod Login
pub mod Address
pub mod Loads
pub mod Settle
pub mod SignIn
pub mod Journey
use apifor_dev.Common.{String, ◌==◌, Bool, true, Option, none, if◌then◌else◌, default}
use apifor_dev.Common.Text
use apifor_dev.Async.{thrown, done, call, set, returned, Outcome, Script, text_or}
use apifor_dev.Session.{
  auth_headers, me_body, truthy, Response, Get, safe_json, go, get_token, body_of, Browser,
  set_token, Me,
}

-- The console: the browser, the address kept under `apifor_email`, and the state of `AdminShell`.
pub record Console : Type 0 where
  pub browser : Browser
  pub stored : Option String
  pub ok : Bool
  pub email : String

-- `localStorage.getItem("apifor_email") || ""`
unfoldable pub get_email : Option String → String
unfolding text_or
get_email stored = text_or stored ""

-- `/login?next=` with the way back.
abbrev pub login_url : (String → String) → Browser → String
login_url encode b = Text.append "/login?next=" (encode (Text.append b.path b.search))

abbrev on_browser : (Browser → Browser) → Console → Console
on_browser f c = record c { browser = f c.browser }

module _ (parse : String → Option Me) where
  abbrev let_in : Me → Console → Console
  let_in me c =
      if default "" me.role == "superadmin" then record c { ok = true } else on_browser (go "/") c

  -- `apiGet("/v1/me").then(…).catch(…)` of the console.
  unfoldable pub after_check : Outcome Response → Script Console Get Response
  unfolding body_of safe_json
  after_check (returned r) =
      set (on_browser (λ b. (safe_json parse (record { role = none }) r b).0))
        (set (let_in (me_body parse r)) done)
  after_check (thrown e) = set (on_browser (go "/")) done

  -- The effect that runs when a page of the console mounts.
  unfoldable pub admin_mount : (String → String) → Console → Script Console Get Response
  unfolding get_token get_email
  admin_mount encode c =
      if truthy (get_token c.browser)
      then set (λ s. record s { email = get_email s.stored })
          (call (λ s. record { url = "/api/v1/me"; headers = auth_headers s.browser }) after_check)
      else set (on_browser (λ b. go (login_url encode b) b)) done

-- `signOut` of the console.
unfoldable pub sign_out : Console → Console
unfolding set_token
sign_out c = record c { browser = go "/login" (set_token none c.browser); stored = none }

-- The last entry of the profile menu forgets the token, and leaves the address where it is.
unfoldable pub log_out : Console → Console
unfolding set_token
log_out c = record c { browser = go "/login" (set_token none c.browser) }
