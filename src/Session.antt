-- ===== src/Session.antt =====
-- The session of app/dashboard/app/ui.tsx: the token and the workspace in the browser's storage, the
-- headers of a request, the tolerant parser of a response, and the guard that every page mounts.
-- `JSON.parse` and `encodeURIComponent` are parameters.
pub mod Laws
pub mod Api
use apifor_dev.Common.{
  ℕ, String, ◌==◌, Bool, true, false, not, Option, none, some, List, [], ◌∷◌, ◌++◌, nat_eq,
  if◌then◌else◌, default,
}
use apifor_dev.Common.Text
use apifor_dev.Async.{thrown, done, set, call, returned, Script, Outcome}

-- What the session reads and writes of the browser: two keys of `localStorage`, the location, and
-- the navigations asked for, the last one first.
pub record Browser : Type 0 where
  pub token : Option String
  pub wsp : Option String
  pub path : String
  pub search : String
  pub went : List String

unfoldable pub get_token : Browser → Option String
get_token b = b.token

-- A value that JavaScript takes for true.
abbrev pub truthy : Option String → Bool
truthy none = false
truthy (some s) = not (s == "")

unfoldable pub set_token : Option String → Browser → Browser
set_token tk b = if truthy tk then record b { token = tk } else record b { token = none }

abbrev pub header_if : String → String → Option String → List (String × String)
header_if name prefix v = if truthy v then (name, Text.append prefix (default "" v)) ∷ [] else []

unfoldable pub auth_headers : Browser → List (String × String)
unfolding get_token
auth_headers b =
    header_if "Authorization" "Bearer " (get_token b) ++ header_if "X-Workspace-ID" "" b.wsp

abbrev pub go : String → Browser → Browser
go url b = record b { went = url ∷ b.went }

pub record Response : Type 0 where
  pub status : ℕ
  pub text : String

module _ {J : Type 0} (parse : String → Option J) (nothing : J) where
  -- The parsed body; `nothing` is the empty object.
  unfoldable pub body_of : Response → J
  body_of r =
      if nat_eq r.status 401
      then nothing
      else if r.text == ""
      then nothing
      else default nothing (parse r.text)

  unfoldable pub safe_json : Response → Browser → Browser × J
  unfolding set_token body_of
  safe_json r b =
      if nat_eq r.status 401
      then (
        (let c = set_token none b in if Text.starts_with c.path "/login" then c else go "/login" c),
        body_of r,
      )
      else (b, body_of r)

-- A page of the dashboard: `authed` is `null` until the guard has decided.
pub record Guarded : Type 0 where
  pub browser : Browser
  pub authed : Option Bool

pub record Get : Type 0 where
  pub url : String
  pub headers : List (String × String)

-- The body of "/v1/me", as far as the guard reads it.
pub record Me : Type 0 where
  pub role : Option String

module _ (parse : String → Option Me) where
  abbrev pub me_body : Response → Me
  me_body = body_of parse (record { role = none })

  abbrev read_me : Response → Guarded → Guarded
  read_me r g = record g { browser = (safe_json parse (record { role = none }) r g.browser).0 }

  abbrev admit : Me → Guarded → Guarded
  admit me g =
      if default "" me.role == "superadmin"
      then record g { browser = go "/superadmin" g.browser }
      else record g { authed = some true }

  -- `apiGet("/v1/me").then(…).catch(…)`: the answer is parsed, then the role decides.
  unfoldable pub after_me : Outcome Response → Script Guarded Get Response
  unfolding body_of safe_json
  after_me (returned r) = set (read_me r) (set (admit (me_body r)) done)
  after_me (thrown e) = set (λ g. record g { authed = some true }) done

  -- The effect that runs when a page mounts.
  unfoldable pub mount : (String → String) → Guarded → Script Guarded Get Response
  unfolding get_token
  mount encode g =
      if truthy (get_token g.browser)
      then call (λ s. record { url = "/api/v1/me"; headers = auth_headers s.browser }) after_me
      else set
          (λ s. record s {
            browser =
                go
                  (Text.append "/login?next="
                    (encode (Text.append s.browser.path s.browser.search)))
                  s.browser;
          })
          done
