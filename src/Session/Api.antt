-- ===== src/Session/Api.antt =====
-- The calls of the API (app/dashboard/app/ui.tsx): `fetch` with the session's headers, then the
-- tolerant parser. `JSON.stringify` has been applied to the body, and the base of the addresses is the
-- default one.
use apifor_dev.Common.{String, Option, none, some, List, ◌∷◌}
use apifor_dev.Common.Text
use apifor_dev.Session.{Response, auth_headers, Browser, body_of}
use apifor_dev.Async.{thrown, returned, Outcome}

pub record Request : Type 0 where
  pub method : String
  pub url : String
  pub headers : List (String × String)
  pub body : Option String

abbrev pub api_url : String → String
api_url p = Text.append "/api" p

unfoldable pub api_get : String → Browser → Request
api_get p b = record { method = "GET"; url = api_url p; headers = auth_headers b; body = none }

unfoldable pub api_post : String → String → Browser → Request
api_post p body b = record {
  method = "POST";
  url = api_url p;
  headers = ("content-type", "application/json") ∷ auth_headers b;
  body = some body;
}

unfoldable pub api_delete : String → Browser → Request
api_delete p b = record {
  method = "DELETE";
  url = api_url p;
  headers = auth_headers b;
  body = none;
}

module _ {J : Type 0} (parse : String → Option J) (nothing : J) where
  -- What the caller of an API function receives: only an exception of `fetch` is passed on.
  unfoldable pub parsed : Outcome Response → Outcome J
  unfolding body_of
  parsed (returned r) = returned (body_of parse nothing r)
  parsed (thrown e) = thrown e
