-- ===== src/Access/SignIn.antt =====
-- Signing in, and the visit that follows it.
use apifor_dev.Common.{String, Option}
use apifor_dev.Access.Login.{destination, no_session, url_of, submit, Login, Post, Session}
use apifor_dev.Session.{go, Browser, body_of, Get, Response, Me}
use apifor_dev.Async.{Outcome, run}
use apifor_dev.Access.Journey.{arrive}

module _ (parse : String → Option Session) (next : String) where
  abbrev asked : Login → Post
  asked f = record { url = url_of f.mode; mail = f.mail; password = f.password; org = f.org }

  abbrev pub given : Response → Session
  given r = body_of parse no_session r

  -- The browser after the form was sent.
  abbrev pub sent : (Post → Outcome Response) → Login → Browser
  sent env f = (run env (submit parse next) f).0.browser

module _ (me : String → Option Me) (encode : String → String) (users : Get → Outcome Response) where
  -- The browser on its arrival.
  abbrev landed : (String → Option Session) → String → Response → Login → Browser
  landed parse next r f =
      let b = record f.browser { token = (given parse next r).access_token } in
      let to = destination next (given parse next r).role in arrive to (go to b)
