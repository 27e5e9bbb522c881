-- ===== src/Access/Loads.antt =====
-- One load of a page and of the console, by the token and the answer to "/v1/me".
use apifor_dev.Common.{
  String, ◌==◌, ◌≡◌, refl, ap, Bool, true, false, Option, none, [], ◌∷◌, arith, nat_eq, default,
  if-true, if-false,
}
use apifor_dev.Common.Text
use apifor_dev.Session.{
  Guarded, set_token, safe_json, go, truthy, after_me, get_token, mount, auth_headers, Browser,
  body_of, Response, Get, Me,
}
use apifor_dev.Async.{returned, thrown, text_or, run, Outcome}
use apifor_dev.Access.Journey.{guard, console, page, login, place_of, load}
use apifor_dev.Access.Address.{path_of-append, path_of}
use apifor_dev.Access.{Console, get_email, after_check, admin_mount, login_url}

module _ (parse : String → Option Me) (encode : String → String)
    (env : Get → Outcome Response) where
  abbrev pub asked : Browser → Get
  asked b = record { url = "/api/v1/me"; headers = auth_headers b }

  abbrev pub answer_of : Browser → Outcome Response
  answer_of b = env (asked b)

  abbrev pub operator : Response → Bool
  operator r = default "" (body_of parse (record { role = none }) r).role == "superadmin"

  pub not_login-page : (p : String) → place_of p ≡ page → Text.starts_with p "/login" ≡ false
  unfolding place_of
  not_login-page p h = ground arith

  pub not_login-console : (p : String) → place_of p ≡ console → Text.starts_with p "/login" ≡ false
  unfolding place_of
  not_login-console p h = ground arith

  pub login_url-place : (x : String) → place_of (path_of (Text.append "/login?next=" x)) ≡ login
  unfolding place_of
  login_url-place x = ap place_of (path_of-append "/login?next=" x refl)

  abbrev pub page_answer : Outcome Response → Browser → Browser
  page_answer o b =
      (run env (after_me parse o)
        (record { browser = record b { went = [] }; authed = none })).0.browser

  -- One load of a page, and of the console.
  pub load_known-page :
      (b : Browser)
      → place_of b.path ≡ page
      → truthy b.token ≡ true
      → load parse encode env b ≡ page_answer (answer_of b) b
  unfolding load guard mount run get_token auth_headers
  load_known-page b h e =
      let g : Guarded = record { browser = record b { went = [] }; authed = none } in
      rw h (ap (λ m. (run env m g).0.browser) (if-true _ _ e))

  pub load_unknown-page :
      (b : Browser)
      → place_of b.path ≡ page
      → truthy b.token ≡ false
      → load parse encode env b ≡ go (login_url encode b) (record b { went = [] })
  unfolding load guard mount run get_token
  load_unknown-page b h e =
      let g : Guarded = record { browser = record b { went = [] }; authed = none } in
      rw h (ap (λ m. (run env m g).0.browser) (if-false _ _ e))

  abbrev pub console_answer : Outcome Response → Browser → Browser
  console_answer o b =
      (run env (after_check parse o) (record {
        browser = record b { went = [] };
        stored = none;
        ok = false;
        email = "";
      })).0.browser

  abbrev pub fresh : Browser → Console
  fresh b = record { browser = record b { went = [] }; stored = none; ok = false; email = "" }

  pub load_known-console :
      (b : Browser)
      → place_of b.path ≡ console
      → truthy b.token ≡ true
      → load parse encode env b ≡ console_answer (answer_of b) b
  unfolding load guard admin_mount run get_token get_email text_or auth_headers
  load_known-console b h e = rw h (ap (λ m. (run env m (fresh b)).0.browser) (if-true _ _ e))

  pub load_unknown-console :
      (b : Browser)
      → place_of b.path ≡ console
      → truthy b.token ≡ false
      → load parse encode env b ≡ go (login_url encode b) (record b { went = [] })
  unfolding load guard admin_mount run get_token get_email text_or
  load_unknown-console b h e = rw h (ap (λ m. (run env m (fresh b)).0.browser) (if-false _ _ e))

  abbrev pub still : Browser → Browser
  still b = record b { went = [] }

  abbrev pub IsAtRest : Browser → Type 0
  IsAtRest c = load parse encode env c ≡ still c

  pub login-IsAtRest : (c : Browser) → place_of c.path ≡ login → IsAtRest c
  unfolding load guard
  login-IsAtRest c h = rw h refl

  -- A rejected token is no operator's.
  pub operator-rejected : (r : Response) → nat_eq r.status 401 ≡ true → operator r ≡ false
  unfolding body_of
  operator-rejected r h = ap (λ (m : Me). default "" m.role == "superadmin") (if-true _ _ h)

  -- What a load of a page does, by the answer.
  pub page_thrown : (e : Option String) (b : Browser) → page_answer (thrown e) b ≡ still b
  unfolding run after_me
  page_thrown e b = refl

  pub page_rejected :
      (r : Response) (b : Browser)
      → nat_eq r.status 401 ≡ true
      → Text.starts_with b.path "/login" ≡ false
      → page_answer (returned r) b ≡ record b { token = none; went = "/login" ∷ [] }
  unfolding run after_me safe_json set_token body_of
  page_rejected r b h k = let n = operator-rejected r h in ground arith

  pub page_operator :
      (r : Response) (b : Browser)
      → nat_eq r.status 401 ≡ false
      → operator r ≡ true
      → page_answer (returned r) b ≡ record b { went = "/superadmin" ∷ [] }
  unfolding run after_me safe_json body_of
  page_operator r b h k = ground arith

  pub page_user :
      (r : Response) (b : Browser)
      → nat_eq r.status 401 ≡ false
      → operator r ≡ false
      → page_answer (returned r) b ≡ still b
  unfolding run after_me safe_json body_of
  page_user r b h k = ground arith

  pub console_thrown :
      (e : Option String) (b : Browser) → console_answer (thrown e) b ≡ record b { went = "/" ∷ [] }
  unfolding run after_check
  console_thrown e b = refl

  pub console_rejected :
      (r : Response) (b : Browser)
      → nat_eq r.status 401 ≡ true
      → Text.starts_with b.path "/login" ≡ false
      → console_answer (returned r) b ≡ record b { token = none; went = "/" ∷ "/login" ∷ [] }
  unfolding run after_check safe_json set_token body_of
  console_rejected r b h k = let n = operator-rejected r h in ground arith

  pub console_operator :
      (r : Response) (b : Browser)
      → nat_eq r.status 401 ≡ false
      → operator r ≡ true
      → console_answer (returned r) b ≡ still b
  unfolding run after_check safe_json body_of
  console_operator r b h k = ground arith

  pub console_user :
      (r : Response) (b : Browser)
      → nat_eq r.status 401 ≡ false
      → operator r ≡ false
      → console_answer (returned r) b ≡ record b { went = "/" ∷ [] }
  unfolding run after_check safe_json body_of
  console_user r b h k = ground arith
