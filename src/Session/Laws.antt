-- ===== src/Session/Laws.antt =====
-- What a rejected token and the page guard lead to.
use apifor_dev.Common.Text
use apifor_dev.Common.{
  String, ◌==◌, ◌≡◌, refl, ap, inl, inr, Bool, true, false, ◌&&◌, not, Option, none, some, [], ◌∷◌,
  arith, nat_eq, if◌then◌else◌, Bool-cases, default,
}
use apifor_dev.Session.{
  body_of, after_me, me_body, truthy, mount, header_if, Browser, Guarded, Response, Get,
  auth_headers, safe_json, Me,
}
use apifor_dev.Async.{thrown, returned, run, Outcome}

module _ {J : Type 0} (parse : String → Option J) (nothing : J) where
  -- A 401 ends the session: whatever the body, the answer read is empty, the next request carries no
  -- Authorization header, and the browser is sent to the login page unless it is there already. Any
  -- other status keeps the headers and sends the browser nowhere.
  pub safe_json_session :
      (r : Response) (b : Browser)
      → let after = safe_json parse nothing r b in
        let ended : Bool = nat_eq r.status 401 in
        (after.1 ≡ (if ended then nothing else body_of parse nothing r))
        × (auth_headers after.0
            ≡ (if ended then header_if "X-Workspace-ID" "" b.wsp else auth_headers b))
        × (after.0.went ≡ (
            if ended && not (Text.starts_with b.path "/login") then "/login" ∷ b.went else b.went))
  unfolding safe_json body_of auth_headers
  safe_json_session r b = ground arith

module _ (parse : String → Option Me) (encode : String → String) where
  -- Whether the answer to "/v1/me" names the platform's operator.
  abbrev is_operator : Outcome Response → Bool
  is_operator (returned r) = default "" (me_body parse r).role == "superadmin"
  is_operator (thrown e) = false

  after_me_lem :
      (env : Get → Outcome Response) (o : Outcome Response) (g : Guarded)
      → g.authed ≡ none
      → ((run env (after_me parse o) g).1 ≡ [])
        × ((run env (after_me parse o) g).0.authed ≡ (if is_operator o then none else some true))
  unfolding run after_me
  after_me_lem env (returned r) g h =
      elim (Bool-cases (default "" (me_body parse r).role == "superadmin")) [
        | inl e ↦ (refl, rw e h)
        | inr e ↦ (refl, rw e refl)
      ]
  after_me_lem env (thrown e) g h = (refl, refl)

  -- The guard of a page that mounts undecided. With no token (or an empty one) nothing is requested,
  -- the children are never shown, and the browser goes to the login page with the way back. With a
  -- token, "/v1/me" is asked once with the session's headers, and the children are shown unless the
  -- answer names the role "superadmin"; they are shown also when the call failed.
  pub mount_shows :
      (env : Get → Outcome Response) (g : Guarded)
      → g.authed ≡ none
      → let after = run env (mount parse encode g) g in
        let asked : Get = record { url = "/api/v1/me"; headers = auth_headers g.browser } in
        let login : String =
          Text.append "/login?next=" (encode (Text.append g.browser.path g.browser.search)) in
        let known : Bool = truthy g.browser.token in
        (after.1 ≡ (if known then asked ∷ [] else []))
        × (after.0.authed
            ≡ (if known then if is_operator (env asked) then none else some true else none))
        × (after.0.browser.went ≡ (if known then after.0.browser.went else login ∷ g.browser.went))
  unfolding run mount
  mount_shows env g h =
      let asked : Get = record { url = "/api/v1/me"; headers = auth_headers g.browser } in
      elim (Bool-cases (truthy g.browser.token)) [
        | inl e ↦ rw e (
          ap (λ qs. asked ∷ qs) (after_me_lem env (env asked) g h).0,
          (after_me_lem env (env asked) g h).1,
          refl,
        )
        | inr e ↦ rw e (refl, h, refl)
      ]
