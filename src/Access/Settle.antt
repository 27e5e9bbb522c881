-- ===== src/Access/Settle.antt =====
-- The redirects of the two guards come to an end, and where.
use apifor_dev.Common.{
  ℕ, zero, suc, String, ◌≡◌, refl, sym, ap, subst, ◌∙◌, inl, inr, true, false, Option, none, [],
  nat_eq, if◌then◌else◌, Bool-cases,
}
use apifor_dev.Common.Text
use apifor_dev.Session.{truthy, auth_headers, Browser, Response, Get, Me}
use apifor_dev.Async.{returned, thrown, Outcome}
use apifor_dev.Access.Journey.{
  travel, arrive, follow, turn, Place, console, page, login, place_of, load,
}
use apifor_dev.Access.{login_url}
use apifor_dev.Access.Loads.{
  IsAtRest, console_user, page_user, page_operator, console_operator, not_login-console,
  not_login-page, console_rejected, load_known-console, login-IsAtRest, page_rejected,
  load_known-page, load_unknown-page, page_answer, still, console_thrown, page_thrown,
  console_answer, load_unknown-console, login_url-place, answer_of, operator,
}

module _ (parse : String → Option Me) (encode : String → String)
    (env : Get → Outcome Response) where
  -- Two loads, when the first moves the browser and the second does not.
  abbrev IsEnd : Browser → Place → Type 0
  IsEnd b p = (place_of b.path ≡ p) × IsAtRest parse encode env b

  abbrev two : Browser → Browser
  two b = turn parse encode env (turn parse encode env b)

  turn-rest :
      (c : Browser)
      → IsAtRest parse encode env c
      → turn parse encode env c ≡ still parse encode env c
  unfolding turn follow
  turn-rest c h = rw h refl

  IsEnd-at_once :
      (b : Browser) (p : Place)
      → place_of b.path ≡ p
      → IsAtRest parse encode env b
      → IsEnd (two b) p
  unfolding load
  IsEnd-at_once b p k h = rw (turn-rest b h) (rw (turn-rest (still parse encode env b) h) (k, h))

  IsEnd-after_one :
      (b c : Browser) (p : Place)
      → turn parse encode env b ≡ c
      → place_of c.path ≡ p
      → IsAtRest parse encode env c
      → IsEnd (two b) p
  unfolding load
  IsEnd-after_one b c p e k h = rw e (rw (turn-rest c h) (k, h))

  IsEnd-after_two :
      (b c d : Browser) (p : Place)
      → turn parse encode env b ≡ c
      → turn parse encode env c ≡ d
      → place_of d.path ≡ p
      → IsAtRest parse encode env d
      → IsEnd (two b) p
  IsEnd-after_two b c d p e f k h = rw e (rw f (k, h))

  -- A session that is over: the login page comes next.
  unknown-page :
      (b : Browser)
      → place_of b.path ≡ page
      → truthy b.token ≡ false
      → IsEnd (turn parse encode env b) login
  unfolding turn follow arrive
  unknown-page b h e =
      let k = login_url-place parse encode env (encode (Text.append b.path b.search)) in
      rw (load_unknown-page parse encode env b h e) (
        k,
        login-IsAtRest parse encode env (arrive (login_url encode b) (still parse encode env b)) k,
      )

  unknown-console :
      (b : Browser)
      → place_of b.path ≡ console
      → truthy b.token ≡ false
      → IsEnd (turn parse encode env b) login
  unfolding turn follow arrive
  unknown-console b h e =
      let k = login_url-place parse encode env (encode (Text.append b.path b.search)) in
      rw (load_unknown-console parse encode env b h e) (
        k,
        login-IsAtRest parse encode env (arrive (login_url encode b) (still parse encode env b)) k,
      )

  IsEnd-of_IsEnd : (b : Browser) (p : Place) → IsEnd (turn parse encode env b) p → IsEnd (two b) p
  IsEnd-of_IsEnd b p h = IsEnd-after_one b _ p refl h.0 h.1

  -- Where the guards lead: an independent description by the token, the answer to "/v1/me" and the
  -- page asked parse encode env for.
  abbrev pub by_answer : Outcome Response → Place
  by_answer (thrown e) = page
  by_answer (returned r) =
      if nat_eq r.status 401 then login else if operator parse encode env r then console else page

  login-place : place_of "/login" ≡ login
  unfolding place_of
  login-place = refl

  console-place : place_of "/superadmin" ≡ console
  unfolding place_of
  console-place = refl

  page-place : place_of "/" ≡ page
  unfolding place_of
  page-place = refl

  turn-follow :
      (b c : Browser) → load parse encode env b ≡ c → turn parse encode env b ≡ follow c.went c
  unfolding turn
  turn-follow b c e = rw e refl

  loaded-page :
      (o : Outcome Response) (b : Browser)
      → place_of b.path ≡ page
      → truthy b.token ≡ true
      → answer_of parse encode env b ≡ o
      → load parse encode env b ≡ page_answer parse encode env o b
  loaded-page o b h k a =
      load_known-page parse encode env b h k ∙ ap (λ x. page_answer parse encode env x b) a

  loaded-console :
      (o : Outcome Response) (b : Browser)
      → place_of b.path ≡ console
      → truthy b.token ≡ true
      → answer_of parse encode env b ≡ o
      → load parse encode env b ≡ console_answer parse encode env o b
  loaded-console o b h k a =
      load_known-console parse encode env b h k ∙ ap (λ x. console_answer parse encode env x b) a

  known-page :
      (o : Outcome Response) (b : Browser)
      → place_of b.path ≡ page
      → truthy b.token ≡ true
      → answer_of parse encode env b ≡ o
      → IsEnd (two b) (by_answer o)
  unfolding follow arrive auth_headers
  known-page (thrown e) b h k a =
      IsEnd-at_once b page h (loaded-page (thrown e) b h k a ∙ page_thrown parse encode env e b)
  known-page (returned r) b h k a =
      let l = loaded-page (returned r) b h k a in
      elim (Bool-cases (nat_eq r.status 401)) [
        | inl e ↦ rw e (
            IsEnd-after_one b _ login
              (turn-follow b _ (
                l
                ∙ page_rejected parse encode env r b e (not_login-page parse encode env b.path h)))
              login-place
              (login-IsAtRest parse encode env (arrive "/login" (record b { token = none }))
                login-place))
        | inr e ↦ elim (Bool-cases (operator parse encode env r)) [
          | inl f ↦
              rw (e, f)
                (IsEnd-after_one b (arrive "/superadmin" b) console
                  (turn-follow b _ (l ∙ page_operator parse encode env r b e f)) console-place
                  (loaded-console (returned r) (arrive "/superadmin" b) console-place k a
                    ∙ console_operator parse encode env r (arrive "/superadmin" b) e f))
          | inr f ↦ rw (e, f) (IsEnd-at_once b page h (l ∙ page_user parse encode env r b e f))
        ]
      ]

  known-console :
      (o : Outcome Response) (b : Browser)
      → place_of b.path ≡ console
      → truthy b.token ≡ true
      → answer_of parse encode env b ≡ o
      → IsEnd (two b) (by_answer o)
  unfolding follow arrive auth_headers
  known-console (thrown e) b h k a =
      IsEnd-after_one b (arrive "/" b) page
        (turn-follow b _ (loaded-console (thrown e) b h k a ∙ console_thrown parse encode env e b))
        page-place
        (loaded-page (thrown e) (arrive "/" b) page-place k a
          ∙ page_thrown parse encode env e (arrive "/" b))
  known-console (returned r) b h k a =
      let l = loaded-console (returned r) b h k a in
      elim (Bool-cases (nat_eq r.status 401)) [
        | inl e ↦ rw e (
            rw
              (turn-follow b _ (
                l
                ∙ console_rejected parse encode env r b e
                    (not_login-console parse encode env b.path h)))
              (unknown-page (arrive "/" (record b { token = none })) page-place refl))
        | inr e ↦ elim (Bool-cases (operator parse encode env r)) [
          | inl f ↦
              rw (e, f) (IsEnd-at_once b console h (l ∙ console_operator parse encode env r b e f))
          | inr f ↦
              rw (e, f)
                (IsEnd-after_one b (arrive "/" b) page
                  (turn-follow b _ (l ∙ console_user parse encode env r b e f)) page-place
                  (loaded-page (returned r) (arrive "/" b) page-place k a
                    ∙ page_user parse encode env r (arrive "/" b) e f))
        ]
      ]

  -- The path of a browser that has come to rest stays as it is.
  travel-rest :
      (n : ℕ) (b : Browser) (p : Place) → IsEnd b p → IsEnd (travel parse encode env n b) p
  unfolding travel load
  travel-rest zero b p h = h
  travel-rest (suc n) b p h =
      subst (λ c. IsEnd (travel parse encode env n c) p) (sym (turn-rest b h.1))
        (travel-rest n (still parse encode env b) p h)

  abbrev pub after_token : Browser → Place
  after_token b = if truthy b.token then by_answer (answer_of parse encode env b) else login

  -- Where a visit ends, from each page.
  abbrev pub end_from : Place → Browser → Place
  end_from login b = login
  end_from console b = after_token b
  end_from page b = after_token b

  two-IsEnd : (p : Place) (b : Browser) → place_of b.path ≡ p → IsEnd (two b) (end_from p b)
  two-IsEnd login b h = IsEnd-at_once b login h (login-IsAtRest parse encode env b h)
  two-IsEnd console b h = elim (Bool-cases (truthy b.token)) [
    | inl e ↦ rw e (known-console (answer_of parse encode env b) b h e refl)
    | inr e ↦ rw e (IsEnd-of_IsEnd b login (unknown-console b h e))
  ]
  two-IsEnd page b h = elim (Bool-cases (truthy b.token)) [
    | inl e ↦ rw e (known-page (answer_of parse encode env b) b h e refl)
    | inr e ↦ rw e (IsEnd-of_IsEnd b login (unknown-page b h e))
  ]

  -- However the server answers "/v1/me", as long as it answers the same request the same way, the
  -- redirects of the two guards end: after two loads or more the browser rests on one page, and asks
  -- for no other. That page is the login page without a token or after a 401, and where it was asked
  -- for; the console for a superadmin; and an ordinary page for anybody else, and where the call fails.
  pub travel-settles :
      (n : ℕ) (b : Browser)
      → let last = travel parse encode env (suc (suc n)) b in
        (place_of last.path ≡ end_from (place_of b.path) b)
        × ((load parse encode env last).went ≡ [])
  unfolding travel
  travel-settles n b =
      let e =
        travel-rest n (two b) (end_from (place_of b.path) b) (two-IsEnd (place_of b.path) b refl) in
      (e.0, ap (λ (c : Browser). c.went) e.1)
