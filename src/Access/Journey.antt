-- ===== src/Access/Journey.antt =====
-- The pages as the browser loads them one after the other: each load runs the guard of the page it
-- is on, and the browser then goes where the guard sent it last. The login page has no guard.
use apifor_dev.Common.{
  ℕ, zero, suc, String, false, Option, none, some, List, [], ◌∷◌, if◌then◌else◌,
}
use apifor_dev.Common.Text
use apifor_dev.Session.{after_me, mount, Response, Get, Browser, Me}
use apifor_dev.Async.{run, Outcome}
use apifor_dev.Access.{after_check, admin_mount}
use apifor_dev.Access.Address.{is_plain, search_of, path_of}

pub data Place : Type 0 where
  login console page : Place

-- The page that a path shows: everything under app/login, app/superadmin and the rest of app.
unfoldable pub place_of : String → Place
place_of path =
    if Text.starts_with path "/login"
    then login
    else if Text.starts_with path "/superadmin"
    then console
    else page

-- The browser arrives at an address, a path of the site with its query.
unfoldable pub arrive : String → Browser → Browser
arrive url b = record b { path = path_of url; search = search_of url; went = [] }

unfoldable pub follow : List String → Browser → Browser
unfolding arrive
follow [] b = b
follow (url ∷ urls) b = arrive url b

-- The arrival at an address that the code did not write itself: an address that is no plain path may
-- lead out of the site, and what the browser shows then is not said.
unfoldable pub arrive_plain : String → Browser → Option Browser
unfolding arrive
arrive_plain url b = if is_plain url then some (arrive url b) else none

module _ (parse : String → Option Me) (encode : String → String)
    (env : Get → Outcome Response) where
  unfoldable pub guard : Place → Browser → Browser
  unfolding mount run admin_mount after_me after_check
  guard login b = b
  guard page b =
      (run env (mount parse encode (record { browser = b; authed = none }))
        (record { browser = b; authed = none })).0.browser
  guard console b =
      (run env
        (admin_mount parse encode (record { browser = b; stored = none; ok = false; email = "" }))
        (record { browser = b; stored = none; ok = false; email = "" })).0.browser

  -- A load runs the guard of the page that the path shows.
  unfoldable pub load : Browser → Browser
  unfolding place_of guard
  load b = guard (place_of b.path) (record b { went = [] })

  -- A load, and the arrival at the last address asked for, if there is one.
  unfoldable pub turn : Browser → Browser
  unfolding load follow
  turn b = let c = load b in follow c.went c

  unfoldable pub travel : ℕ → Browser → Browser
  unfolding turn
  travel zero b = b
  travel (suc n) b = travel n (turn b)
