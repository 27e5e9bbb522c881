-- ===== src/Tests/Access.antt =====
-- The guards and the login form on concrete inputs.
use apifor_dev.Common.{String, ◌≡◌, refl, Option, none, some, []}
use apifor_dev.Session.{get_token, safe_json, after_me, mount, body_of, Browser, Response, Me, Get}
use apifor_dev.Access.Login.{register, Session, Login}
use apifor_dev.Access.Journey.{page, arrive, follow, guard, load, turn, place_of, travel}
use apifor_dev.Access.Settle.{travel-settles, end_from}
use apifor_dev.Async.{text_or, run, returned, Outcome}
use apifor_dev.Access.{get_email, after_check, admin_mount}

abbrev bare : Browser
bare = record { token = none; wsp = none; path = "/login"; search = ""; went = [] }

abbrev known : Browser
known = record bare { token = some "t0"; path = "/superadmin/orgs" }

-- A server for which everybody is a member, and one whose operator is the bearer.
abbrev as_member : String → Option Me
as_member s = some (record { role = some "member" })

abbrev answers : Get → Outcome Response
answers g = returned (record { status = 200; text = "{\"role\":\"member\"}" })

-- A member who opens the console ends on the home page.
travel_example : place_of (travel as_member (λ s. s) answers 2 known).path ≡ page
unfolding travel turn load guard admin_mount mount run after_check after_me safe_json body_of
    get_token get_email text_or place_of follow arrive
travel_example = refl

travel-settles_example :
    let last = travel as_member (λ s. s) answers 3 known in
    (place_of last.path ≡ end_from as_member (λ s. s) answers (place_of "/superadmin/orgs") known)
    × ((load as_member (λ s. s) answers last).went ≡ [])
travel-settles_example = travel-settles as_member (λ s. s) answers 1 known

abbrev form : Login
form = record {
  mode = register;
  mail = "a@b.c";
  password = "secret";
  org = "";
  err = "";
  browser = bare;
  stored = none;
}

abbrev grants : String → Option Session
grants s = some (record { access_token = some "t1"; role = some "member"; error = none })

abbrev granted : Response
granted = record { status = 200; text = "{}" }
