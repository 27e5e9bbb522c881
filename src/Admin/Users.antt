-- ===== src/Admin/Users.antt =====
-- The users of the platform (app/dashboard/app/superadmin/users/page.tsx). `toLowerCase` and
-- `email.split("@")[0]` of the texts are as JavaScript has them; the first is a parameter.
pub mod Laws
use apifor_dev.Common.{
  ℕ, ◌-◌, String, ◌==◌, Bool, false, ◌&&◌, ◌||◌, not, Option, List, [], ◌∷◌, map, nat_eq,
  if◌then◌else◌, default, length, take, filter, count,
}
use apifor_dev.Common.Text
use apifor_dev.Async.{thrown, set, returned, done, call, Script, text_or, Outcome}
use apifor_dev.Admin.{post, get, status_pill, Call}
use apifor_dev.Session.{truthy}

pub record User : Type 0 where
  pub id : String
  pub email : String
  pub name : Option String
  pub status : String
  pub created_at : String
  pub org_id : Option String
  pub role : Option String

pub record Users : Type 0 where
  pub users : List User
  pub loading : Bool
  pub q : String
  pub status_filter : String
  pub busy : String

-- The bodies that the handlers read: `data` of the list, nothing of an action.
abbrev pub Answer : Type 0
Answer = Option (List User)

abbrev loaded : Answer → Users → Users
loaded body s = record s { users = default [] body }

abbrev not_loading : Users → Users
not_loading s = record s { loading = false }

abbrev not_busy : Users → Users
not_busy s = record s { busy = "" }

-- `load().then(…).finally(…)`, and what follows it, which an exception skips.
abbrev pub load_then :
    Script Users Call Answer → Script Users Call Answer → Outcome Answer → Script Users Call Answer
load_then ok fail (returned body) = set (loaded body) (set not_loading ok)
load_then ok fail (thrown e) = set not_loading fail

unfoldable pub load : Script Users Call Answer
load = call (λ s. get "/v1/admin/users") (load_then done done)

abbrev pub action_of : User → String
action_of u = if u.status == "suspended" then "activate" else "suspend"

abbrev pub toggle_url : User → String
toggle_url u = Text.append "/v1/admin/users/" (Text.append u.id (Text.append "/" (action_of u)))

abbrev finally : Script Users Call Answer
finally = set not_busy done

abbrev pub after_toggle : Outcome Answer → Script Users Call Answer
after_toggle (returned r) = call (λ s. get "/v1/admin/users") (load_then finally finally)
after_toggle (thrown e) = finally

unfoldable pub toggle : User → Script Users Call Answer
toggle u = set (λ s. record s { busy = u.id }) (call (λ s. post (toggle_url u) []) after_toggle)

unfoldable pub active : List User → ℕ
active users = count (λ u. u.status == "active") users

unfoldable pub suspended : List User → ℕ
unfolding active
suspended users = length users - active users

-- One line of the table; the button is off for oneself and for the user under way.
pub record Row : Type 0 where
  pub key : String
  pub name : String
  pub you : Bool
  pub email : String
  pub org : String
  pub role : String
  pub status : Bool × String
  pub created : String
  pub off : Bool
  pub title : String
  pub button : String

pub record Screen : Type 0 where
  pub total : ℕ
  pub active : ℕ
  pub suspended : ℕ
  pub found : ℕ
  pub table : List Row
  pub empty : Bool

abbrev pub first_part : List String → String
first_part [] = ""
first_part (s ∷ ss) = s

module _ (lower : String → String) where
  unfoldable pub found_by : String → User → Bool
  found_by q u =
      (q == "")
      || Text.includes (lower u.email) (lower q)
      || Text.includes (lower (default "" u.name)) (lower q)

  unfoldable pub filtered : Users → List User
  unfolding found_by
  filtered s =
      filter (found_by s.q)
        (filter (λ u. (s.status_filter == "all") || (u.status == s.status_filter)) s.users)

  unfoldable pub is_self : String → User → Bool
  is_self mine u = not (mine == "") && (lower u.email == lower mine)

  unfoldable pub row : String → String → User → Row
  unfolding is_self text_or
  row mine busy u = record {
    key = u.id;
    name = text_or u.name (first_part (Text.split 64 u.email));
    you = is_self mine u;
    email = u.email;
    org = if truthy u.org_id then Text.take 14 (default "" u.org_id) else "—";
    role = text_or u.role "—";
    status = status_pill (u.status == "active") "ativo" "suspenso";
    created = u.created_at;
    off = is_self mine u || (busy == u.id);
    title = if is_self mine u then "Não é possível alterar o próprio status" else "";
    button =
        if busy == u.id then "…" else if u.status == "suspended" then "Ativar" else "Suspender";
  }

  unfoldable pub screen : String → Users → Screen
  unfolding filtered row active suspended
  screen mine s = record {
    total = length s.users;
    active = active s.users;
    suspended = suspended s.users;
    found = length (filtered s);
    table = map (row mine s.busy) (filtered s);
    empty = nat_eq (length (filtered s)) 0;
  }

  -- The clicks that the page lets through.
  unfoldable pub click : String → User → Users → Script Users Call Answer
  unfolding row toggle
  click mine u s = if (row mine s.busy u).off then done else toggle u

-- The search and the filter of the toolbar.
pub data Edit : Type 0 where
  type_q pick_status : String → Edit

unfoldable pub edit : Edit → Users → Users
edit (type_q v) s = record s { q = v }
edit (pick_status v) s = record s { status_filter = v }
