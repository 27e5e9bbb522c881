-- ===== src/Admin/Orgs.antt =====
-- The organisations of the platform (app/dashboard/app/superadmin/orgs/page.tsx).
pub mod Laws
use apifor_dev.Common.{
  ℕ, suc, String, ◌==◌, Bool, true, false, ◌&&◌, ◌||◌, not, Option, none, some, List, [], ◌∷◌, map,
  nat_eq, if◌then◌else◌, default, length, take, filter,
}
use apifor_dev.Common.Text
use apifor_dev.Admin.Overview.{Org}
use apifor_dev.Async.{thrown, returned, done, Script, Outcome, call, set, text_or}
use apifor_dev.Admin.{get, status_pill, Call, post}
use apifor_dev.Admin.Users.{first_part}

pub record Member : Type 0 where
  pub id : String
  pub email : String
  pub name : Option String
  pub status : String
  pub role : String

pub record Task : Type 0 where
  pub id : String
  pub title : Option String
  pub status : String

-- The body of "/v1/admin/orgs/<id>": an answer that reports an error has no field at all.
pub record Detail : Type 0 where
  pub org : Option Org
  pub members : Option (List Member)
  pub tasks : Option (List Task)

-- `reloads` counts the calls of `load` that nobody waits for.
pub record Orgs : Type 0 where
  pub orgs : List Org
  pub loading : Bool
  pub q : String
  pub plan_filter : String
  pub plan_modal : Option Org
  pub new_plan : String
  pub saving : Bool
  pub detail : Option Detail
  pub detail_loading : Bool
  pub reloads : ℕ

-- What the handlers read of an answer.
pub record Answer : Type 0 where
  pub body : Option (List Org)
  pub detail : Detail

abbrev pub Handler : Type 0
Handler = Script Orgs Call Answer

abbrev after_load : Outcome Answer → Handler
after_load (returned r) =
    set (λ s. record s { orgs = default [] r.body }) (set (λ s. record s { loading = false }) done)
after_load (thrown e) = set (λ s. record s { loading = false }) done

unfoldable pub load : Handler
load = call (λ s. get "/v1/admin/orgs") after_load

abbrev reload : Orgs → Orgs
reload s = record s { reloads = suc s.reloads }

abbrev pub detail_url : Org → String
detail_url o = Text.append "/v1/admin/orgs/" o.id

abbrev detail_over : Handler
detail_over = set (λ s. record s { detail_loading = false }) done

abbrev pub after_detail : Outcome Answer → Handler
after_detail (returned r) = set (λ s. record s { detail = some r.detail }) detail_over
after_detail (thrown e) = detail_over

-- The organisation as the table knows it, until its members and tasks are there.
abbrev pub outline : Org → Detail
outline o = record { org = some o; members = some []; tasks = some [] }

unfoldable pub open_detail : Org → Handler
open_detail o =
    set (λ s. record s { detail = some (outline o); detail_loading = true })
      (call (λ s. get (detail_url o)) after_detail)

abbrev saving_over : Handler
saving_over = set (λ s. record s { saving = false }) done

abbrev pub after_plan : Outcome Answer → Handler
after_plan (returned r) = set (λ s. record s { plan_modal = none }) (set reload saving_over)
after_plan (thrown e) = saving_over

abbrev change_of : String → Option Org → Handler
change_of plan none = done
change_of plan (some o) =
    set (λ s. record s { saving = true })
      (call (λ s. post (Text.append (detail_url o) "/plan") (("plan", plan) ∷ [])) after_plan)

unfoldable pub change_plan : Orgs → Handler
change_plan s = change_of s.new_plan s.plan_modal

abbrev pub is_suspended : Org → Bool
is_suspended o = o.suspended == "true"

abbrev pub suspend_url : Org → String
suspend_url o = Text.append (detail_url o) (if is_suspended o then "/unsuspend" else "/suspend")

abbrev pub flip : Org → Org
flip o = record o { suspended = if is_suspended o then "false" else "true" }

-- `detail?.org.id === o.id`
abbrev pub is_open : Option Detail → Org → Bool
is_open none o = false
is_open (some d) o = elim d.org [ none ↦ false | some p ↦ p.id == o.id ]

abbrev pub after_suspend : Bool → Org → Outcome Answer → Handler
after_suspend shown o (returned r) = set reload (if shown then open_detail (flip o) else done)
after_suspend shown o (thrown e) = done

unfoldable pub toggle_suspend : Orgs → Org → Handler
unfolding open_detail
toggle_suspend s o = call (λ t. post (suspend_url o) []) (after_suspend (is_open s.detail o) o)

-- One line of the table.
pub record Row : Type 0 where
  pub key : String
  pub name : String
  pub owner : String × String
  pub plan : String
  pub members : ℕ
  pub workers : ℕ
  pub tasks : ℕ
  pub status : Bool × String
  pub button : String

unfoldable pub row : Org → Row
row o = record {
  key = o.id;
  name = o.name;
  owner = (o.owner_email, Text.take 16 o.id);
  plan = o.plan;
  members = o.members;
  workers = o.workers;
  tasks = o.tasks;
  status = status_pill (not (is_suspended o)) "ativo" "suspenso";
  button = if is_suspended o then "Ativar" else "Suspender";
}

module _ (lower : String → String) where
  unfoldable pub found_by : String → Org → Bool
  found_by q o =
      (q == "")
      || Text.includes (lower o.name) (lower q)
      || Text.includes (lower o.owner_email) (lower q)
      || Text.includes o.id q

  unfoldable pub filtered : Orgs → List Org
  unfolding found_by
  filtered s =
      filter (found_by s.q)
        (filter (λ o. (s.plan_filter == "all") || (o.plan == s.plan_filter)) s.orgs)

-- The dialog of one organisation; `none` is the exception of reading a field of nothing, with which
-- React takes the page down.
pub record Panel : Type 0 where
  pub title : String
  pub ok : Bool
  pub members : List (String × (String × (String × Bool)))
  pub no_members : Bool
  pub tasks : List (String × String)
  pub no_tasks : Bool

abbrev member_line : Member → String × (String × (String × Bool))
member_line m =
    (text_or m.name (first_part (Text.split 64 m.email)), (m.email, (m.role, m.status == "active")))

abbrev task_line : Task → String × String
task_line t = (text_or t.title t.id, t.status)

abbrev panel_of : Bool → List Task → Org → List Member → Panel
panel_of waiting ts o ms = record {
  title = o.name;
  ok = not (is_suspended o);
  members = map member_line ms;
  no_members = not waiting && nat_eq (length ms) 0;
  tasks = map task_line (take 8 ts);
  no_tasks = not waiting && nat_eq (length ts) 0;
}

unfoldable pub panel : Bool → Detail → Option Panel
unfolding text_or
panel waiting d = elim d.org [
  | none ↦ none
  | some o ↦ elim d.members [
    | none ↦ none
    | some ms ↦ some (panel_of waiting (default [] d.tasks) o ms)
  ]
]

-- The toolbar, and the opening and closing of the two dialogs.
pub data Edit : Type 0 where
  type_q pick_filter pick_plan : String → Edit
  ask_plan : Org → Edit
  close_plan close_detail : Edit

unfoldable pub edit : Edit → Orgs → Orgs
edit (type_q v) s = record s { q = v }
edit (pick_filter v) s = record s { plan_filter = v }
edit (pick_plan v) s = record s { new_plan = v }
edit (ask_plan o) s = record s { plan_modal = some o; new_plan = o.plan }
edit close_plan s = record s { plan_modal = none }
edit close_detail s = record s { detail = none }
