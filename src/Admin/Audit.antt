-- ===== src/Admin/Audit.antt =====
-- The audit trail of the platform (app/dashboard/app/superadmin/audit/page.tsx).
use apifor_dev.Common.{
  ℕ, String, ◌==◌, Bool, true, false, ◌||◌, Option, none, some, List, [], map, nat_eq,
  if◌then◌else◌, default, length, filter,
}
use apifor_dev.Common.Text
use apifor_dev.Async.{thrown, done, set, returned, call, text_or, Script, Outcome}
use apifor_dev.Admin.{get, Call}
use apifor_dev.Session.{truthy}

pub record Audit : Type 0 where
  pub id : String
  pub action : String
  pub target_type : String
  pub target_id : Option String
  pub occurred_at : String
  pub org_name : Option String
  pub actor_type : String
  pub actor_id : Option String
  pub actor_email : Option String

unfoldable pub action_color : String → String
action_color action =
    if Text.starts_with action "admin."
    then "var(--red)"
    else if Text.includes action "delete"
        || Text.includes action "suspend"
        || Text.includes action "fail"
    then "var(--orange)"
    else "var(--accent)"

pub record Trail : Type 0 where
  pub rows : List Audit
  pub loading : Bool
  pub scope : String
  pub q : String

abbrev pub Answer : Type 0
Answer = Option (List Audit)

abbrev after_load : Outcome Answer → Script Trail Call Answer
after_load (returned body) =
    set (λ s. record s { rows = default [] body }) (set (λ s. record s { loading = false }) done)
after_load (thrown e) = set (λ s. record s { loading = false }) done

abbrev pub load_url : String → String
load_url scope =
    Text.append "/v1/admin/audit?limit=200" (if scope == "admin" then "&scope=admin" else "")

-- The effect that runs at first and whenever the scope changes; it keeps the scope it was made with.
unfoldable pub load : String → Script Trail Call Answer
load scope = set (λ s. record s { loading = true }) (call (λ s. get (load_url scope)) after_load)

-- One line: the texts of its four columns.
pub record Row : Type 0 where
  pub key : String
  pub action : String × String
  pub org : String
  pub actor : String
  pub target : Option (String × String)
  pub at : String

module _ (lower : String → String) (replace : String → String → String → String) where
  unfoldable pub found_by : String → Audit → Bool
  found_by q r =
      (q == "")
      || Text.includes (lower r.action) (lower q)
      || Text.includes (lower (default "" r.actor_email)) (lower q)
      || Text.includes (lower (default "" r.org_name)) (lower q)

  unfoldable pub filtered : Trail → List Audit
  unfolding found_by
  filtered s = filter (found_by s.q) s.rows

  unfoldable pub row : Audit → Row
  unfolding action_color text_or
  row r = record {
    key = r.id;
    action = (action_color r.action, r.action);
    org = text_or r.org_name "—";
    actor = text_or r.actor_email (text_or r.actor_id r.actor_type);
    target =
        if truthy r.target_id
        then some (r.target_type, Text.take 18 (default "" r.target_id))
        else none;
    at = replace "Z" "" (replace "T" " " r.occurred_at);
  }

  unfoldable pub screen : Trail → ℕ × (List Row × Bool)
  unfolding filtered row
  screen s = let shown = filtered s in (length shown, (map row shown, nat_eq (length shown) 0))

-- The search, and the scope, whose change runs `load` again.
pub data Edit : Type 0 where
  type_q pick_scope : String → Edit

unfoldable pub edit : Edit → Trail → Trail
edit (type_q v) s = record s { q = v }
edit (pick_scope v) s = record s { scope = v }
