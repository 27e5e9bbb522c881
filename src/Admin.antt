-- ===== src/Admin.antt =====
-- The platform's console (app/dashboard/app/superadmin): what its pages share, from shell.tsx. The
-- guard of the console is in Access. `toLocaleString` and the printing of numbers are parameters.
pub mod Billing
pub mod Overview
pub mod Users
pub mod Revenue
pub mod Orgs
pub mod Audit
use apifor_dev.Common.{ℕ, String, ◌==◌, Bool, Option, none, some, List, [], if◌then◌else◌}
use apifor_dev.Common.Text

-- `p.plan` and its prices, as "/v1/admin/plans" answers them.
pub record Plan : Type 0 where
  pub plan : String
  pub price_cents : Option ℕ
  pub currency : String
  pub max_workers : Option ℕ
  pub weekly_worker_hours : Option ℕ
  pub max_members : Option ℕ
  pub orgs : ℕ
  pub seats : ℕ

-- `cents / 100` as `toLocaleString` writes it comes from `dollars`, `toUpperCase` is `upper`.
unfoldable pub fmt_money : (ℕ → String) → (String → String) → Option ℕ → String → String
fmt_money dollars upper none currency = "—"
fmt_money dollars upper (some cents) currency =
    Text.append (if currency == "usd" then "$" else Text.append (upper currency) " ")
      (dollars cents)

unfoldable pub plan_color : String → String × String
plan_color plan =
    if plan == "pro"
    then ("var(--blue)", "var(--blue-tint)")
    else if plan == "team"
    then ("var(--accent)", "var(--accent-tint)")
    else if plan == "enterprise"
    then ("var(--green)", "var(--green-tint)")
    else ("var(--mute)", "var(--elev)")

-- A call of the console's handlers, and the page while it waits.
pub record Call : Type 0 where
  pub method : String
  pub url : String
  pub fields : List (String × String)

abbrev pub get : String → Call
get url = record { method = "GET"; url = url; fields = [] }

abbrev pub post : String → List (String × String) → Call
post url fields = record { method = "POST"; url = url; fields = fields }

-- The pill of a status: its text, and whether it is the good one.
abbrev pub status_pill : Bool → String → String → Bool × String
status_pill ok on off = (ok, if ok then on else off)
