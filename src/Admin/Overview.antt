-- ===== src/Admin/Overview.antt =====
-- The console's first page (app/dashboard/app/superadmin/page.tsx).
use apifor_dev.Common.{
  ℕ, ◌+◌, ◌*◌, max, String, ◌==◌, Option, none, some, List, [], ◌∷◌, if◌then◌else◌, default, count,
}
use apifor_dev.Admin.{Plan}
use apifor_dev.Admin.Billing.{reduce, priced}

pub record Stats : Type 0 where
  pub total_orgs : ℕ
  pub total_users : ℕ
  pub plan_free : ℕ
  pub plan_pro : ℕ
  pub plan_team : ℕ
  pub plan_enterprise : ℕ
  pub total_tasks : ℕ
  pub total_workers : ℕ

pub record Org : Type 0 where
  pub id : String
  pub name : String
  pub plan : String
  pub owner_email : String
  pub members : ℕ
  pub workers : ℕ
  pub tasks : ℕ
  pub created_at : String
  pub suspended : String

unfoldable pub suspended : List Org → ℕ
suspended orgs = count (λ o. o.suspended == "true") orgs

-- One step of the page's `reduce`, with its early returns.
unfoldable pub earn : ℕ → Plan → ℕ
earn acc p =
    if priced p.price_cents
    then if p.plan == "team"
      then acc + default 0 p.price_cents * p.seats
      else if p.plan == "pro"
      then acc + default 0 p.price_cents * p.orgs
      else acc
    else acc

unfoldable pub mrr : List Plan → ℕ
unfolding earn
mrr plans = reduce earn plans 0

unfoldable pub plan_rows : Option Stats → List (String × ℕ)
plan_rows none = []
plan_rows (some s) =
    ("free", s.plan_free)
    ∷ ("pro", s.plan_pro)
    ∷ ("team", s.plan_team)
    ∷ ("enterprise", s.plan_enterprise)
    ∷ []

-- `Math.max(1, ...ns)`
abbrev pub max_of : List (String × ℕ) → ℕ
max_of [] = 1
max_of (r ∷ rs) = max r.1 (max_of rs)

unfoldable pub max_plan : Option Stats → ℕ
unfolding plan_rows
max_plan s = max_of (plan_rows s)
