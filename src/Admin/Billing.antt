-- ===== src/Admin/Billing.antt =====
-- The revenue and the plans (app/dashboard/app/superadmin/billing/page.tsx).
use apifor_dev.Common.{
  ℕ, ◌+◌, ◌*◌, ◌/◌, String, ◌==◌, Bool, false, ◌&&◌, not, Option, none, some, List, [], ◌∷◌, map,
  nat_eq, if◌then◌else◌, default, filter,
}
use apifor_dev.Common.Text
use apifor_dev.Admin.{Plan, fmt_money}

-- `price_cents` is null, 0 or a price: the first two are falsy.
abbrev pub priced : Option ℕ → Bool
priced none = false
priced (some n) = not (nat_eq n 0)

unfoldable pub mrr_for : Plan → ℕ
mrr_for p =
    if priced p.price_cents
    then if p.plan == "team"
      then default 0 p.price_cents * p.seats
      else if p.plan == "pro"
      then default 0 p.price_cents * p.orgs
      else 0
    else 0

-- `plans.reduce((a, p) => a + f(p), 0)`
abbrev pub reduce {ℓ} : {A : Type ℓ} → (ℕ → A → ℕ) → List A → ℕ → ℕ
reduce f [] a = a
reduce f (x ∷ xs) a = reduce f xs (f a x)

unfoldable pub mrr : List Plan → ℕ
unfolding mrr_for
mrr plans = reduce (λ a p. a + mrr_for p) plans 0

unfoldable pub is_paid : Plan → Bool
is_paid p = not (p.plan == "free") && priced p.price_cents

unfoldable pub paid_orgs : List Plan → ℕ
unfolding is_paid
paid_orgs plans = reduce (λ a p. a + p.orgs) (filter is_paid plans) 0

unfoldable pub total_orgs : List Plan → ℕ
total_orgs plans = reduce (λ a p. a + p.orgs) plans 0

-- `Math.round(totalOrgs ? mrr / totalOrgs : 0)`: a half is rounded up.
unfoldable pub arpu : List Plan → ℕ
unfolding mrr total_orgs
arpu plans = let n = total_orgs plans in if nat_eq n 0 then 0 else (2 * mrr plans + n) / (2 * n)

module _ (show : ℕ → String) where
  unfoldable pub lim : Option ℕ → String → String
  lim none suffix = "ilimitado"
  lim (some v) suffix = Text.append (show v) suffix

module _ (dollars : ℕ → String) (upper : String → String) where
  unfoldable pub price_label : Plan → String
  unfolding fmt_money
  price_label p =
      if p.plan == "enterprise"
      then "sob consulta"
      else if priced p.price_cents
      then Text.append (fmt_money dollars upper p.price_cents p.currency)
          (if p.plan == "team" then " / assento" else " / mês")
      else "grátis"

-- One plan of the catalogue.
pub record Card : Type 0 where
  pub plan : String
  pub price : String
  pub orgs : ℕ
  pub revenue : String
  pub rows : List (String × String)

pub record Screen : Type 0 where
  pub stats : List (String × String)
  pub plans : List Card

module _ (dollars show : ℕ → String) (upper : String → String) where
  unfoldable pub card : Plan → Card
  unfolding price_label fmt_money lim mrr_for
  card p = record {
    plan = p.plan;
    price = price_label dollars upper p;
    orgs = p.orgs;
    revenue = fmt_money dollars upper (some (mrr_for p)) "usd";
    rows =
        ("Assentos ativos", show p.seats)
        ∷ ("Max workers", lim show p.max_workers "")
        ∷ ("Worker-hours/sem", lim show p.weekly_worker_hours "h")
        ∷ ("Max membros", lim show p.max_members "")
        ∷ [];
  }

  unfoldable pub screen : List Plan → Screen
  unfolding mrr paid_orgs arpu card fmt_money
  screen plans = record {
    stats =
        ("MRR estimado", fmt_money dollars upper (some (mrr plans)) "usd")
        ∷ ("ARR estimado", fmt_money dollars upper (some (mrr plans * 12)) "usd")
        ∷ ("Orgs pagantes", show (paid_orgs plans))
        ∷ ("ARPU", fmt_money dollars upper (some (arpu plans)) "usd")
        ∷ [];
    plans = map card plans;
  }
