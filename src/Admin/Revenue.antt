-- ===== src/Admin/Revenue.antt =====
-- The estimates of the two pages of the console that show the revenue.
use native.Mathlib.Omega.{div_any}
use native.Mathlib.Nat.{mod-lt}
use apifor_dev.Admin.Overview
use apifor_dev.Admin.Billing
use apifor_dev.Common.{
  ℕ, ◌+◌, ◌*◌, ◌/◌, ◌%◌, ◌≤◌, ◌<◌, ◌==◌, ◌≡◌, refl, ◌∙◌, inl, inr, Bool, false, Option, none, some,
  List, [], ◌∷◌, ◌++◌, arith, nat_eq, if◌then◌else◌, Bool-cases, default, if-true, if-false, filter,
  nat_eq_iff,
}
use apifor_dev.Admin.Billing.{priced, total_orgs, paid_orgs, arpu, mrr_for, reduce}
use apifor_dev.Admin.{Plan}
use apifor_dev.Admin.Overview.{earn}

pub reduce_from {ℓ} :
    {A : Type ℓ} (f : A → ℕ) (xs : List A) (a : ℕ)
    → reduce (λ b x. b + f x) xs a ≡ a + reduce (λ b x. b + f x) xs 0
reduce_from f [] a = omega arith
reduce_from f (x ∷ xs) a =
    let sum : List _ → ℕ → ℕ = reduce (λ b y. b + f y) in
    let h : sum (x ∷ xs) a ≡ (a + f x) + sum xs 0 = reduce_from f xs (a + f x) in
    let k : sum (x ∷ xs) 0 ≡ (0 + f x) + sum xs 0 = reduce_from f xs (0 + f x) in
    omega (arith, h, k)

reduce-append {ℓ} :
    {A : Type ℓ} (g : ℕ → A → ℕ) (xs ys : List A) (a : ℕ)
    → reduce g (xs ++ ys) a ≡ reduce g ys (reduce g xs a)
reduce-append g [] ys a = refl
reduce-append g (x ∷ xs) ys a = reduce-append g xs ys (g a x)

earn_lem : (a : ℕ) (p : Plan) → earn a p ≡ a + mrr_for p
unfolding earn mrr_for
earn_lem a p = ground arith

reduce-earn :
    (plans : List Plan) (a : ℕ) → reduce earn plans a ≡ reduce (λ b p. b + mrr_for p) plans a
reduce-earn [] a = refl
reduce-earn (p ∷ ps) a = rw (earn_lem a p) (reduce-earn ps (a + mrr_for p))

-- What a plan earns in a month: its price for each seat of a team plan, for each organisation of a pro
-- plan, and nothing for the others or without a price.
abbrev pub revenue : Plan → ℕ
revenue p =
    default 0 p.price_cents
    * (if p.plan == "team" then p.seats else if p.plan == "pro" then p.orgs else 0)

abbrev pub sum_revenue : List Plan → ℕ
sum_revenue [] = 0
sum_revenue (p ∷ ps) = revenue p + sum_revenue ps

priced-revenue :
    (o : Option ℕ) (n : ℕ) → (if priced o then default 0 o * n else 0) ≡ default 0 o * n
priced-revenue none n = omega arith
priced-revenue (some k) n = ground arith

mrr_for-revenue : (p : Plan) → mrr_for p ≡ revenue p
unfolding mrr_for
mrr_for-revenue p =
    ground (arith, priced-revenue p.price_cents p.seats, priced-revenue p.price_cents p.orgs)

mrr-sum_revenue : (plans : List Plan) → reduce (λ a p. a + mrr_for p) plans 0 ≡ sum_revenue plans
mrr-sum_revenue [] = refl
mrr-sum_revenue (p ∷ ps) =
    reduce_from mrr_for ps (0 + mrr_for p) ∙ omega (arith, mrr_for-revenue p, mrr-sum_revenue ps)

-- The console's first page and its billing page, which compute it in two ways, show the same monthly
-- revenue for every catalogue of plans. It is the sum of what the plans earn: its price for each seat
-- of a team plan and for each organisation of a pro plan, and nothing for another plan or for one
-- without a price. Appending plans to the catalogue adds what they earn.
pub mrr-agree :
    (plans more : List Plan)
    → (Overview.mrr plans ≡ Billing.mrr plans)
      × (Billing.mrr plans ≡ sum_revenue plans)
      × (Billing.mrr (plans ++ more) ≡ Billing.mrr plans + Billing.mrr more)
unfolding Overview.mrr Billing.mrr
mrr-agree plans more = (
  reduce-earn plans 0,
  mrr-sum_revenue plans,
  reduce-append (λ b p. b + mrr_for p) plans more 0 ∙ reduce_from mrr_for more (Billing.mrr plans),
)

-- A quotient by twice a number, times that number.
round_lem :
    (m n : ℕ)
    → 1 ≤ n
    → let q = (2 * m + n) / (2 * n) in (2 * (n * q) ≤ 2 * m + n) × (2 * m ≤ 2 * (n * q) + n)
round_lem m n h =
    let q = (2 * m + n) / (2 * n) in
    let e : 2 * n * q + (2 * m + n) % (2 * n) ≡ 2 * m + n = div_any (2 * m + n) (2 * n) in
    let l : (2 * m + n) % (2 * n) < 2 * n = mod-lt (2 * m + n) (omega arith) in
    let a : 2 * n * q ≡ 2 * (n * q) = omega arith in (omega arith, omega arith)

-- The average revenue per organisation, multiplied by the number of organisations, differs from the
-- revenue by half that number at most; it is 0 where there is no organisation.
pub arpu-rounded :
    (plans : List Plan)
    → let n = total_orgs plans in
      ((n ≡ 0) → arpu plans ≡ 0)
      × ((1 ≤ n)
          → (2 * (n * arpu plans) ≤ 2 * Billing.mrr plans + n)
            × (2 * Billing.mrr plans ≤ 2 * (n * arpu plans) + n))
unfolding arpu
arpu-rounded plans = (
  λ h. if-true _ _ ((nat_eq_iff (total_orgs plans) 0).1 h),
  λ h.
      let z : nat_eq (total_orgs plans) 0 ≡ false = ground arith in
      let e : arpu plans ≡ _ = if-false _ _ z in
      rw e (round_lem (Billing.mrr plans) (total_orgs plans) h),
)

reduce-filter-le {ℓ} :
    {A : Type ℓ} (p : A → Bool) (f : A → ℕ) (xs : List A)
    → reduce (λ b x. b + f x) (filter p xs) 0 ≤ reduce (λ b x. b + f x) xs 0
reduce-filter-le p f [] = omega arith
reduce-filter-le p f (x ∷ xs) =
    let sum : List _ → ℕ → ℕ = reduce (λ b y. b + f y) in
    let k : sum (x ∷ xs) 0 ≡ (0 + f x) + sum xs 0 = reduce_from f xs (0 + f x) in
    let ih : sum (filter p xs) 0 ≤ sum xs 0 = reduce-filter-le p f xs in
    elim (Bool-cases (p x)) [
      | inl e ↦
          let l : sum (x ∷ filter p xs) 0 ≡ (0 + f x) + sum (filter p xs) 0 =
            reduce_from f (filter p xs) (0 + f x) in
          rw e (omega (arith, k, ih, l))
      | inr e ↦ rw e (omega (arith, k, ih))
    ]

-- The organisations on paid plans are among all of them.
pub paid_orgs-le : (plans : List Plan) → paid_orgs plans ≤ total_orgs plans
unfolding paid_orgs total_orgs
paid_orgs-le plans = reduce-filter-le Billing.is_paid (λ p. p.orgs) plans
