-- ===== src/Invoices/Laws.antt =====
-- The month that an invoice bills, and its status in the table and in the filters.
use apifor_dev.Common.{
  ℕ, zero, suc, ◌-◌, ◌≤◌, String, ◌==◌, ◌≡◌, refl, ap, inl, inr, false, ◌||◌, List, [], ◌∷◌, arith,
  contains-false, ltb, nat_eq, if◌then◌else◌, Bool-cases, contains, All, contains-ind,
}
use apifor_dev.Invoices.{Row, status_group, status_info, line}
use apifor_dev.Invoices.Dates.{month_start, eve, days_in, billed, Date}

-- The day after a date, by the calendar.
abbrev pub next_day : Date → Date
next_day d =
    if ltb d.day (days_in d.year d.month)
    then record d { day = suc d.day }
    else if nat_eq d.month 11
    then month_start (suc d.year) 0
    else month_start d.year (suc d.month)

by_month :
    (y m : ℕ)
    → 1 ≤ y
    → m ≤ 11
    → let b = billed (month_start y m) in
      (b.0 ≡ month_start b.1.year b.1.month)
      × (b.1.day ≡ days_in b.1.year b.1.month)
      × (next_day b.1 ≡ month_start y m)
unfolding billed eve
by_month y zero h k =
    let e : suc (y - 1) ≡ y = omega arith in (refl, refl, ap (λ x. month_start x 0) e)
by_month y (suc m) h k = (refl, refl, ground arith)

-- The period of an invoice is one whole month, from its first day to its last, and the day after the
-- last is the first of the month of the invoice; over the turn of the year too.
pub billed-eve :
    (d : Date)
    → 1 ≤ d.year
    → d.month ≤ 11
    → ((billed d).0 ≡ month_start (billed d).1.year (billed d).1.month)
      × ((billed d).1.day ≡ days_in (billed d).1.year (billed d).1.month)
      × (next_day (billed d).1 ≡ month_start d.year d.month)
unfolding billed eve
billed-eve d h k = by_month d.year d.month h k

abbrev group_label : String → String
group_label g = if g == "paga" then "Paga" else if g == "pendente" then "Pendente" else "Falhou"

abbrev known_statuses : List String
known_statuses = "paid" ∷ "open" ∷ "past_due" ∷ "failed" ∷ "void" ∷ []

abbrev IsConsistent : String → Type 0
IsConsistent s =
    ((status_info s).0 ≡ (if contains known_statuses s then group_label (status_group s) else "—"))
    × (contains known_statuses s ≡ false → status_group s ≡ "falhou")
    × ((s == "open") || (s == "past_due") ≡ (status_group s == "pendente"))
    × ((s == "paid") ≡ (status_group s == "paga"))

known-IsConsistent : All IsConsistent known_statuses
unfolding status_info status_group
known-IsConsistent = (
  (refl, λ h. cc, refl, refl),
  (
    (refl, λ h. cc, refl, refl),
    (
      (refl, λ h. cc, refl, refl),
      ((refl, λ h. refl, refl, refl), ((refl, λ h. refl, refl, refl), tt)),
    ),
  ),
)

unknown-IsConsistent : (s : String) → contains known_statuses s ≡ false → IsConsistent s
unfolding status_info status_group
unknown-IsConsistent s h =
    let f = contains-false known_statuses s h in
    rw (h, f.0, f.1.0, f.1.1.0, f.1.1.1.0, f.1.1.1.1.0) (refl, λ h. refl, refl, refl)

-- The status that a line shows is that of the filter that finds the line, for the five statuses that
-- the page knows; any other is shown as "—" and found under "falhou". A line offers to pay exactly
-- where the filter "pendente" finds it, and the receipt exactly where "paga" does.
pub line-group :
    (r : Row)
    → let known = contains known_statuses r.raw_status in
      let group = status_group r.raw_status in
      ((line r).status.0 ≡ (if known then group_label group else "—"))
      × (known ≡ false → group ≡ "falhou")
      × ((line r).pay ≡ (group == "pendente"))
      × ((line r).receipt ≡ (group == "paga"))
unfolding line
line-group r = elim (Bool-cases (contains known_statuses r.raw_status)) [
  | inl e ↦ contains-ind IsConsistent known_statuses known-IsConsistent r.raw_status e
  | inr e ↦ unknown-IsConsistent r.raw_status e
]
