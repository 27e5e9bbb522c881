-- ===== src/Invoices/Dates.antt =====
-- The dates of the page of the invoices: the day of an invoice and the month that it bills.
use apifor_dev.Common.{
  ℕ, zero, suc, ◌-◌, ◌%◌, String, Bool, true, false, ◌||◌, Option, none, some, List, [], ◌∷◌, ltb,
  nat_eq, if◌then◌else◌,
}
use apifor_dev.Common.Text

-- What the page reads off a `Date`: the month counts from 0, the year has four digits.
pub record Date : Type 0 where
  pub year : ℕ
  pub month : ℕ
  pub day : ℕ

abbrev pub months_pt : List String
months_pt =
    "jan" ∷ "fev" ∷ "mar" ∷ "abr" ∷ "mai" ∷ "jun" ∷ "jul" ∷ "ago" ∷ "set" ∷ "out" ∷ "nov" ∷ "dez"
    ∷ []

abbrev pub nth : List String → ℕ → String
nth [] n = "undefined"
nth (x ∷ xs) zero = x
nth (x ∷ xs) (suc n) = nth xs n

unfoldable pub month_name : ℕ → String
month_name m = nth months_pt m

abbrev pub is_leap : ℕ → Bool
is_leap y =
    if nat_eq (y % 400) 0 then true else if nat_eq (y % 100) 0 then false else nat_eq (y % 4) 0

-- How many days the month has, counted from 0.
abbrev pub days_in : ℕ → ℕ → ℕ
days_in y m =
    if nat_eq m 1
    then if is_leap y then 29 else 28
    else if nat_eq m 3 || nat_eq m 5 || nat_eq m 8 || nat_eq m 10
    then 30
    else 31

-- `new Date(year, month, 0)`: the day before the first of the month.
unfoldable pub eve : ℕ → ℕ → Date
eve year zero = record { year = year - 1; month = 11; day = 31 }
eve year (suc m) = record { year = year; month = m; day = days_in year m }

-- `new Date(year, month, 1)`
abbrev pub month_start : ℕ → ℕ → Date
month_start year month = record { year = year; month = month; day = 1 }

-- The first and the last day of the month that an invoice bills.
unfoldable pub billed : Date → Date × Date
unfolding eve
billed d = let last = eve d.year d.month in (month_start last.year last.month, last)

module _ (read : String → Option Date) (write : ℕ → String) where
  -- `String(n).padStart(2, "0")`
  unfoldable pub two_digits : ℕ → String
  two_digits n = if ltb n 10 then Text.append "0" (write n) else write n

  abbrev fmt : Date → String
  fmt d =
      Text.append (two_digits d.day)
        (Text.append "/" (Text.append (month_name d.month) (Text.append "/" (write d.year))))

  abbrev day_month : Date → String
  day_month d = Text.append (two_digits d.day) (Text.append " " (month_name d.month))

  unfoldable pub fmt_date : String → String
  unfolding two_digits month_name
  fmt_date s = elim (read s) [ none ↦ s | some d ↦ fmt d ]

  abbrev period_of : Date → String
  period_of d =
      let (start, last) = billed d in
      Text.append (day_month start)
        (Text.append " – " (Text.append (day_month last) (Text.append " " (write last.year))))

  unfoldable pub invoice_period : String → String
  unfolding billed two_digits month_name
  invoice_period s = elim (read s) [ none ↦ "—" | some d ↦ period_of d ]

  unfoldable pub extract_year : String → String
  extract_year s = elim (read s) [ none ↦ "" | some d ↦ write d.year ]
