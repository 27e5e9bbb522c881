-- ===== src/Invoices.antt =====
-- The page of the invoices (app/dashboard/app/invoices/page.tsx). The reading of a date by `new Date`,
-- the writing of an amount and `toLowerCase` are parameters.
pub mod Laws
pub mod Dates
use apifor_dev.Common.{
  ℕ, String, ◌==◌, Bool, ◌||◌, Option, none, some, List, [], ◌∷◌, map, if◌then◌else◌, default,
  length, take, drop, filter,
}
use apifor_dev.Common.Text
use apifor_dev.Session.{truthy}
use apifor_dev.Invoices.Dates.{invoice_period, fmt_date, extract_year, Date}
use apifor_dev.Paging.{next_page, prev_page, total_pages}
use apifor_dev.Async.{text_or}

pub record RawInvoice : Type 0 where
  pub stripe_invoice_id : Option String
  pub amount_cents : ℕ
  pub currency : Option String
  pub status : String
  pub date : String
  pub pdf_url : Option String

pub record Row : Type 0 where
  pub id : String
  pub date : String
  pub period : String
  pub amount : String
  pub raw_status : String
  pub pdf_url : String

-- `statusInfo`, its label and its two colours.
unfoldable pub status_info : String → String × (String × String)
status_info s =
    if s == "paid"
    then ("Paga", ("var(--green)", "var(--green-tint)"))
    else if (s == "open") || (s == "past_due")
    then ("Pendente", ("var(--accent)", "var(--accent-tint)"))
    else if (s == "failed") || (s == "void")
    then ("Falhou", ("var(--red)", "var(--red-tint)"))
    else ("—", ("var(--mute)", "var(--elev)"))

unfoldable pub status_group : String → String
status_group s =
    if s == "paid"
    then "paga"
    else if (s == "open") || (s == "past_due")
    then "pendente"
    else "falhou"

abbrev mock : String → String → String → String → String → Row
mock id date period amount status = record {
  id = id;
  date = date;
  period = period;
  amount = amount;
  raw_status = status;
  pdf_url = "";
}

abbrev pub mock_rows : List Row
mock_rows =
    mock "in_1Abc8f3x" "01/jun/2026" "01 mai – 31 mai 2026" "R$ 499,00" "paid"
    ∷ mock "in_2Bcd9g4y" "01/mai/2026" "01 abr – 30 abr 2026" "R$ 499,00" "paid"
    ∷ mock "in_3Cde0h5z" "01/abr/2026" "01 mar – 31 mar 2026" "R$ 499,00" "paid"
    ∷ mock "in_4Def1i6a" "01/mar/2026" "01 fev – 28 fev 2026" "R$ 349,00" "open"
    ∷ mock "in_5Efg2j7b" "01/fev/2026" "01 jan – 31 jan 2026" "R$ 349,00" "failed"
    ∷ []

-- The dialog of one invoice, with its one item.
pub record Doc : Type 0 where
  pub id : String
  pub date : String
  pub due : String
  pub period : String
  pub plan : String
  pub status : String × (String × String)
  pub item : String × String
  pub subtotal : String
  pub total : String
  pub pay_note : String

unfoldable pub build_doc : Row → String → Doc
unfolding status_info
build_doc r plan = record {
  id = r.id;
  date = r.date;
  due = r.date;
  period = r.period;
  plan = if plan == "" then "Free" else plan;
  status = status_info r.raw_status;
  item = (Text.append "Plano " (if plan == "" then "Free" else plan), r.period);
  subtotal = r.amount;
  total = r.amount;
  pay_note = if r.raw_status == "paid" then "Pago com Visa •••• 4242" else "Aguardando pagamento";
}

pub record Invoices : Type 0 where
  pub q : String
  pub year : String
  pub sf : String
  pub page : ℕ
  pub doc : Option Doc

pub data Event : Type 0 where
  set_q set_year set_sf : String → Event
  prev next close : Event
  show : Row → Event

-- One line of the table, with the buttons that its status calls for.
pub record Line : Type 0 where
  pub row : Row
  pub status : String × (String × String)
  pub pay : Bool
  pub receipt : Bool

unfoldable pub line : Row → Line
unfolding status_info
line r = record {
  row = r;
  status = status_info r.raw_status;
  pay = (r.raw_status == "open") || (r.raw_status == "past_due");
  receipt = r.raw_status == "paid";
}

-- `s.charAt(0).toUpperCase() + s.slice(1)`
abbrev pub capital : (String → String) → String → String
capital upper s = Text.append (upper (Text.take 1 s)) (Text.drop 1 s)

-- The name of the plan: of the subscription, if that was read and has one.
unfoldable pub plan_name : (String → String) → Option String → String
plan_name upper plan = if truthy plan then capital upper (default "" plan) else "Free"

module _ (read : String → Option Date) (write : ℕ → String) (money : ℕ → String → String) where
  unfoldable pub to_row : RawInvoice → Row
  unfolding fmt_date invoice_period text_or
  to_row iv = record {
    id = text_or iv.stripe_invoice_id "—";
    date = fmt_date read write iv.date;
    period = invoice_period read write iv.date;
    amount = money iv.amount_cents (text_or iv.currency "brl");
    raw_status = iv.status;
    pdf_url = text_or iv.pdf_url "";
  }

  unfoldable pub raw_rows : Option (List RawInvoice) → List Row
  unfolding to_row
  raw_rows none = mock_rows
  raw_rows (some []) = mock_rows
  raw_rows (some (iv ∷ ivs)) = map to_row (iv ∷ ivs)

module _ (read : String → Option Date) (write : ℕ → String) (lower : String → String) where
  unfoldable pub found_by : String → Row → Bool
  found_by q r =
      (q == "") || Text.includes (lower r.id) (lower q) || Text.includes (lower r.period) (lower q)

  unfoldable pub of_year : String → Row → Bool
  unfolding extract_year
  of_year year r = (year == "todos") || (extract_year read write r.date == year)

  unfoldable pub of_group : String → Row → Bool
  unfolding status_group
  of_group sf r = (sf == "todos") || (status_group r.raw_status == sf)

  unfoldable pub filtered : Invoices → List Row → List Row
  unfolding found_by of_year of_group
  filtered s rs = filter (found_by s.q) (filter (of_year s.year) (filter (of_group s.sf) rs))

  unfoldable pub pages : List Row → Invoices → ℕ
  unfolding filtered total_pages
  pages rs s = total_pages 8 (length (filtered s rs))

  unfoldable pub step : List Row → String → Event → Invoices → Invoices
  unfolding pages prev_page next_page build_doc
  step rs plan (set_q v) s = record s { q = v; page = 0 }
  step rs plan (set_year v) s = record s { year = v; page = 0 }
  step rs plan (set_sf v) s = record s { sf = v; page = 0 }
  step rs plan prev s = record s { page = prev_page s.page }
  step rs plan next s = record s { page = next_page (pages rs s) s.page }
  step rs plan close s = record s { doc = none }
  step rs plan (show r) s = record s { doc = some (build_doc r plan) }
