-- ===== src/Palette.antt =====
-- The command palette of app/dashboard/app/ui.tsx: what is listed for a query, the selected line,
-- the keys and the mouse. The selected index is -1 or more; `cursor` is the index plus one.
pub mod Laws
use apifor_dev.Common.{
  ℕ, zero, suc, ◌+◌, ◌-◌, min, max, String, Bool, true, false, ◌&&◌, not, Option, none, some, List,
  [], ◌∷◌, ◌++◌, ltb, if◌then◌else◌, length, filter,
}
use apifor_dev.Common.Text
use apifor_dev.Lang.{NavItem, Group, nav}

pub record Entry : Type 0 where
  pub href : String
  pub label : String
  pub group : String

abbrev entries_of : String → List NavItem → List Entry
entries_of key [] = []
entries_of key (i ∷ is) = record { href = i.href; label = i.label; group = key } ∷ entries_of key is

abbrev entries_in : List Group → List Entry
entries_in [] = []
entries_in (g ∷ gs) = entries_of g.key g.items ++ entries_in gs

unfoldable pub all_items : List Entry
unfolding nav
all_items =
    entries_in nav
    ++ record { href = "/notifications"; label = "Notificações"; group = "op" }
      ∷ record { href = "/onboarding"; label = "Início"; group = "sys" }
      ∷ []

pub record Palette : Type 0 where
  pub open? : Bool
  pub q : String
  pub cursor : ℕ

unfoldable pub closed : Palette
closed = record { open? = false; q = ""; cursor = 1 }

-- The effect on `open`: a palette that has just been opened starts anew.
abbrev pub opened : Bool → Palette → Palette
opened was p = if not was && p.open? then record p { q = ""; cursor = 1 } else p

-- The global keys and the event "apifor-cmdk"; the keys in the input; the mouse on a line.
pub data Event : Type 0 where
  toggle escape show backdrop down up enter : Event
  type_text : String → Event
  hover click : ℕ → Event

-- The item at an index of the list, if there is one.
abbrev pub at : ℕ → List Entry → Option Entry
at n [] = none
at zero (x ∷ xs) = some x
at (suc n) (x ∷ xs) = at n xs

-- `matches[sel]`, with the index one less than the cursor.
abbrev pub selected : ℕ → List Entry → Option Entry
selected zero xs = none
selected (suc n) xs = at n xs

-- A choice closes the palette and leaves for the place chosen.
abbrev pub leave : Option Entry → Palette → Palette × Option String
leave none p = (p, none)
leave (some e) p = (record p { open? = false }, some e.href)

module _ (lower : String → String) (items : List Entry) where
  unfoldable pub matches : String → List Entry
  matches q = filter (λ i. Text.includes (lower i.label) (lower q)) items

  -- An event that reaches an open palette: the palette, and the place that the browser goes to.
  unfoldable pub on_open : Event → Palette → Palette × Option String
  unfolding matches
  on_open toggle p = (record p { open? = false }, none)
  on_open escape p = (record p { open? = false }, none)
  on_open show p = (p, none)
  on_open backdrop p = (record p { open? = false }, none)
  on_open down p = (record p { cursor = min (p.cursor + 1) (length (matches p.q)) }, none)
  on_open up p = (record p { cursor = max (p.cursor - 1) 1 }, none)
  on_open enter p = leave (selected p.cursor (matches p.q)) p
  on_open (type_text v) p = (record p { q = v; cursor = 1 }, none)
  on_open (hover n) p =
      (if ltb n (length (matches p.q)) then record p { cursor = n + 1 } else p, none)
  on_open (click n) p = leave (at n (matches p.q)) p

  -- A closed palette draws nothing; only the global listeners are there.
  unfoldable pub on_closed : Event → Palette → Palette
  on_closed toggle p = opened false (record p { open? = true })
  on_closed show p = opened false (record p { open? = true })
  on_closed _ p = p

  unfoldable pub step : Event → Palette → Palette × Option String
  unfolding on_open on_closed
  step e p = if p.open? then on_open e p else (on_closed e p, none)

  unfoldable pub steps : List Event → Palette → Palette
  unfolding step
  steps [] p = p
  steps (e ∷ es) p = steps es (step e p).0
