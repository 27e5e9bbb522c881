-- ===== src/Toast.antt =====
-- The toasts of app/dashboard/app/ui.tsx: `toast` numbers and dispatches a message, the container
-- shows it and starts a timer of 3500 ms that takes it away.
pub mod Laws
use apifor_dev.Common.{
  ℕ, ◌+◌, String, not, List, [], ◌∷◌, ◌++◌, map, nat_eq, if◌then◌else◌, filter, any,
}

pub data Kind : Type 0 where
  success error info : Kind

pub record Item : Type 0 where
  pub id : ℕ
  pub msg : String
  pub kind : Kind

-- `_toastSeq`, the items on the screen, and the items whose timers are running.
pub record Toasts : Type 0 where
  pub seq : ℕ
  pub items : List Item
  pub timers : List ℕ

unfoldable pub none_yet : Toasts
none_yet = record { seq = 0; items = []; timers = [] }

-- The container's handler of "apifor-toast".
unfoldable pub show : Item → Toasts → Toasts
show t s = record s { items = s.items ++ t ∷ []; timers = s.timers ++ t.id ∷ [] }

unfoldable pub toast : String → Kind → Toasts → Toasts
unfolding show
toast msg kind s =
    show (record { id = s.seq + 1; msg = msg; kind = kind }) (record s { seq = s.seq + 1 })

abbrev pub without : ℕ → List ℕ → List ℕ
without id ids = filter (λ i. not (nat_eq i id)) ids

-- The timer of an item fires: `ts.filter((x) => x.id !== t.id)`.
unfoldable pub expire : ℕ → Toasts → Toasts
expire id s =
    if any (λ i. nat_eq i id) s.timers
    then record s {
      items = filter (λ x. not (nat_eq x.id id)) s.items;
      timers = without id s.timers;
    }
    else s

pub data Event : Type 0 where
  emit : String → Kind → Event
  fire : ℕ → Event

unfoldable pub step : Event → Toasts → Toasts
unfolding toast expire
step (emit msg kind) s = toast msg kind s
step (fire id) s = expire id s

unfoldable pub steps : List Event → Toasts → Toasts
unfolding step
steps [] s = s
steps (e ∷ es) s = steps es (step e s)

-- The two colours of a kind, foreground and background.
unfoldable pub colour : Kind → String × String
colour success = ("var(--green)", "var(--green-tint)")
colour error = ("var(--red)", "var(--red-tint)")
colour info = ("var(--accent)", "var(--accent-tint)")

unfoldable pub icon : Kind → String
icon success = "✓"
icon error = "✕"
icon info = "i"

-- What the container draws: icon, message and colours of each item.
unfoldable pub draw : Toasts → List (String × String × (String × String))
unfolding colour icon
draw s = map (λ t. (icon t.kind, t.msg, colour t.kind)) s.items
