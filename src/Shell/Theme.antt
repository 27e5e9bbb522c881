-- ===== src/Shell/Theme.antt =====
-- The theme: `themeInit` (app/dashboard/app/layout.tsx), which runs before the page, and `useTheme`
-- (ui.tsx). The storage may refuse to be read or written: it throws, and the code goes on.
use apifor_dev.Common.{
  ℕ, zero, suc, String, ◌==◌, eq_iff, ◌≡◌, refl, ◌≢◌, ◌⊎◌, inl, inr, Bool, false, Option, some,
  arith, if◌then◌else◌, Bool-cases,
}
use apifor_dev.Async.{text_or}

pub record Storage : Type 0 where
  pub theme : Option String
  pub readable : Bool
  pub writable : Bool

-- The storage, the attribute `data-theme` of the document, and the state of the component.
pub record Themed : Type 0 where
  pub storage : Storage
  pub attr : Option String
  pub shown : String

-- The document as it is sent, and the script in its head.
unfoldable pub theme_init : Storage → Option String
theme_init st = some (if st.readable then text_or st.theme "dark" else "dark")

unfoldable pub mount : Option String → String
mount attr = text_or attr "dark"

unfoldable pub reload : Themed → Themed
unfolding theme_init mount
reload s = let a = theme_init s.storage in record { storage = s.storage; attr = a; shown = mount a }

abbrev pub other : String → String
other cur = if cur == "dark" then "light" else "dark"

abbrev pub store : String → Storage → Storage
store t st = if st.writable then record st { theme = some t } else st

unfoldable pub toggle : Themed → Themed
toggle s =
    let next = other s.shown in
    record { storage = store next s.storage; attr = some next; shown = next }

unfoldable pub toggles : ℕ → Themed → Themed
unfolding toggle
toggles zero s = s
toggles (suc n) s = toggle (toggles n s)

other-blank : (s : String) → (other s == "") ≡ false
other-blank s = elim (Bool-cases (s == "dark")) [ inl e ↦ rw e refl | inr e ↦ rw e refl ]

-- What a toggle leaves in the storage, as far as a later load reads it.
abbrev pub IsLike : Storage → Storage → Type 0
IsLike a b =
    (a.readable ≡ b.readable)
    × (a.writable ≡ b.writable)
    × ((b.writable ≡ false) → a.theme ≡ b.theme)

store-IsLike : (t : String) (a b : Storage) → IsLike a b → IsLike (store t a) b
store-IsLike t a b h = ground arith

toggles-IsLike : (n : ℕ) (s : Themed) → IsLike (toggles n s).storage s.storage
unfolding toggles toggle
toggles-IsLike zero s = (refl, refl, λ h. refl)
toggles-IsLike (suc n) s =
    store-IsLike (other (toggles n s).shown) (toggles n s).storage s.storage (toggles-IsLike n s)

reload-store :
    (t : String) (a b : Storage)
    → (t == "") ≡ false
    → IsLike a b
    → mount (theme_init (store t a))
      ≡ (if b.readable then if b.writable then t else text_or b.theme "dark" else "dark")
unfolding mount theme_init text_or
reload-store t a b e h = ground arith

-- A reload shows the theme of the last toggle, however many toggles came before it, if the storage
-- can be read and written; if it can only be read, it shows the theme stored before the toggles, and
-- "dark" if none was. If it cannot be read, every reload is dark.
pub reload-toggles :
    (n : ℕ) (s : Themed)
    → (reload (toggles (suc n) s)).shown ≡ (
        if s.storage.readable
        then if s.storage.writable
          then (toggles (suc n) s).shown
          else text_or s.storage.theme "dark"
        else "dark")
unfolding reload toggles toggle
reload-toggles n s =
    let t = (toggles n s).shown in
    reload-store (other t) (toggles n s).storage s.storage (other-blank t) (toggles-IsLike n s)

light-dark : (t : String) → t ≡ "dark" ⊎ t ≡ "light" → (other (other t) ≡ t) × (other t ≢ t)
light-dark t (inl e) = rw e (refl, λ p. ground (arith, eq_iff "light" "dark"))
light-dark t (inr e) = rw e (refl, λ p. ground (arith, eq_iff "dark" "light"))

-- From a theme that the code knows, two toggles come back to it, and one never does.
pub toggle-toggle :
    (s : Themed)
    → s.shown ≡ "dark" ⊎ s.shown ≡ "light"
    → ((toggle (toggle s)).shown ≡ s.shown) × ((toggle s).shown ≢ s.shown)
unfolding toggle
toggle-toggle s h = light-dark s.shown h
