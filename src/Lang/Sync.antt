-- ===== src/Lang/Sync.antt =====
-- The language that the mounted components share (`useLang` in app/dashboard/app/ui.tsx): each keeps
-- its own copy, reads the browser's storage when it mounts and at every "apifor-lang" event, and a
-- choice is written to the storage and announced by that event. The storage may refuse to be read
-- or written (it throws, and the code goes on).
use apifor_dev.Common.{
  ℕ, zero, suc, String, eq_iff, ◌≡◌, ◌≢◌, Bool, true, Option, some, List, [], ◌∷◌, ◌++◌, map, arith,
  if◌then◌else◌, All,
}
use apifor_dev.Async.{text_or}

pub record Storage : Type 0 where
  pub lang : Option String
  pub readable : Bool
  pub writable : Bool

pub record Shared : Type 0 where
  pub storage : Storage
  pub mounted : List String

-- `try { set(localStorage.getItem("apifor_lang") || "pt"); } catch {}`
unfoldable pub read : Storage → String → String
read st cur = if st.readable then text_or st.lang "pt" else cur

unfoldable pub mount : Shared → Shared
unfolding read
mount s = record s { mounted = s.mounted ++ read s.storage "pt" ∷ [] }

unfoldable pub store : String → Storage → Storage
store l st = if st.writable then record st { lang = some l } else st

abbrev pub set_at : ℕ → String → List String → List String
set_at n l [] = []
set_at zero l (x ∷ xs) = l ∷ xs
set_at (suc n) l (x ∷ xs) = x ∷ set_at n l xs

-- The n-th component sets the language.
unfoldable pub set_lang : ℕ → String → Shared → Shared
unfolding store read
set_lang n l s =
    let st = store l s.storage in
    record { storage = st; mounted = map (read st) (set_at n l s.mounted) }

map-const {ℓ} :
    {A B : Type ℓ} (b : B) (f : A → B) (xs : List A)
    → ((a : A) → f a ≡ b)
    → All (λ y. y ≡ b) (map f xs)
map-const b f [] h = tt
map-const b f (x ∷ xs) h = (h x, map-const b f xs h)

read-store :
    (l cur : String) (st : Storage)
    → st.readable ≡ true
    → l ≢ ""
    → read (store l st) cur ≡ (if st.writable then l else text_or st.lang "pt")
unfolding read store text_or
read-store l cur st r h = ground (arith, eq_iff l "")

-- Where the storage can be read, a choice of language leaves all components in one language: the
-- one chosen if the storage can be written, and otherwise the one stored before ("pt" if none), in
-- the component of the choice too.
pub set_lang-agree :
    (n : ℕ) (l : String) (s : Shared)
    → s.storage.readable ≡ true
    → l ≢ ""
    → All
        (λ x. x ≡ (if s.storage.writable then l else text_or s.storage.lang "pt"))
        (set_lang n l s).mounted
unfolding set_lang
set_lang-agree n l s r h =
    map-const _ (read (store l s.storage)) (set_at n l s.mounted)
      (λ cur. read-store l cur s.storage r h)
