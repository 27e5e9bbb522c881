-- ===== src/Poll.antt =====
-- Polling (`usePoll` in app/dashboard/app/ui.tsx) and the loading flag that every page derives from
-- it (such as app/dashboard/app/tasks/page.tsx).
pub mod Guarded
pub mod Laws
use apifor_dev.Common.{Bool, true, false, Option, none, some, List, [], ◌∷◌, if◌then◌else◌}

-- A JavaScript value that may be missing: a field that an object lacks is `undefined`.
pub data Maybe {ℓ} (A : Type ℓ) : Type ℓ where
  undefined null : Maybe A
  value : A → Maybe A

module _ {ℓ} {A : Type ℓ} where
  -- What `usePoll` starts with: `useState<T | null>(null)`.
  abbrev pub first : Maybe A
  first = null

  abbrev pub is_undefined : Maybe A → Bool
  is_undefined undefined = true
  is_undefined _ = false

  -- The data after one poll; `none` is a call that was rejected.
  unfoldable pub reload : Option (Maybe A) → Maybe A → Maybe A
  reload none data' = data'
  reload (some undefined) data' = data'
  reload (some d) data' = d

  -- The data after a series of polls.
  unfoldable pub reloads : List (Option (Maybe A)) → Maybe A → Maybe A
  unfolding reload
  reloads [] data' = data'
  reloads (r ∷ rs) data' = reloads rs (reload r data')

  -- The effect `if (data !== undefined) setLoading(false)`.
  unfoldable pub loading_effect : Maybe A → Bool → Bool
  loading_effect data' loading = if is_undefined data' then loading else false

-- `data || []`
abbrev pub or_empty {ℓ} : {A : Type ℓ} → Maybe (List A) → List A
or_empty (value xs) = xs
or_empty _ = []
