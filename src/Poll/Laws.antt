-- ===== src/Poll/Laws.antt =====
-- What a page reads while its polls succeed and fail.
use apifor_dev.Common.{◌≡◌, refl, ap, ◌∙◌, Bool, false, Option, none, some, List, [], ◌∷◌, default}
use apifor_dev.Poll.{
  null, undefined, value, reload, is_undefined, first, loading_effect, Maybe, reloads,
}

module _ {ℓ} {A : Type ℓ} where
  -- The data that an answer carries, if any.
  abbrev pub good : Option (Maybe A) → Option (Maybe A)
  good none = none
  good (some undefined) = none
  good (some d) = some d

  abbrev pub later_of : Option (Maybe A) → Option (Maybe A) → Option (Maybe A)
  later_of o none = o
  later_of o (some d) = some d

  -- The last answer that carried data, if any did.
  abbrev pub last_good : List (Option (Maybe A)) → Option (Maybe A)
  last_good [] = none
  last_good (r ∷ rs) = later_of (good r) (last_good rs)

  reload-good : (r : Option (Maybe A)) (d : Maybe A) → reload r d ≡ default d (good r)
  unfolding reload
  reload-good none d = refl
  reload-good (some undefined) d = refl
  reload-good (some _) d = refl

  default-later_of :
      (o p : Option (Maybe A)) (d : Maybe A) → default (default d o) p ≡ default d (later_of o p)
  default-later_of o none d = refl
  default-later_of o (some e) d = refl

  -- Failed polls and answers without data are passed over: after any series of polls the page holds
  -- the last answer that carried data, and what it held before if none did.
  pub reloads-last_good :
      (rs : List (Option (Maybe A))) (d : Maybe A) → reloads rs d ≡ default d (last_good rs)
  unfolding reloads
  reloads-last_good [] d = refl
  reloads-last_good (r ∷ rs) d =
      reloads-last_good rs (reload r d)
      ∙ ap (λ e. default e (last_good rs)) (reload-good r d)
      ∙ default-later_of (good r) (last_good rs) d

  reload-defined :
      (r : Option (Maybe A)) (d : Maybe A)
      → is_undefined d ≡ false
      → is_undefined (reload r d) ≡ false
  unfolding reload
  reload-defined none d h = h
  reload-defined (some undefined) d h = h
  reload-defined (some null) d h = refl
  reload-defined (some (value a)) d h = refl

  reloads-defined :
      (rs : List (Option (Maybe A))) (d : Maybe A)
      → is_undefined d ≡ false
      → is_undefined (reloads rs d) ≡ false
  unfolding reloads
  reloads-defined [] d h = h
  reloads-defined (r ∷ rs) d h = reloads-defined rs (reload r d) (reload-defined r d h)

  -- The data of a poll is never `undefined`, so the loading flag is down after the first effect,
  -- whatever the polls have answered, and also before any has (the empty series).
  pub loading_over :
      (rs : List (Option (Maybe A))) (loading : Bool)
      → loading_effect (reloads rs first) loading ≡ false
  unfolding loading_effect
  loading_over rs loading = rw (reloads-defined rs first refl) refl
