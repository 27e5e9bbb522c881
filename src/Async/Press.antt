-- ===== src/Async/Press.antt =====
-- A button that takes no pointer (`pointerEvents: none`) while its handler is under way, clicked twice.
-- Such a button is not disabled: the keyboard runs its handler all the same.
use apifor_dev.Common.{◌≡◌, refl, ◌⊎◌, inl, inr, Bool, true, false, if◌then◌else◌, Bool-cases}
use apifor_dev.Async.{done, Script, until_call}

module _ {S Q R : Type 0} where
  -- What a click of the pointer runs: nothing while `off` holds.
  abbrev pub unless : Bool → Script S Q R → Script S Q R
  unless off h = if off then done else h

  -- What a handler leaves when it waits for its first call.
  abbrev pub at_call : Script S Q R → S → S
  at_call h c = (until_call h c).0

  -- A click on a button in a state, by its test and its handler.
  abbrev pub press : (S → Bool) → (S → Script S Q R) → S → Script S Q R
  press off h c = unless (off c) (h c)

  -- If the handler does nothing or turns its button off before its first call, a second click
  -- before the answer does nothing.
  pub press_twice :
      (off : S → Bool) (h : S → Script S Q R) (c : S)
      → (h c ≡ done) ⊎ (off (at_call (h c) c) ≡ true)
      → press off h (at_call (press off h c) c) ≡ done
  unfolding until_call
  press_twice off h c (inl d) = elim (Bool-cases (off c)) [
    | inl y ↦ rw y (rw y refl)
    | inr n ↦ rw n (rw d (rw n d))
  ]
  press_twice off h c (inr e) = elim (Bool-cases (off c)) [
    | inl y ↦ rw y (rw y refl)
    | inr n ↦ rw n (rw e refl)
  ]

  -- A handler behind a guard: it is `done`, or it turns the button off.
  pub guarded_or :
      (stop : Bool) (off : S → Bool) (k : Script S Q R) (c : S)
      → off (at_call k c) ≡ true
      → ((if stop then done else k) ≡ done) ⊎ (off (at_call (if stop then done else k) c) ≡ true)
  guarded_or true off k c e = inl refl
  guarded_or false off k c e = inr e
