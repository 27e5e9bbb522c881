-- ===== src/Routines/Laws.antt =====
-- The schedule that a routine shows, and the creation of a routine.
use apifor_dev.Common.{
  round_div, ℕ, suc, ◌+◌, ◌*◌, ◌≤◌, ◌<◌, String, ◌==◌, eq_iff, ◌≡◌, refl, sym, ap, ◌∙◌, ◌↔◌, inl,
  inr, true, false, ◌||◌, List, [], ◌∷◌, arith, ltb, nat_eq, if◌then◌else◌, Bool-cases, if-true,
  if-false,
}
use apifor_dev.Routines.{
  new_call, blank_form, every, after_create, create, Routines, Routine, Call, sched_label,
}
use apifor_dev.Async.{thrown, returned, run, Outcome}

-- A scheduled routine of less than an hour shows its interval rounded to a whole number of minutes,
-- from 1 to 60, which differs from the interval by half a minute at most; it shows sixty minutes
-- instead of an hour exactly from 3570 seconds on.
pub sched_label-minutes :
    (show : ℕ → String) (r : Routine)
    → r.trigger ≡ "schedule"
    → 60 ≤ r.interval_sec
    → r.interval_sec < 3600
    → let m = round_div r.interval_sec 60 in
      (sched_label show r ≡ every show m "min")
      × (1 ≤ m)
      × (60 * m ≤ r.interval_sec + 30)
      × (r.interval_sec ≤ 60 * m + 30)
      × ((m ≡ 60) ↔ (3570 ≤ r.interval_sec))
      × (m ≤ 60)
unfolding sched_label
sched_label-minutes show r t h k =
    let a : nat_eq r.interval_sec 0 ≡ false = ground arith in
    let b : ltb r.interval_sec 60 ≡ false = ground arith in
    let c : ltb r.interval_sec 3600 ≡ true = ground arith in
    (
      if-true _ _ ((eq_iff r.trigger "schedule").1 t)
          ∙ if-false _ _ a
          ∙ if-false _ _ b
          ∙ if-true _ _ c,
      omega arith,
      omega arith,
      omega arith,
      (λ e. omega arith, λ e. omega arith),
      omega arith,
    )

module _ (env : Call → Outcome Unit) (number : String → ℕ) where
  -- The page after the call.
  abbrev pub made : Outcome Unit → Routines → Routines
  made (returned r) s = record s {
    f = blank_form;
    new_open = false;
    creating = false;
    reloads = suc s.reloads;
  }
  made (thrown e) s = record s { creating = false }

  made_lem :
      (o : Outcome Unit) (s : Routines)
      → run env (after_create o) (record s { creating = true }) ≡ (made o s, [])
  unfolding run
  made_lem (returned r) s = refl
  made_lem (thrown e) s = refl

  -- A routine without a name or a prompt is not sent. Any other is sent once; unless the call throws,
  -- the dialog closes with an empty form and the list is read again, whatever the answer, an error
  -- too; if it throws, the dialog stays open with its form. No case leaves the page creating.
  pub run-create_routine :
      (s : Routines)
      → run env (create number s) s ≡ (
          if (s.f.name == "") || (s.f.prompt == "")
          then (s, [])
          else (made (env (new_call number s.f)) s, new_call number s.f ∷ []))
  unfolding run create
  run-create_routine s = elim (Bool-cases ((s.f.name == "") || (s.f.prompt == ""))) [
    | inl e ↦ ap (λ h. run env h s) (if-true _ _ e) ∙ sym (if-true _ _ e)
    | inr e ↦
        ap (λ h. run env h s) (if-false _ _ e)
        ∙ ap (λ (x : Routines × List Call). (x.0, new_call number s.f ∷ x.1))
            (made_lem (env (new_call number s.f)) s)
        ∙ sym (if-false _ _ e)
  ]
