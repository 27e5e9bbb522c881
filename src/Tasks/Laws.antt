-- ===== src/Tasks/Laws.antt =====
-- Creating a task.
use apifor_dev.Common.{
  ◌+◌, String, ◌==◌, ◌≡◌, refl, inl, inr, true, false, not, [], ◌∷◌, map, All-filter, if◌then◌else◌,
  Bool-cases, All,
}
use apifor_dev.Common.Text
use apifor_dev.Tasks.{Tasks, NewTask, split_refs, new_task, creating_now, after_create, create}
use apifor_dev.Async.{thrown, returned, run, Outcome}

-- The page after the call of a creation: emptied and closed with one more load of the list, or as
-- it was typed.
abbrev pub settled : Outcome (Unit {0}) → Tasks → Tasks
settled (returned r) s = record s {
  new_open = false;
  title = "";
  prompt = "";
  refs = "";
  repo = "";
  creating = false;
  reloads = s.reloads + 1;
}
settled (thrown e) s = record s { creating = false }

module _ (env : NewTask → Outcome (Unit {0})) where
  after_create-settled :
      (o : Outcome (Unit {0})) (s : Tasks)
      → (run env (after_create o) (creating_now s)).0 ≡ settled o s
  unfolding run
  after_create-settled (returned r) s = refl
  after_create-settled (thrown e) s = refl

  after_create-calls :
      (o : Outcome (Unit {0})) (s : Tasks) → (run env (after_create o) (creating_now s)).1 ≡ []
  unfolding run
  after_create-calls (returned r) s = refl
  after_create-calls (thrown e) s = refl

  -- Creating a task with a blank title does nothing. Otherwise exactly one call is made, with the
  -- fields of the dialog as they were at the click, and the button is released at the end. If the
  -- call returns, the dialog is closed and emptied and the list loaded once more; if it throws,
  -- the dialog keeps all that was typed.
  pub run-create :
      (s : Tasks)
      → run env (create s) s ≡ (
          if Text.trim s.title == ""
          then (s, [])
          else (settled (env (new_task s)) s, new_task s ∷ []))
  unfolding create run
  run-create s = elim (Bool-cases (Text.trim s.title == "")) [
    | inl e ↦ rw e refl
    | inr e ↦ rw e (
        rw (after_create-settled (env (new_task s)) s)
          (rw (after_create-calls (env (new_task s)) s) refl))
  ]

-- No empty reference is sent, whatever was typed between the commas.
pub split_refs-ne-nil : (refs : String) → All (λ r. not (r == "") ≡ true) (split_refs refs)
unfolding split_refs
split_refs-ne-nil refs = All-filter (λ r. not (r == "")) (map Text.trim (Text.split b',' refs))
