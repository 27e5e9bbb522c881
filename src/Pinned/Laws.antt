-- ===== src/Pinned/Laws.antt =====
-- What the form of a pinned worker and its switch keep.
use apifor_dev.Common.{
  ◌<◌, String, ◌==◌, ◌≡◌, refl, ap, true, false, not, Option, some, List, [], ◌∷◌, arith, nat_eq,
  default,
}
use apifor_dev.Pinned.{
  Body, pw_body, PinnedW, Form, Pinned, Call, form_of, not_false, is_true, toggle_body, save_pw,
  open_pw_edit, post_to, after_save, saved, say, save_call,
}
use apifor_dev.Async.{run, Outcome, returned, thrown, thrown_text}

-- The worker that the server holds after it stored the body of a call.
abbrev pub stored : String → Body → PinnedW
stored id x = record {
  id = id;
  focus = x.focus;
  repo_id = x.repo_id;
  concurrency = x.concurrency;
  model = x.model;
  rules = some x.rules;
  enabled = some x.enabled;
  open_pr = some x.capabilities.open_pr;
  run_tests = some x.capabilities.run_tests;
  auto_merge = some x.capabilities.auto_merge;
}

-- A form survives being saved and opened again, if it names a model and at least one worker.
pub form_of-stored :
    (id : String) (x : Form)
    → (x.model == "") ≡ false
    → 0 < x.concurrency
    → form_of (stored id (pw_body x)) ≡ x
unfolding form_of pw_body
form_of-stored id x m c = let e : nat_eq x.concurrency 0 ≡ false = ground arith in rw (m, e) refl

-- The switch turns a worker to the other state and changes none of its capabilities or rules; two
-- switches in turn, each on what the server stored, send the state that was listed.
pub toggle_body-stored :
    (p : PinnedW)
    → let once = stored p.id (toggle_body p) in
      (not_false once.enabled ≡ not (not_false p.enabled))
      × ((toggle_body once).enabled ≡ not_false p.enabled)
      × (not_false once.open_pr ≡ not_false p.open_pr)
      × (not_false once.run_tests ≡ not_false p.run_tests)
      × (is_true once.auto_merge ≡ is_true p.auto_merge)
      × (default "" once.rules ≡ default "" p.rules)
unfolding toggle_body
toggle_body-stored p = (refl, ground arith, refl, refl, refl, refl)

module _ (env : Call → Outcome (Unit {0})) where
  -- The page after the call of a save.
  abbrev pub save_result : Option String → Outcome (Unit {0}) → Pinned → Pinned
  save_result e (returned r) s = record (saved e s) { busy = false }
  save_result e (thrown m) s = record (say (thrown_text m "falha ao salvar") s) { busy = false }

  after_save_lem :
      (e : Option String) (o : Outcome (Unit {0})) (s : Pinned)
      → run env (after_save e o) (record s { busy = true }) ≡ (save_result e o s, [])
  unfolding run
  after_save_lem e (returned r) s = refl
  after_save_lem e (thrown m) s = refl

  save_call-open_pw_edit :
      (p : PinnedW) (s : Pinned)
      → (p.id == "") ≡ false
      → save_call (open_pw_edit p s) ≡ post_to p.id (pw_body (form_of p))
  unfolding save_call open_pw_edit
  save_call-open_pw_edit p s h = rw h refl

  -- Saving a listed worker that was opened and not changed makes one call to that worker's path with
  -- the form of the worker; the dialog is closed and the list loaded again exactly when the call returns,
  -- and the button is released in either case.
  pub save_pw-open_pw_edit :
      (p : PinnedW) (s : Pinned)
      → (p.id == "") ≡ false
      → let opened = open_pw_edit p s in
        let asked : Call = post_to p.id (pw_body (form_of p)) in
        run env (save_pw opened) opened ≡ (save_result (some p.id) (env asked) opened, asked ∷ [])
  unfolding run save_pw open_pw_edit
  save_pw-open_pw_edit p s h =
      let asked : Call = post_to p.id (pw_body (form_of p)) in
      rw (save_call-open_pw_edit p s h) (
        ap (λ (r : Pinned × List Call). (r.0, asked ∷ r.1))
          (after_save_lem (some p.id) (env asked) (open_pw_edit p s)))
