-- ===== src/Org/Laws.antt =====
-- What an invite comes to.
use apifor_dev.Common.{
  suc, ◌==◌, ◌≡◌, refl, sym, ap, ◌∙◌, inl, inr, true, false, List, [], ◌∷◌, if◌then◌else◌,
  Bool-cases, if-true, if-false,
}
use apifor_dev.Org.{blank_form, after_invite, invite_call, invite_of, invite, Org, Call}
use apifor_dev.Async.{thrown, text_or, returned, run, Outcome}

module _ (env : Call → Outcome Unit) where
  -- The page after the call.
  abbrev pub invited : Outcome Unit → Org → Org
  invited (returned r) s = record s {
    pending = invite_of s ∷ s.pending;
    inv = blank_form;
    invite_open = false;
    inviting = false;
    loads = suc s.loads;
  }
  invited (thrown e) s = record s { inviting = false }

  invited_lem :
      (o : Outcome Unit) (s : Org)
      → run env (after_invite (invite_of s) o) (record s { inviting = true }) ≡ (invited o s, [])
  unfolding run text_or
  invited_lem (returned r) s = refl
  invited_lem (thrown e) s = refl

  -- An invite without an address is not sent. Any other is sent once; unless the call throws, it is
  -- listed first among the pending ones, the dialog closes with an empty form and the members are read
  -- again, also where the server has refused it; if the call throws, the dialog and its form stay.
  pub run-invite :
      (s : Org)
      → run env (invite s) s ≡ (
          if s.inv.email == ""
          then (s, [])
          else (invited (env (invite_call s.inv)) s, invite_call s.inv ∷ []))
  unfolding run invite
  run-invite s = elim (Bool-cases (s.inv.email == "")) [
    | inl e ↦ ap (λ h. run env h s) (if-true _ _ e) ∙ sym (if-true _ _ e)
    | inr e ↦
        ap (λ h. run env h s) (if-false _ _ e)
        ∙ ap (λ (x : Org × List Call). (x.0, invite_call s.inv ∷ x.1))
            (invited_lem (env (invite_call s.inv)) s)
        ∙ sym (if-false _ _ e)
  ]
