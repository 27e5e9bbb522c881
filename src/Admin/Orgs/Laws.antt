-- ===== src/Admin/Orgs/Laws.antt =====
-- What suspending an organisation comes to.
use apifor_dev.Common.{
  suc, ◌≡◌, refl, ap, inl, inr, false, some, List, [], ◌∷◌, if◌then◌else◌, Bool-cases,
}
use apifor_dev.Admin.Overview.{Org}
use apifor_dev.Admin.{get, post, Call}
use apifor_dev.Async.{thrown, returned, run, Outcome}
use apifor_dev.Admin.Orgs.{
  is_suspended, after_suspend, outline, detail_url, is_open, open_detail, toggle_suspend, Orgs,
  flip, Detail, Answer, suspend_url,
}

-- The dialog after its call: the answer, or the outline it was opened with.
abbrev pub shown_after : Outcome Answer → Org → Detail
shown_after (returned r) o = r.detail
shown_after (thrown e) o = outline o

module _ (env : Call → Outcome Answer) where
  run-open_detail :
      (a : Outcome Answer) (o : Org) (s : Orgs)
      → env (get (detail_url o)) ≡ a
      → run env (open_detail o) s ≡ (
        record s { detail = some (shown_after a o); detail_loading = false },
        get (detail_url o) ∷ [],
      )
  unfolding run open_detail
  run-open_detail (returned r) o s h = rw h refl
  run-open_detail (thrown e) o s h = rw h refl

  -- What follows an action that was not thrown.
  abbrev pub followed : Orgs → Org → Orgs × List Call
  followed s o =
      if is_open s.detail o
      then (
        record s {
          reloads = suc s.reloads;
          detail = some (shown_after (env (get (detail_url o))) (flip o));
          detail_loading = false;
        },
        post (suspend_url o) [] ∷ get (detail_url o) ∷ [],
      )
      else (record s { reloads = suc s.reloads }, post (suspend_url o) [] ∷ [])

  -- Suspending an organisation, or letting it in again, asks for the action opposite to the state
  -- shown. If that call throws nothing else happens. Otherwise the list is asked for again, and the
  -- dialog of that organisation, if it is the one open, reads the organisation again; while that call
  -- is not answered, and if it throws, it shows the opposite state with no members and no tasks. The
  -- other dialogs stay as they are.
  pub run-toggle_suspend :
      (o : Org) (s : Orgs)
      → run env (toggle_suspend s o) s ≡ elim (env (post (suspend_url o) [])) [
        | returned r ↦ followed s o
        | thrown e ↦ (s, post (suspend_url o) [] ∷ [])
      ]
  unfolding run toggle_suspend
  run-toggle_suspend o s =
      elim (env (post (suspend_url o) []))
        as (λ a.
          (
            (run env (after_suspend (is_open s.detail o) o a) s).0,
            post (suspend_url o) [] ∷ (run env (after_suspend (is_open s.detail o) o a) s).1,
          )
          ≡ elim a [ returned r ↦ followed s o | thrown e ↦ (s, post (suspend_url o) [] ∷ []) ]) [
            | returned r ↦ elim (Bool-cases (is_open s.detail o)) [
              | inl e ↦ rw (e) (
                  let t : Orgs = record s { reloads = suc s.reloads } in
                  let h = run-open_detail (env (get (detail_url o))) (flip o) t refl in
                  ap (λ (x : Orgs × List Call). (x.0, post (suspend_url o) [] ∷ x.1)) h)
              | inr e ↦ rw e refl
            ]
            | thrown e ↦ refl
          ]

-- The flip of a flip shows the state shown at first, and asks for the same action.
pub flip-flip : (o : Org) → suspend_url (flip (flip o)) ≡ suspend_url o
flip-flip o = elim (Bool-cases (is_suspended o)) [ inl e ↦ rw e refl | inr e ↦ rw e refl ]
