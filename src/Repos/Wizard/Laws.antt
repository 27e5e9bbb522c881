-- ===== src/Repos/Wizard/Laws.antt =====
-- The wizard of the repositories under presses and late answers.
use apifor_dev.Common.Text
use apifor_dev.Common.{
  ℕ, String, ◌==◌, ◌≡◌, refl, ◌⊎◌, inl, inr, Bool, true, false, ◌||◌, Option, none, some, List, [],
  default,
}
use apifor_dev.Async
use apifor_dev.Async.{text_or, thrown_text, thrown, Outcome, done, returned, Running, until_call}
use apifor_dev.Repos.{listed, RemoteRepo, Repo, Reply, Call, Repos}
use apifor_dev.Repos.Wizard.{press_del, press_edit, press_save}
use apifor_dev.Repos.Save.{save_from, save_repo}
use apifor_dev.Repos.Edit.{edit_from, del_from, confirm_del_repo, save_repo_edit}
use apifor_dev.Async.Press.{guarded_or, press_twice, at_call}

-- A page that waits for no call.
abbrev pub idle : Repos → Running Repos Call Reply
idle s = record { state = s; waiting = [] }

-- An answer with these repositories.
abbrev pub with_repos : List RemoteRepo → Outcome Reply
with_repos l =
    returned
      (record { repos = some l; error = none; url = none; home = ""; code = none; stderr = none })

-- The repositories that an answer lists, and the message of one that lists none.
abbrev pub listing : Outcome Reply → Option (List RemoteRepo)
listing (thrown e) = none
listing (returned r) = elim r.error [ none ↦ some (default [] r.repos) | some m ↦ none ]

abbrev pub complaint : Outcome Reply → Option String
complaint (thrown e) = some (thrown_text e "falha ao listar repositórios")
complaint (returned r) = elim r.error [
  | none ↦ none
  | some m ↦ some (text_or m "falha ao listar repositórios")
]

-- The first of two, or else the second.
abbrev pub or_else {ℓ} : {A : Type ℓ} → Option A → Option A → Option A
or_else none b = b
or_else (some a) b = some a

-- What two answers leave, the later one first.
abbrev pub Shows : String → Outcome Reply → Outcome Reply → Repos → Type 0
Shows prov late early s =
    (s.prov ≡ prov)
    × (s.list ≡ or_else (listing late) (listing early))
    × (s.list_err ≡ default (default "" (complaint early)) (complaint late))
    × (s.loading ≡ false)

abbrev settled : Outcome Reply → Repos → Repos
settled o s = record (listed o s) { loading = false }

abbrev save_off : Repos → Bool
save_off s = s.saving || (Text.trim s.dir == "")

abbrev edit_off : Repos → Bool
edit_off s = s.edit_busy || (Text.trim s.edit_name == "")

save_or :
    (print : Option ℕ → String) (tauri : Bool) (m : Option RemoteRepo) (s : Repos)
    → (save_from print tauri m s ≡ done) ⊎ (save_off (at_call (save_from print tauri m s) s) ≡ true)
unfolding until_call
save_or print tauri none s = inl refl
save_or print tauri (some x) s = inr refl

edit_or :
    (m : Option Repo) (s : Repos)
    → (edit_from m s ≡ done) ⊎ (edit_off (at_call (edit_from m s) s) ≡ true)
unfolding until_call
edit_or none s = inl refl
edit_or (some r) s = guarded_or (Text.trim s.edit_name == "") edit_off _ s refl

del_or :
    (m : Option Repo) (s : Repos) → (del_from m ≡ done) ⊎ ((at_call (del_from m) s).del_busy ≡ true)
unfolding until_call
del_or none s = inl refl
del_or (some r) s = inr refl

-- Clicked again with the pointer before the answer, the buttons that save, rename and remove a repository do nothing.
pub press-twice :
    (print : Option ℕ → String) (tauri : Bool) (s : Repos)
    → (press_save print tauri (at_call (press_save print tauri s) s) ≡ done)
      × (press_edit (at_call (press_edit s) s) ≡ done)
      × (press_del (at_call (press_del s) s) ≡ done)
unfolding press_save press_edit press_del save_repo save_repo_edit confirm_del_repo
press-twice print tauri s = (
  press_twice save_off (save_repo print tauri) s (save_or print tauri s.sel s),
  press_twice edit_off save_repo_edit s (edit_or s.edit s),
  press_twice (λ (t : Repos). t.del_busy) confirm_del_repo s (del_or s.del s),
)
