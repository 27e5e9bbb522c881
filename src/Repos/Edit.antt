-- ===== src/Repos/Edit.antt =====
-- The edition and the removal of a repository (app/dashboard/app/config/page.tsx).
use apifor_dev.Common.{◌+◌, String, ◌==◌, true, false, Option, none, some, ◌∷◌, if◌then◌else◌}
use apifor_dev.Common.Text
use apifor_dev.Repos.{post_edit, delete_repo, Reply, Handler, Repo, Repos}
use apifor_dev.Async.{text_or, returned, thrown_text, call, set, thrown, done, Outcome}

unfoldable pub open_repo_edit : Repo → Repos → Repos
open_repo_edit r s = record s {
  edit = some r;
  edit_name = r.name;
  edit_branch = if r.default_branch == "" then "main" else r.default_branch;
}

abbrev pub note : String → String → Repos → Repos
note text kind s = record s { toasts = (text, kind) ∷ s.toasts }

-- After the call of an edition: the texts of its failure, its success, and what success changes.
abbrev pub settle : String → String → (Repos → Repos) → Outcome Reply → Repos → Repos
settle failed ok change (thrown e) s = note (thrown_text e failed) "error" s
settle failed ok change (returned r) s = elim r.error [
  | some m ↦ note (text_or m failed) "error" s
  | none ↦ change (note ok "success" s)
]

abbrev pub edit_saved : Repos → Repos
edit_saved s = record s { edit = none; reloads = s.reloads + 1 }

abbrev pub edit_from : Option Repo → Repos → Handler
edit_from none s = done
edit_from (some r) s =
    if Text.trim s.edit_name == ""
    then done
    else set (λ t. record t { edit_busy = true })
        (call
          (λ t.
            post_edit r.id (Text.trim s.edit_name)
              (text_or (some (Text.trim s.edit_branch)) "main"))
          (λ o.
            set (settle "falha ao salvar" "repositório atualizado" edit_saved o)
              (set (λ t. record t { edit_busy = false }) done)))

unfoldable pub save_repo_edit : Repos → Handler
save_repo_edit s = edit_from s.edit s

abbrev pub removed : Repos → Repos
removed s = record s { del = none; reloads = s.reloads + 1 }

abbrev pub del_from : Option Repo → Handler
del_from none = done
del_from (some r) =
    set (λ t. record t { del_busy = true })
      (call (λ t. delete_repo r.id)
        (λ o.
          set (settle "falha ao excluir" "repositório removido" removed o)
            (set (λ t. record t { del_busy = false }) done)))

unfoldable pub confirm_del_repo : Repos → Handler
confirm_del_repo s = del_from s.del
