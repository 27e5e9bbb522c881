-- ===== src/Config/Pressing.antt =====
-- A button of a connection dialog clicked, or activated from the keyboard, again before the answer.
use apifor_dev.Common.Text
use apifor_dev.Common.{
  String, ◌==◌, ◌≡◌, refl, sym, subst, ◌∙◌, inl, inr, Bool, true, false, ◌||◌, not, Option, none,
  some, [], ◌∷◌, Bool-cases, if-false,
}
use apifor_dev.Config.{verdict, Body, post, Request, blank, Handler, Config}
use apifor_dev.Config.Buttons.{
  press_claude_code, press_connect_key, git_token, press_connect_int, edit, enter_claude_code,
  press_connect_task, task_ready, press_test_git, git_lacks, press_connect_git,
}
use apifor_dev.Async.{Outcome, text_or, done, until_call}
use apifor_dev.Config.Git.{test_git, connect_git}
use apifor_dev.Config.Integrations.{connect_int, int_ready}
use apifor_dev.Config.Ia.{connect_api_key, after_code, claude_submit_code}
use apifor_dev.Config.Tasks.{connect_task}
use apifor_dev.Async.Press.{guarded_or, press_twice, at_call}

abbrev task_off : Config → Bool
task_off c = not (task_ready (text_or c.task.modal "") c.task.f)

abbrev int_off : Config → Bool
int_off c = not (int_ready (text_or c.int.modal "") c.int.f)

abbrev pub asked_by : Option (Request × (Outcome Body → Handler)) → Option Request
asked_by none = none
asked_by (some (q, k)) = some q

-- The call that a handler makes first, if any.
abbrev pub asks : Handler → Config → Option Request
asks h c = asked_by (until_call h c).1

-- A handler that is run again while it waits for its first call makes the same call again.
abbrev pub IsAskedAgain : (Config → Handler) → Config → Type 0
IsAskedAgain h c = let s = at_call (h c) c in asks (h s) s ≡ asks (h c) c

git_again : (c : Config) → IsAskedAgain connect_git c
unfolding connect_git until_call
git_again c = elim (Bool-cases (blank c.git.token || text_or c.git.modal "" == "")) [
  | inl e ↦ rw e (rw e refl)
  | inr e ↦ rw e (rw e refl)
]

task_again : (c : Config) → IsAskedAgain connect_task c
unfolding connect_task until_call
task_again c = elim (Bool-cases (text_or c.task.modal "" == "")) [
  | inl e ↦ rw e (rw e refl)
  | inr e ↦ rw e (rw e refl)
]

int_again : (c : Config) → IsAskedAgain connect_int c
unfolding connect_int until_call
int_again c = elim (Bool-cases (text_or c.int.modal "" == "")) [
  | inl e ↦ rw e (rw e refl)
  | inr e ↦ rw e (rw e refl)
]

code_again : (c : Config) → IsAskedAgain claude_submit_code c
unfolding claude_submit_code until_call
code_again c = elim (Bool-cases (blank c.ia.code)) [
  | inl e ↦ rw e (rw e refl)
  | inr e ↦ rw e (rw e refl)
]

-- Clicked again with the pointer before the answer, the buttons that connect do nothing, in the
-- dialogs of the code, of the tasks, of the integrations and of the model provider alike, and neither
-- does the one that sends the provider's code. They are not disabled, however: activated again from
-- the keyboard, which runs the handler all the same, each of them sends the same call a second time,
-- if it sent one.
pub press-twice :
    (c : Config)
    → (press_connect_git (at_call (press_connect_git c) c) ≡ done)
      × (press_connect_task (at_call (press_connect_task c) c) ≡ done)
      × (press_connect_int (at_call (press_connect_int c) c) ≡ done)
      × (press_connect_key (at_call (press_connect_key c) c) ≡ done)
      × (press_claude_code (at_call (press_claude_code c) c) ≡ done)
      × IsAskedAgain connect_git c
      × IsAskedAgain connect_task c
      × IsAskedAgain connect_int c
      × IsAskedAgain (λ s. connect_api_key) c
      × IsAskedAgain claude_submit_code c
unfolding press_connect_git connect_git press_connect_task connect_task press_connect_int
    connect_int press_connect_key connect_api_key press_claude_code claude_submit_code until_call
press-twice c =
    let git = λ (s : Config). s.git.busy || git_lacks s.git in
    let task = λ (s : Config). s.task.busy || task_off s in
    let int = λ (s : Config). s.int.busy || int_off s in
    let code = λ (s : Config). s.ia.busy || blank s.ia.code in
    let key = λ (s : Config). s.ia.busy || blank s.ia.api_key in
    (
      press_twice git connect_git c
          (guarded_or (blank c.git.token || text_or c.git.modal "" == "") git _ c refl),
      press_twice task connect_task c (guarded_or (text_or c.task.modal "" == "") task _ c refl),
      press_twice int connect_int c (guarded_or (text_or c.int.modal "" == "") int _ c refl),
      press_twice key (λ s. connect_api_key) c (inr refl),
      press_twice code claude_submit_code c (guarded_or (blank c.ia.code) code _ c refl),
      git_again c,
      task_again c,
      int_again c,
      refl,
      code_again c,
    )

-- The Enter key in the field of the provider's code sends it again, although the first sending is
-- under way and the button is off: the same code, by the same call.
pub enter_claude_code-twice :
    (c : Config)
    → blank c.ia.code ≡ false
    → let q = post "/v1/connections/claude/code" (("code", Text.trim c.ia.code) ∷ []) in
      let s = at_call (enter_claude_code c) c in
      (s.ia.busy ≡ true)
      × ((until_call (enter_claude_code c) c).1 ≡ some (q, after_code))
      × ((until_call (enter_claude_code s) s).1 ≡ some (q, after_code))
unfolding enter_claude_code claude_submit_code until_call
enter_claude_code-twice c h = rw h (rw h (refl, refl, refl))

-- What a handler runs on when its first call comes back.
abbrev pub answered : Option (Request × (Outcome Body → Handler)) → Outcome Body → Handler
answered none o = done
answered (some (q, k)) o = k o

-- If another token of a source of code is typed while the test of the one before is under way, the
-- verdict, which is about the token before, is shown beside the new one as soon as it comes. Typing
-- again, when no test is under way, clears it.
pub press_test_git-edit :
    (c : Config) (v w : String) (o : Outcome Body)
    → blank c.git.token ≡ false
    → (text_or c.git.modal "" == "") ≡ false
    → c.git.testing ≡ false
    → let waiting = until_call (press_test_git c) c in
      let edited = edit (git_token v) waiting.0 in
      let shown = (until_call (answered waiting.1 o) edited).0 in
      (edited.git.test ≡ none)
      × (shown.git.token ≡ v)
      × (shown.git.test ≡ some (verdict "válido" "inválido" "falha no teste" o))
      × ((edit (git_token w) shown).git.token ≡ w)
      × ((edit (git_token w) shown).git.test ≡ none)
unfolding press_test_git test_git until_call edit
press_test_git-edit c v w o h m t =
    let a : (c.git.testing || blank c.git.token) ≡ false = rw t h in
    let b : (blank c.git.token || text_or c.git.modal "" == "") ≡ false = rw h m in
    let e : press_test_git c ≡ _ = if-false _ _ a ∙ if-false _ _ b in
    subst
      (λ (k : Handler).
        let edited = edit (git_token v) (until_call k c).0 in
        let shown = (until_call (answered (until_call k c).1 o) edited).0 in
        (edited.git.test ≡ none)
        × (shown.git.token ≡ v)
        × (shown.git.test ≡ some (verdict "válido" "inválido" "falha no teste" o))
        × ((edit (git_token w) shown).git.token ≡ w)
        × ((edit (git_token w) shown).git.test ≡ none))
      (sym e) (refl, refl, refl, refl, refl)
