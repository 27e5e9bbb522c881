-- ===== src/Qa.antt =====
-- The page of the quality reports (app/dashboard/app/qa/page.tsx). Coverage counts tenths of a
-- percent; `toLowerCase` and the writing of numbers are parameters.
pub mod Screen
pub mod Pages
pub mod Laws
use apifor_dev.Common.{
  ℕ, ◌+◌, ◌/◌, ◌%◌, String, ◌==◌, Bool, true, ◌||◌, not, List, [], ◌∷◌, map, ltb, nat_eq,
  if◌then◌else◌, length, filter, count,
}
use apifor_dev.Common.Text
use apifor_dev.Choices.{distinct}
use apifor_dev.Paging.{total_pages}

pub record Report : Type 0 where
  pub id : String
  pub task_id : String
  pub status : String
  pub tests_total : ℕ
  pub tests_passed : ℕ
  pub duration_ms : ℕ
  pub repo_id : String
  pub branch : String

unfoldable pub match_state : String → String → Bool
match_state f s =
    if f == "todos"
    then true
    else if f == "pass"
    then s == "passed"
    else if f == "fail"
    then s == "failed"
    else if f == "flaky"
    then s == "flaky"
    else true

-- The parts of a duration: nothing, milliseconds, seconds and tenths of them, minutes and seconds.
pub data Duration : Type 0 where
  nothing : Duration
  millis seconds : ℕ → Duration
  minutes : ℕ → ℕ → Duration

-- `fmtDuration`, before its numbers are written out: `seconds` holds the milliseconds that
-- `(ms / 1000).toFixed(1)` writes. `Math.round` rounds a half up.
unfoldable pub duration_of : ℕ → Duration
duration_of ms =
    if nat_eq ms 0
    then nothing
    else if ltb ms 1000
    then millis ms
    else if ltb ms 60000
    then seconds ms
    else minutes (ms / 60000) ((ms % 60000 + 500) / 1000)

module _ (show tenths : ℕ → String) where
  unfoldable pub fmt_duration : ℕ → String
  unfolding duration_of
  fmt_duration ms = elim (duration_of ms) [
    | nothing ↦ "—"
    | millis n ↦ Text.append (show n) "ms"
    | seconds n ↦ Text.append (tenths n) "s"
    | minutes m s ↦ Text.append (show m) (Text.append "m" (Text.append (show s) "s"))
  ]

abbrev pub sum_of {ℓ} : {A : Type ℓ} → (A → ℕ) → List A → ℕ
sum_of f [] = 0
sum_of f (x ∷ xs) = f x + sum_of f xs

unfoldable pub total : List Report → ℕ
total list = sum_of (λ x. x.tests_total) list

unfoldable pub passed : List Report → ℕ
passed list = sum_of (λ x. x.tests_passed) list

unfoldable pub fail_count : List Report → ℕ
fail_count list = count (λ x. x.status == "failed") list

-- The repositories to choose from, each once.
unfoldable pub repos : List Report → List String
repos list = distinct (filter (λ r. not (r == "")) (map (λ x. x.repo_id) list))

pub record Qa : Type 0 where
  pub q : String
  pub state : String
  pub repo : String
  pub page : ℕ

module _ (lower : String → String) where
  unfoldable pub found_by : String → Report → Bool
  found_by q x =
      (q == "")
      || Text.includes (lower (Text.append x.task_id (Text.append x.branch x.repo_id))) (lower q)

  unfoldable pub filtered : Qa → List Report → List Report
  unfolding match_state found_by
  filtered s list = filter (found_by s.q) (
      filter (λ x. (s.repo == "todos") || (x.repo_id == s.repo))
        (filter (λ x. match_state s.state x.status) list))

  unfoldable pub pages : List Report → Qa → ℕ
  unfolding filtered total_pages
  pages list s = total_pages 20 (length (filtered s list))
